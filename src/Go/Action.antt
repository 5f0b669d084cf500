-- ===== src/Go/Action.antt =====
-- Go functions with effects. A function of type `(A, error)` is an action that returns a value or
-- fails with the error; `attempt` hands the error to the caller instead.
use mariadb_ctrl.Prelude.{◌∷◌, Option, none, some}
use mariadb_ctrl.Go.Error.{Error, Result, ok, err}
use mariadb_ctrl.Go.World.{World, Event, Trace}

-- `panicked` ends the process; `blocked` is a receive or a loop that never comes to an end.
pub data Outcome (A : Type 0) : Type 0 where
  returned : A → World → Outcome A
  failed : Error → World → Outcome A
  panicked : Error → World → Outcome A
  blocked : World → Outcome A

abbrev pub Go : Type 0 → Type 0
Go A = World → Outcome A

abbrev pub final : {A : Type 0} → Outcome A → World
final (returned a w) = w
final (failed e w) = w
final (panicked e w) = w
final (blocked w) = w

unfoldable pub pure : {A : Type 0} → A → Go A
pure a w = returned a w

unfoldable pub fail : {A : Type 0} → Error → Go A
fail e w = failed e w

unfoldable pub panic : {A : Type 0} → Error → Go A
panic e w = panicked e w

abbrev pub caught : {A : Type 0} → Outcome A → Outcome (Result A)
caught (returned a w) = returned (ok a) w
caught (failed e w) = returned (err e) w
caught (panicked e w) = panicked e w
caught (blocked w) = blocked w

-- The call whose error the caller inspects.
unfoldable pub attempt : {A : Type 0} → Go A → Go (Result A)
attempt m w = caught (m w)

-- `if err != nil { return err }`
unfoldable pub check : Option Error → Go (Unit {0})
unfolding pure fail
check none = pure tt
check (some e) = fail e

-- `if err != nil { logger.Fatal(…, err) }`: `Fatal` of lager logs the error and panics with it.
unfoldable pub fatal_if : Option Error → Go (Unit {0})
unfolding pure panic
fatal_if none = pure tt
fatal_if (some e) = panic e

unfoldable pub lift : {A : Type 0} → Result A → Go A
unfolding pure fail
lift (ok a) = pure a
lift (err e) = fail e

abbrev pub logged : Event → World → World
logged e w = record w { trace = e ∷ w.trace }

-- One call of the environment: its answer depends on all that was done before, and the call is
-- recorded with the answer.
unfoldable pub call : {A : Type 0} → (Trace → A) → (A → Event) → Go A
call answer event w = let a = answer w.trace in returned a (logged (event a) w)

abbrev pub finished : {A : Type 0} → Event → Outcome A → Outcome A
finished e (returned a w) = returned a (logged e w)
finished e (failed x w) = failed x (logged e w)
finished e (panicked x w) = panicked x (logged e w)
finished e (blocked w) = blocked w

-- `defer`: the event happens when the body returns, fails or panics.
unfoldable pub deferring : {A : Type 0} → Event → Go A → Go A
deferring e m w = finished e (m w)

abbrev pub continue : {A B : Type 0} → Outcome A → (A → Go B) → Outcome B
continue (returned a w) f = f a w
continue (failed e w) f = failed e w
continue (panicked e w) f = panicked e w
continue (blocked w) f = blocked w

infixl 5 ◌>>=◌ ◌>>◌
-- To open this is to open the actions above.
unfoldable pub ◌>>=◌ : {A B : Type 0} → Go A → (A → Go B) → Go B
unfolding pure fail panic attempt check fatal_if lift call deferring
◌>>=◌ m f w = continue (m w) f

abbrev pub ◌>>◌ : {B : Type 0} → Go (Unit {0}) → Go B → Go B
m >> k = m >>= λ _. k

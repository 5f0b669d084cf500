-- ===== src/Go/Rules.antt =====
-- Rules to show that an action leads from a world only to related worlds, however it ends: one for
-- each way to build an action.
use mariadb_ctrl.Prelude.{Bool, true, false, Option, none, some, if◌then◌else◌}
use mariadb_ctrl.Go.Error.{Error, Result, ok, err}
use mariadb_ctrl.Go.World.{World, Event, Trace}
use mariadb_ctrl.Go.Action.{
  Outcome, returned, failed, panicked, blocked, Go, final, pure, fail, panic, attempt, check,
  fatal_if, lift, logged, call, deferring, ◌>>=◌, continue, caught, finished,
}

pub record IsPreorder (R : World → World → Type 0) : Type 0 where
  pub reflexive : (w : World) → R w w
  pub transitive : (u v w : World) → R u v → R v w → R u w

pub record Moves {A : Type 0} (R : World → World → Type 0) (m : Go A) : Type 0 where
  pub at : (w : World) → R w (final (m w))

module _ {R : World → World → Type 0} (o : IsPreorder R) where
  pub Moves-pure : {A : Type 0} (a : A) → Moves R (pure a)
  unfolding pure
  Moves-pure a = record { at = λ w. o.reflexive w }

  pub Moves-fail : {A : Type 0} (e : Error) → Moves R (fail {A = A} e)
  unfolding fail
  Moves-fail e = record { at = λ w. o.reflexive w }

  pub Moves-panic : {A : Type 0} (e : Error) → Moves R (panic {A = A} e)
  unfolding panic
  Moves-panic e = record { at = λ w. o.reflexive w }

  pub Moves-check : (e : Option Error) → Moves R (check e)
  unfolding check
  Moves-check none = Moves-pure tt
  Moves-check (some e) = Moves-fail e

  pub Moves-fatal_if : (e : Option Error) → Moves R (fatal_if e)
  unfolding fatal_if
  Moves-fatal_if none = Moves-pure tt
  Moves-fatal_if (some e) = Moves-panic e

  pub Moves-lift : {A : Type 0} (r : Result A) → Moves R (lift r)
  unfolding lift
  Moves-lift (ok a) = Moves-pure a
  Moves-lift (err e) = Moves-fail e

  pub Moves-bind :
      {A B : Type 0} (m : Go A) (f : A → Go B)
      → Moves R m
      → ((a : A) → Moves R (f a))
      → Moves R (m >>= f)
  unfolding ◌>>=◌
  Moves-bind {A} {B} m f p q = record { at = λ w. after w (m w) (p.at w) }
    where
      after : (w : World) (r : Outcome A) → R w (final r) → R w (final (continue r f))
      after w (returned a v) h = o.transitive w v (final (f a v)) h ((q a).at v)
      after w (failed e v) h = h
      after w (panicked e v) h = h
      after w (blocked v) h = h

  pub Moves-deferring :
      {A : Type 0} (e : Event) (m : Go A)
      → ((w : World) → R w (logged e w))
      → Moves R m
      → Moves R (deferring e m)
  unfolding deferring
  Moves-deferring {A} e m step p = record { at = λ w. after w (m w) (p.at w) }
    where
      after : (w : World) (r : Outcome A) → R w (final r) → R w (final (finished e r))
      after w (returned a v) h = o.transitive w v (logged e v) h (step v)
      after w (failed x v) h = o.transitive w v (logged e v) h (step v)
      after w (panicked x v) h = o.transitive w v (logged e v) h (step v)
      after w (blocked v) h = h

module _ {R : World → World → Type 0} where
  pub Moves-if :
      {A : Type 0} (b : Bool) (m n : Go A) → Moves R m → Moves R n → Moves R (if b then m else n)
  Moves-if true m n p q = p
  Moves-if false m n p q = q

  pub Moves-attempt : {A : Type 0} (m : Go A) → Moves R m → Moves R (attempt m)
  unfolding attempt
  Moves-attempt {A} m p = record { at = λ w. after w (m w) (p.at w) }
    where
      after : (w : World) (r : Outcome A) → R w (final r) → R w (final (caught r))
      after w (returned a v) h = h
      after w (failed e v) h = h
      after w (panicked e v) h = h
      after w (blocked v) h = h

  pub Moves-call :
      {A : Type 0} (answer : Trace → A) (event : A → Event)
      → ((w : World) (a : A) → R w (logged (event a) w))
      → Moves R (call answer event)
  unfolding call
  Moves-call answer event h = record { at = λ w. h w (answer w.trace) }

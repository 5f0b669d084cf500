-- ===== src/Go/Logic.antt =====
-- What a property of actions must satisfy to be proved of a whole `do` block from its calls. A
-- property that has these rules is shown once and for all of the operations of a part.
use mariadb_ctrl.Prelude.{Bool, true, false, Option, none, some, if◌then◌else◌}
use mariadb_ctrl.Go.Error.{Error, Result, ok, err}
use mariadb_ctrl.Go.World.{Event, Trace}
use mariadb_ctrl.Go.Action.{Go, pure, fail, panic, attempt, check, fatal_if, lift, call, ◌>>=◌}

-- `P` says which events a call may record.
pub record Logic (K : (A : Type 0) → Go A → Type 0) (P : Event → Type 0) : Type 1 where
  pub on_pure : (A : Type 0) (a : A) → K A (pure a)
  pub on_fail : (A : Type 0) (e : Error) → K A (fail e)
  pub on_panic : (A : Type 0) (e : Error) → K A (panic e)
  pub on_bind :
      (A B : Type 0) (m : Go A) (f : A → Go B) → K A m → ((a : A) → K B (f a)) → K B (m >>= f)
  pub on_attempt : (A : Type 0) (m : Go A) → K A m → K (Result A) (attempt m)
  pub on_call :
      (A : Type 0) (answer : Trace → A) (event : A → Event)
      → ((a : A) → P (event a))
      → K A (call answer event)

-- The action has the property, as a type that the rules below conclude.
pub record Has {A : Type 0} (K : (A : Type 0) → Go A → Type 0) (m : Go A) : Type 0 where
  pub holds : K A m

module _ {K : (A : Type 0) → Go A → Type 0} {P : Event → Type 0} (L : Logic K P) where
  pub on_pure : {A : Type 0} (a : A) → Has K (pure a)
  on_pure {A} a = record { holds = L.on_pure A a }

  pub on_fail : {A : Type 0} (e : Error) → Has K (fail {A = A} e)
  on_fail {A} e = record { holds = L.on_fail A e }

  pub on_panic : {A : Type 0} (e : Error) → Has K (panic {A = A} e)
  on_panic {A} e = record { holds = L.on_panic A e }

  pub on_bind :
      {A B : Type 0} (m : Go A) (f : A → Go B) → Has K m → ((a : A) → Has K (f a)) → Has K (m >>= f)
  on_bind {A} {B} m f p q = record { holds = L.on_bind A B m f p.holds (λ a. (q a).holds) }

  pub on_attempt : {A : Type 0} (m : Go A) → Has K m → Has K (attempt m)
  on_attempt {A} m p = record { holds = L.on_attempt A m p.holds }

  pub on_call :
      {A : Type 0} (answer : Trace → A) (event : A → Event)
      → ((a : A) → P (event a))
      → Has K (call answer event)
  on_call {A} answer event p = record { holds = L.on_call A answer event p }

  pub on_check : (e : Option Error) → Has K (check e)
  unfolding check
  on_check none = on_pure tt
  on_check (some e) = on_fail e

  pub on_fatal_if : (e : Option Error) → Has K (fatal_if e)
  unfolding fatal_if
  on_fatal_if none = on_pure tt
  on_fatal_if (some e) = on_panic e

  pub on_lift : {A : Type 0} (r : Result A) → Has K (lift r)
  unfolding lift
  on_lift (ok a) = on_pure a
  on_lift (err e) = on_fail e

module _ {K : (A : Type 0) → Go A → Type 0} where
  pub on_if : {A : Type 0} (b : Bool) (m n : Go A) → Has K m → Has K n → Has K (if b then m else n)
  on_if true m n p q = p
  on_if false m n p q = q

pub ruleset logic_rules =
    (on_pure, on_fail, on_bind, on_attempt, on_call, on_check, on_fatal_if, on_lift, on_if)

-- The same rules for fewer events.
pub Logic-restrict :
    {K : (A : Type 0) → Go A → Type 0} {P Q : Event → Type 0}
    → Logic K P
    → ((e : Event) → Q e → P e)
    → Logic K Q
Logic-restrict L h = record {
  on_pure = L.on_pure;
  on_fail = L.on_fail;
  on_panic = L.on_panic;
  on_bind = L.on_bind;
  on_attempt = L.on_attempt;
  on_call = λ A answer event p. L.on_call A answer event (λ a. h (event a) (p a));
}

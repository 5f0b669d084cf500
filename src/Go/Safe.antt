-- ===== src/Go/Safe.antt =====
-- `Extends` as a property of actions, and postconditions with a condition on every other end.
use mariadb_ctrl.Prelude.{refl, [], ◌∷◌}
use mariadb_ctrl.Go.World.{World, Event}
use mariadb_ctrl.Go.Action.{
  Outcome, returned, failed, panicked, blocked, Go, final, logged, ◌>>=◌, continue,
}
use mariadb_ctrl.Go.Rules.{
  Moves, Moves-pure, Moves-fail, Moves-panic, Moves-bind, Moves-attempt, Moves-call,
}
use mariadb_ctrl.Go.Logic.{Logic, Has}
use mariadb_ctrl.Go.Relations.{Extends, Extends-IsPreorder, Extends-of_Adds}
use mariadb_ctrl.Go.Adds.{AddsOnly}

-- Whatever happens, the action adds to the trace events that have `P`.
abbrev pub ExtendsOnly : (Event → Type 0) → (A : Type 0) → Go A → Type 0
ExtendsOnly P A m = Moves (Extends P) m

module _ {P : Event → Type 0} where
  pub Extends-logged : (e : Event) → P e → (w : World) → Extends P w (logged e w)
  Extends-logged e p w = record { added = e ∷ []; grown = refl; all = (p, tt) }

  pub ExtendsOnly-Logic : Logic (ExtendsOnly P) P
  ExtendsOnly-Logic = record {
    on_pure = λ A a. Moves-pure (Extends-IsPreorder P) a;
    on_fail = λ A e. Moves-fail (Extends-IsPreorder P) e;
    on_panic = λ A e. Moves-panic (Extends-IsPreorder P) e;
    on_bind = λ A B m f p q. Moves-bind (Extends-IsPreorder P) m f p q;
    on_attempt = λ A m p. Moves-attempt m p;
    on_call = λ A answer event p. Moves-call answer event (λ w a. Extends-logged (event a) (p a) w);
  }

  pub ExtendsOnly-of_AddsOnly : {A : Type 0} {m : Go A} → AddsOnly P A m → ExtendsOnly P A m
  ExtendsOnly-of_AddsOnly p = record { at = λ w. Extends-of_Adds (p.at w) }

-- `Q` where the action returns, and `I` wherever else it stops.
abbrev pub Safe : {A : Type 0} → (World → Type 0) → (A → World → Type 0) → Outcome A → Type 0
Safe I Q (returned a v) = Q a v
Safe I Q (failed e v) = I v
Safe I Q (panicked e v) = I v
Safe I Q (blocked v) = I v

Safe-continue :
    {A B : Type 0} (I : World → Type 0) (Q : A → World → Type 0) (R : B → World → Type 0)
    (r : Outcome A) (f : A → Go B)
    → Safe I Q r
    → ((a : A) (v : World) → Q a v → Safe I R (f a v))
    → Safe I R (continue r f)
Safe-continue I Q R (returned a v) f h k = k a v h
Safe-continue I Q R (failed e v) f h k = h
Safe-continue I Q R (panicked e v) f h k = h
Safe-continue I Q R (blocked v) f h k = h

pub Safe-bind :
    {A B : Type 0} (I : World → Type 0) (Q : A → World → Type 0) (R : B → World → Type 0) (m : Go A)
    (f : A → Go B) (w : World)
    → Safe I Q (m w)
    → ((a : A) (v : World) → Q a v → Safe I R (f a v))
    → Safe I R ((m >>= f) w)
unfolding ◌>>=◌
Safe-bind I Q R m f w h k = Safe-continue I Q R (m w) f h k

pub final_of_Safe :
    {A : Type 0} (I : World → Type 0) (r : Outcome A) → Safe I (λ _ v. I v) r → I (final r)
final_of_Safe I (returned a v) h = h
final_of_Safe I (failed e v) h = h
final_of_Safe I (panicked e v) h = h
final_of_Safe I (blocked v) h = h

pub Safe-of_final :
    {A : Type 0} (I : World → Type 0) (r : Outcome A) → I (final r) → Safe I (λ _ v. I v) r
Safe-of_final I (returned a v) h = h
Safe-of_final I (failed e v) h = h
Safe-of_final I (panicked e v) h = h
Safe-of_final I (blocked v) h = h

-- An action that extends the trace keeps what extensions of the trace keep.
pub Safe-of_Extends :
    {A : Type 0} {P : Event → Type 0} (u : World) (m : Go A)
    → Has (ExtendsOnly P) m
    → (w : World) → Extends P u w
    → Safe (Extends P u) (λ _ v. Extends P u v) (m w)
Safe-of_Extends {P} u m q w h =
    Safe-of_final (Extends P u) (m w)
      ((Extends-IsPreorder P).transitive u w (final (m w)) h (q.holds.at w))

-- An action that extends the trace by such events, and the rest.
pub extending_then :
    {A B : Type 0} {P : Event → Type 0} (u : World) (R : B → World → Type 0) (m : Go A)
    (f : A → Go B)
    → Has (ExtendsOnly P) m
    → (w : World) → Extends P u w
    → ((a : A) (v : World) → Extends P u v → Safe (Extends P u) R (f a v))
    → Safe (Extends P u) R ((m >>= f) w)
extending_then {P} u R m f q w h k =
    Safe-bind (Extends P u) (λ _ v. Extends P u v) R m f w (Safe-of_Extends u m q w h) k

pub Safe-map :
    {A : Type 0} (I J : World → Type 0) (Q R : A → World → Type 0) (o : Outcome A)
    → ((v : World) → I v → J v)
    → ((a : A) (v : World) → Q a v → R a v)
    → Safe I Q o
    → Safe J R o
Safe-map I J Q R (returned a v) f g h = g a v h
Safe-map I J Q R (failed e v) f g h = f v h
Safe-map I J Q R (panicked e v) f g h = f v h
Safe-map I J Q R (blocked v) f g h = f v h

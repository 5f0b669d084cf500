-- ===== src/Go/Total.antt =====
-- Total correctness: the action does not wait for ever, and what holds when it returns.
use mariadb_ctrl.Prelude.{ℕ, ◌+◌, ◌<◌, ◌≡◌, refl, Bool, false, List, [], ◌∷◌, arith, contains, All}
use mariadb_ctrl.Go.World.{World, Event}
use mariadb_ctrl.Go.Action.{
  Outcome, returned, failed, panicked, blocked, Go, pure, final, ◌>>=◌, continue,
}
use mariadb_ctrl.Go.Relations.{Adds}
use mariadb_ctrl.Go.Logic.{Has}
use mariadb_ctrl.Go.Adds.{AddsOnly}
use mariadb_ctrl.Go.Ends.{IsEnd, Ends}

abbrev pub Total : {A : Type 0} → (A → World → Type 0) → Outcome A → Type 0
Total Q (returned a v) = Q a v
Total Q (failed e v) = Unit
Total Q (panicked e v) = Unit
Total Q (blocked v) = ⊥

Total-continue :
    {A B : Type 0} (Q : A → World → Type 0) (R : B → World → Type 0) (r : Outcome A) (f : A → Go B)
    → Total Q r
    → ((a : A) (v : World) → Q a v → Total R (f a v))
    → Total R (continue r f)
Total-continue Q R (returned a v) f h k = k a v h
Total-continue Q R (failed e v) f h k = tt
Total-continue Q R (panicked e v) f h k = tt
Total-continue Q R (blocked v) f h k = h

pub Total-bind :
    {A B : Type 0} (Q : A → World → Type 0) (R : B → World → Type 0) (m : Go A) (f : A → Go B)
    (w : World)
    → Total Q (m w)
    → ((a : A) (v : World) → Q a v → Total R (f a v))
    → Total R ((m >>= f) w)
unfolding ◌>>=◌
Total-bind Q R m f w h k = Total-continue Q R (m w) f h k

pub IsEnd-of_Total : {A : Type 0} (Q : A → World → Type 0) (r : Outcome A) → Total Q r → IsEnd r
IsEnd-of_Total Q (returned a v) h = tt
IsEnd-of_Total Q (failed e v) h = tt
IsEnd-of_Total Q (panicked e v) h = tt
IsEnd-of_Total Q (blocked v) h = h

pub Total_of_final :
    {A : Type 0} (R : World → Type 0) (r : Outcome A) → IsEnd r → R (final r) → Total (λ _ v. R v) r
Total_of_final R (returned a v) e h = h
Total_of_final R (failed x v) e h = tt
Total_of_final R (panicked x v) e h = tt
Total_of_final R (blocked v) e h = e

-- What is known of the calls of an interface gives their total correctness.
pub Total_of_Adds :
    {A : Type 0} {P : Event → Type 0} (m : Go A)
    → Has (AddsOnly P) m
    → Has Ends m
    → (w : World) → Total (λ _ v. Adds P w v) (m w)
Total_of_Adds {P} m p q w = Total_of_final (Adds P w) (m w) (q.holds w) (p.holds.at w)

-- Only channels that exist have been received from.
abbrev pub IsSound : World → Type 0
IsSound w = All (λ r. r < w.next_chan) w.drained

pub not_drained_of_below : (n : ℕ) (refs : List ℕ) → All (λ r. r < n) refs → contains refs n ≡ false
not_drained_of_below n [] h = refl
not_drained_of_below n (r ∷ refs) (p, h) = ground (arith, not_drained_of_below n refs h)

pub All-lt-suc : (n : ℕ) (refs : List ℕ) → All (λ r. r < n) refs → All (λ r. r < n + 1) refs
All-lt-suc n [] h = tt
All-lt-suc n (r ∷ refs) (p, h) = (omega arith, All-lt-suc n refs h)

-- The call returns a Boolean from every world.
abbrev pub Answers : Go Bool → Type 0
Answers m = (w : World) → (b : Bool) × (v : World) × (m w ≡ returned b v)

pub Total-pure :
    {A : Type 0} (Q : A → World → Type 0) (a : A) (w : World) → Q a w → Total Q (pure a w)
unfolding pure
Total-pure Q a w h = h

pub Total-map :
    {A : Type 0} (Q R : A → World → Type 0) (r : Outcome A)
    → ((a : A) (v : World) → Q a v → R a v)
    → Total Q r
    → Total R r
Total-map Q R (returned a v) f h = f a v h
Total-map Q R (failed e v) f h = tt
Total-map Q R (panicked e v) f h = tt
Total-map Q R (blocked v) f h = h

pub Total-both :
    {A : Type 0} (Q R : A → World → Type 0) (r : Outcome A)
    → Total Q r
    → Total R r
    → Total (λ a v. Q a v × R a v) r
Total-both Q R (returned a v) h k = (h, k)
Total-both Q R (failed e v) h k = tt
Total-both Q R (panicked e v) h k = tt
Total-both Q R (blocked v) h k = h

Total-continue_from :
    {A B : Type 0} (Q : A → World → Type 0) (R : B → World → Type 0) (r : Outcome A) (f : A → Go B)
    → Total Q r
    → ((a : A) (v : World) → r ≡ returned a v → Q a v → Total R (f a v))
    → Total R (continue r f)
Total-continue_from Q R (returned a v) f h k = k a v refl h
Total-continue_from Q R (failed e v) f h k = tt
Total-continue_from Q R (panicked e v) f h k = tt
Total-continue_from Q R (blocked v) f h k = h

-- The rest may use what the action has returned.
pub Total-bind_from :
    {A B : Type 0} (Q : A → World → Type 0) (R : B → World → Type 0) (m : Go A) (f : A → Go B)
    (w : World)
    → Total Q (m w)
    → ((a : A) (v : World) → m w ≡ returned a v → Q a v → Total R (f a v))
    → Total R ((m >>= f) w)
unfolding ◌>>=◌
Total-bind_from Q R m f w h k = Total-continue_from Q R (m w) f h k

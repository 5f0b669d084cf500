-- ===== src/Go/Exact.antt =====
-- Postconditions for each way in which an action ends: by a value, or with an error; it does neither
-- panic nor wait for ever.
use mariadb_ctrl.Go.Error.{Error}
use mariadb_ctrl.Go.World.{World}
use mariadb_ctrl.Go.Action.{Outcome, returned, failed, panicked, blocked, Go, ◌>>=◌, continue}

abbrev pub Exact :
    {A : Type 0} → (A → World → Type 0) → (Error → World → Type 0) → Outcome A → Type 0
Exact Q F (returned a v) = Q a v
Exact Q F (failed e v) = F e v
Exact Q F (panicked e v) = ⊥
Exact Q F (blocked v) = ⊥

Exact-continue :
    {A B : Type 0} (Q : A → World → Type 0) (R : B → World → Type 0) (F : Error → World → Type 0)
    (r : Outcome A) (f : A → Go B)
    → Exact Q F r
    → ((a : A) (v : World) → Q a v → Exact R F (f a v))
    → Exact R F (continue r f)
Exact-continue Q R F (returned a v) f h k = k a v h
Exact-continue Q R F (failed e v) f h k = h
Exact-continue Q R F (panicked e v) f h k = absurd h
Exact-continue Q R F (blocked v) f h k = absurd h

pub Exact-bind :
    {A B : Type 0} (Q : A → World → Type 0) (R : B → World → Type 0) (F : Error → World → Type 0)
    (m : Go A) (f : A → Go B) (w : World)
    → Exact Q F (m w)
    → ((a : A) (v : World) → Q a v → Exact R F (f a v))
    → Exact R F ((m >>= f) w)
unfolding ◌>>=◌
Exact-bind Q R F m f w h k = Exact-continue Q R F (m w) f h k

pub Exact-map :
    {A : Type 0} (Q R : A → World → Type 0) (F : Error → World → Type 0) (r : Outcome A)
    → ((a : A) (v : World) → Q a v → R a v)
    → Exact Q F r
    → Exact R F r
Exact-map Q R F (returned a v) f h = f a v h
Exact-map Q R F (failed e v) f h = h
Exact-map Q R F (panicked e v) f h = h
Exact-map Q R F (blocked v) f h = h

-- ===== src/Main/Exclusive.antt =====
-- One mysqld at a time: when a run of `Execute` may start a mysqld, as a monitor of its calls.
pub mod Starting
pub mod Launching
pub mod Running
use mariadb_ctrl.Prelude.{
  String, ◌==◌, ◌≡◌, refl, sym, subst, ap, ◌∙◌, Bool, true, false, ◌&&◌, Option, none, some, List,
  [], ◌∷◌, ◌++◌, append_assoc, if◌then◌else◌, All,
}
use mariadb_ctrl.Go.Error.{Error, ok, err}
use mariadb_ctrl.Go.World.{World, Event, Trace, ran, started, received}
use mariadb_ctrl.Go.Action.{Go, Outcome, returned, failed, panicked, blocked, final, ◌>>=◌}
use mariadb_ctrl.Go.Logic.{Has}
use mariadb_ctrl.Go.Relations.{Extends}
use mariadb_ctrl.Go.Safe.{ExtendsOnly, Safe, Safe-bind, Safe-of_final}

-- What is known of mysqld: at the beginning of a run nothing; none is there; or one that the run has
-- started has not been seen to end.
pub data Turn : Type 0 where
  unclear free taken : Turn

-- `mysqladmin` with its defaults file and this command
abbrev pub is_admin : String → List String → String → Bool
is_admin exe (file ∷ word ∷ []) command = exe == "mysqladmin" && word == command
is_admin exe args command = false

-- `mysqladmin status` that fails finds no mysqld, and `mysqladmin shutdown` that succeeds ends one; but
-- only of mysqld that the run has not started itself.
abbrev pub after_command : String → List String → Option Error → Turn → Turn
after_command exe args (some e) unclear = if is_admin exe args "status" then free else unclear
after_command exe args none unclear = if is_admin exe args "shutdown" then free else unclear
after_command exe args x s = s

-- The exit of a mysqld that the run has started is known when it is received.
abbrev pub after_exit : Turn → Turn
after_exit taken = free
after_exit s = s

abbrev pub step : Event → Turn → Turn
step (started exe args (ok pid)) s = taken
step (received ref x) s = after_exit s
step (ran exe args out x) s = after_command exe args x s
step e s = s

abbrev pub turn : Trace → Turn
turn [] = unclear
turn (e ∷ t) = step e (turn t)

-- A mysqld is started only when none is there.
abbrev pub Allowed : Event → Turn → Type 0
Allowed (started exe args (ok pid)) s = s ≡ free
Allowed e s = Unit

abbrev pub Orderly : Trace → Type 0
Orderly [] = Unit
Orderly (e ∷ t) = Allowed e (turn t) × Orderly t

-- From `w` to `v` the calls are orderly.
pub record Ordered (w v : World) : Type 0 where
  pub added : Trace
  pub grown : v.trace ≡ added ++ w.trace
  pub orderly : Orderly added

-- The calls are orderly, and this is known of mysqld.
pub record Follows (w : World) (s : Turn) (v : World) : Type 0 where
  pub added : Trace
  pub grown : v.trace ≡ added ++ w.trace
  pub orderly : Orderly added
  pub now : turn added ≡ s

pub Ordered-Follows : (w : World) (s : Turn) (v : World) → Follows w s v → Ordered w v
Ordered-Follows w s v h = record { added = h.added; grown = h.grown; orderly = h.orderly }

-- no start, and no exit that is received
abbrev pub IsHeld : Event → Type 0
IsHeld (started exe args r) = ⊥
IsHeld (received ref x) = ⊥
IsHeld _ = Unit

abbrev pub NoStart : Event → Type 0
NoStart (started exe args r) = ⊥
NoStart _ = Unit

abbrev IsClear : Turn → Type 0
IsClear unclear = ⊥
IsClear s = Unit

step-IsHeld : (e : Event) (s : Turn) → IsHeld e → IsClear s → step e s ≡ s
step-IsHeld (started exe args r) s h c = absurd h
step-IsHeld (received ref x) s h c = absurd h
step-IsHeld (ran exe args out none) free h c = refl
step-IsHeld (ran exe args out (some e)) free h c = refl
step-IsHeld (ran exe args out none) taken h c = refl
step-IsHeld (ran exe args out (some e)) taken h c = refl
step-IsHeld (ran exe args out x) unclear h c = absurd c
step-IsHeld _ s h c = refl

Allowed-IsHeld : (e : Event) (s : Turn) → IsHeld e → Allowed e s
Allowed-IsHeld (started exe args r) s h = absurd h
Allowed-IsHeld _ s h = tt

Allowed-NoStart : (e : Event) (s : Turn) → NoStart e → Allowed e s
Allowed-NoStart (started exe args r) s h = absurd h
Allowed-NoStart _ s h = tt

held_turn : (es t : Trace) (s : Turn) → All IsHeld es → IsClear s → turn t ≡ s → turn (es ++ t) ≡ s
held_turn [] t s h c n = n
held_turn (e ∷ es) t s (p, h) c n = ap (step e) (held_turn es t s h c n) ∙ step-IsHeld e s p c

Orderly-append :
    (P : Event → Type 0) (es t : Trace)
    → ((e : Event) (s : Turn) → P e → Allowed e s)
    → All P es
    → Orderly t
    → Orderly (es ++ t)
Orderly-append P [] t allowed h o = o
Orderly-append P (e ∷ es) t allowed (p, h) o =
    (allowed e (turn (es ++ t)) p, Orderly-append P es t allowed h o)

regrown :
    (w u v : World) (es t : Trace)
    → v.trace ≡ es ++ u.trace
    → u.trace ≡ t ++ w.trace
    → v.trace ≡ (es ++ t) ++ w.trace
regrown w u v es t p q = p ∙ ap (λ x. es ++ x) q ∙ sym (append_assoc es t w.trace)

pub Follows-Extends :
    (w : World) (s : Turn) (u v : World)
    → IsClear s
    → Follows w s u
    → Extends IsHeld u v
    → Follows w s v
Follows-Extends w s u v c h x = record {
  added = x.added ++ h.added;
  grown = regrown w u v x.added h.added x.grown h.grown;
  orderly = Orderly-append IsHeld x.added h.added Allowed-IsHeld x.all h.orderly;
  now = held_turn x.added h.added s x.all c h.now;
}

pub Ordered-Extends : (w u v : World) → Ordered w u → Extends NoStart u v → Ordered w v
Ordered-Extends w u v h x = record {
  added = x.added ++ h.added;
  grown = regrown w u v x.added h.added x.grown h.grown;
  orderly = Orderly-append NoStart x.added h.added Allowed-NoStart x.all h.orderly;
}

-- One more call.
pub Follows-step :
    (w : World) (s : Turn) (u v : World) (e : Event) (s' : Turn)
    → v.trace ≡ e ∷ u.trace
    → Follows w s u
    → Allowed e s
    → step e s ≡ s'
    → Follows w s' v
Follows-step w s u v e s' p h a n = record {
  added = e ∷ h.added;
  grown = p ∙ ap (λ t. e ∷ t) h.grown;
  orderly = (subst (Allowed e) (sym h.now) a, h.orderly);
  now = ap (step e) h.now ∙ n;
}

Safe-of_Follows :
    {A : Type 0} (w : World) (s : Turn) (o : Outcome A)
    → Follows w s (final o)
    → Safe (Ordered w) (λ _ v. Follows w s v) o
Safe-of_Follows w s (returned a v) x = x
Safe-of_Follows w s (failed e v) x = Ordered-Follows w s v x
Safe-of_Follows w s (panicked e v) x = Ordered-Follows w s v x
Safe-of_Follows w s (blocked v) x = Ordered-Follows w s v x

-- An action that neither starts mysqld nor receives its exit.
pub held_last :
    {A : Type 0} (w : World) (s : Turn) (m : Go A)
    → IsClear s
    → Has (ExtendsOnly IsHeld) m
    → (u : World) → Follows w s u
    → Safe (Ordered w) (λ _ v. Follows w s v) (m u)
held_last w s m c q u h =
    Safe-of_Follows w s (m u) (Follows-Extends w s u (final (m u)) c h (q.holds.at u))

-- The same, and the rest.
pub held_then :
    {A B : Type 0} (w : World) (s : Turn) (R : B → World → Type 0) (m : Go A) (f : A → Go B)
    → IsClear s
    → Has (ExtendsOnly IsHeld) m
    → (u : World) → Follows w s u
    → ((a : A) (v : World) → Follows w s v → Safe (Ordered w) R (f a v))
    → Safe (Ordered w) R ((m >>= f) u)
held_then w s R m f c q u h k =
    Safe-bind (Ordered w) (λ _ v. Follows w s v) R m f u (held_last w s m c q u h) k

-- An action that starts no mysqld.
pub Ordered-last :
    {A : Type 0} (w : World) (m : Go A)
    → Has (ExtendsOnly NoStart) m
    → (u : World) → Ordered w u
    → Safe (Ordered w) (λ _ v. Ordered w v) (m u)
Ordered-last w m q u h =
    Safe-of_final (Ordered w) (m u) (Ordered-Extends w u (final (m u)) h (q.holds.at u))

-- The same, and the rest.
pub Ordered-then :
    {A B : Type 0} (w : World) (R : B → World → Type 0) (m : Go A) (f : A → Go B)
    → Has (ExtendsOnly NoStart) m
    → (u : World) → Ordered w u
    → ((a : A) (v : World) → Ordered w v → Safe (Ordered w) R (f a v))
    → Safe (Ordered w) R ((m >>= f) u)
Ordered-then w R m f q u h k =
    Safe-bind (Ordered w) (λ _ v. Ordered w v) R m f u (Ordered-last w m q u h) k

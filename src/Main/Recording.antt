-- ===== src/Main/Recording.antt =====
-- What it means that a node has recorded that it is in a cluster, and which events keep the record.
use mariadb_ctrl.Prelude.{
  ℕ, String, ◌≡◌, ◌≢◌, sym, ap, ◌∙◌, true, none, List, [], ◌∷◌, ◌++◌, append_assoc, All, All-append,
}
use mariadb_ctrl.Go.Error.{ok}
use mariadb_ctrl.Go.World.{World, Event, Trace, started, wrote, signalled, cancelled, served}
use mariadb_ctrl.Go.Relations.{Extends}
use mariadb_ctrl.Go.Plain.{IsPlain, IsClosing}
use mariadb_ctrl.Env.{Env}
use mariadb_ctrl.DbHelper.Mysqld.{my_cnf, new_cluster, upgrade_args}
use mariadb_ctrl.Starter.{clustered}

-- an event that does not write the file
abbrev pub IsKept : String → Event → Type 0
IsKept f (wrote g c m e) = g ≢ f
IsKept f _ = Unit

-- A file that was written without an error is there and holds what was written, until it is written
-- again.
pub record Stores (env : Env) (f : String) : Type 0 where
  pub stat :
      (es t : Trace) (c : String) (m : ℕ)
      → All (IsKept f) es
      → env.stat (es ++ wrote f c m none ∷ t) f ≡ true
  pub read :
      (es t : Trace) (c : String) (m : ℕ)
      → All (IsKept f) es
      → env.read_file (es ++ wrote f c m none ∷ t) f ≡ ok c

-- In this trace, the last write to the file is one of CLUSTERED that has succeeded.
pub record Recorded (f : String) (t : Trace) : Type 0 where
  pub later : Trace
  pub earlier : Trace
  pub mode : ℕ
  pub split : t ≡ later ++ wrote f clustered mode none ∷ earlier
  pub kept : All (IsKept f) later

abbrev pub bootstrap_args : List String
bootstrap_args = my_cnf ∷ new_cluster ∷ []

-- an event that is no start of a new cluster and no write
abbrev pub Idle : Event → Type 0
Idle (started exe args r) = args ≢ bootstrap_args
Idle (wrote g c m e) = ⊥
Idle _ = Unit

-- an event that is no start of a new cluster, and no write but one of CLUSTERED to the file
abbrev pub Joins : String → Event → Type 0
Joins f (started exe args r) = args ≢ bootstrap_args
Joins f (wrote g c m e) = (g ≡ f) × (c ≡ clustered)
Joins f _ = Unit

pub Idle-plain : (e : Event) → IsPlain e → Idle e
Idle-plain (started exe args r) h = absurd h
Idle-plain (wrote g c m e) h = h
Idle-plain _ h = tt

pub Joins-plain : (f : String) (e : Event) → IsPlain e → Joins f e
Joins-plain f (started exe args r) h = absurd h
Joins-plain f (wrote g c m e) h = absurd h
Joins-plain f _ h = tt

pub Joins-closing : (f : String) (e : Event) → IsClosing e → Joins f e
Joins-closing f served h = tt
Joins-closing f cancelled h = tt
Joins-closing f (signalled pid signal x) h = tt
Joins-closing f _ h = absurd h

pub Joins-Idle : (f : String) (e : Event) → Idle e → Joins f e
Joins-Idle f (started exe args r) h = h
Joins-Idle f (wrote g c m e) h = absurd h
Joins-Idle f _ h = tt

pub IsKept-Idle : (f : String) (e : Event) → Idle e → IsKept f e
IsKept-Idle f (started exe args r) h = tt
IsKept-Idle f (wrote g c m e) h = absurd h
IsKept-Idle f _ h = tt

-- The two other starts of mysqld are no starts of a new cluster.
pub joining_args : my_cnf ∷ [] ≢ bootstrap_args
joining_args e = cc

pub upgrading_args : upgrade_args ≢ bootstrap_args
upgrading_args e = cc

pub All-map : (P Q : Event → Type 0) (es : Trace) → ((e : Event) → P e → Q e) → All P es → All Q es
All-map P Q [] f h = tt
All-map P Q (e ∷ es) f (p, h) = (f e p, All-map P Q es f h)

-- Idle events leave the record as it is.
pub Recorded-Extends :
    (f : String) (w v : World) → Extends Idle w v → Recorded f w.trace → Recorded f v.trace
Recorded-Extends f w v x h = record {
  later = x.added ++ h.later;
  earlier = h.earlier;
  mode = h.mode;
  split =
      x.grown
      ∙ ap (λ t. x.added ++ t) h.split
      ∙ sym (append_assoc x.added h.later (wrote f clustered h.mode none ∷ h.earlier));
  kept =
      All-append (IsKept f) x.added h.later (All-map Idle (IsKept f) x.added (IsKept-Idle f) x.all)
        h.kept;
}

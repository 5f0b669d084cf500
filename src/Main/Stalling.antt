-- ===== src/Main/Stalling.antt =====
-- start_manager/start_manager.go: what `Execute` does with a state file that is as described, and with
-- one that holds only the beginning of CLUSTERED.
use mariadb_ctrl.Prelude.{
  ℕ, String, ◌≡◌, ◌≢◌, refl, sym, subst, Bool, true, false, [], ◌∷◌, ◌++◌, nat_eq, length,
  if◌then◌else◌, All, arith,
}
use mariadb_ctrl.Go.Error.{ok, err, message}
use mariadb_ctrl.Go.World.{World, Event, Trace, checked, read, started, wrote}
use mariadb_ctrl.Go.Action.{Go, failed, pure, fail, ◌>>=◌, ◌>>◌}
use mariadb_ctrl.Go.Relations.{Extends, Extends-IsPreorder}
use mariadb_ctrl.Go.Safe.{ExtendsOnly, Safe}
use mariadb_ctrl.Go.Plain.{IsPlain}
use mariadb_ctrl.Env.{Env}
use mariadb_ctrl.Env.Files.{File, missing, unreadable, contents}
use mariadb_ctrl.Config.{Config}
use mariadb_ctrl.Text.{trim_space, sprintf}
use mariadb_ctrl.OsHelper.{file_exists, read_file}
use mariadb_ctrl.DbHelper.Mysqld.{upgrade_args}
use mariadb_ctrl.StartManager.{
  first_time_deploy, read_state_from_file, get_current_node_state, write_string, supervise,
}
use mariadb_ctrl.StatusServer.{new_galera_init_status_server}
use mariadb_ctrl.StartManager.NodeState.{recorded}
use mariadb_ctrl.Starter.{clustered, needs_bootstrap, start_node_from_state}
use mariadb_ctrl.Starter.Launching.{launch-other}
use mariadb_ctrl.DbHelper.Operations.{StandAlone}
use mariadb_ctrl.Main.Preparing.{db, checker, starter, upgrader, preparing, prepare_Safe}
use mariadb_ctrl.Main.Deciding.{not_one}
use mariadb_ctrl.Main.Recording.{IsKept, All-map}
use mariadb_ctrl.Main.Tearing.{is_known, Holds, Holds-append}

module _ (env : Env) (cfg : Config) (many : length cfg.manager.cluster_ips ≢ 1) {P : Event → Type 0}
    (plain : (e : Event) → IsPlain e → P e)
    (kept : (e : Event) → P e → IsKept cfg.manager.state_file_location e) where
  abbrev f : String
  f = cfg.manager.state_file_location

  abbrev n : ℕ
  n = length cfg.manager.cluster_ips

  -- what `D` must hold of for the decision on the file to have it
  abbrev pub Decides : (String → Type 0) → File → Type 0
  Decides D (missing e) = D (if cfg.manager.bootstrap_node then needs_bootstrap else clustered)
  Decides D (unreadable e) = Unit
  Decides D (contents s) = D (recorded n (trim_space s))

  abbrev pub IsDecided : (String → Type 0) → World → String → World → Type 0
  IsDecided D w state v = D state × Extends P w v

  more :
      (w v u : World) (es : Trace)
      → Extends P w v
      → u.trace ≡ es ++ v.trace
      → All P es
      → Extends P w u
  more w v u es x e p =
      (Extends-IsPreorder P).transitive w v u x (record { added = es; grown = e; all = p })

  chosen :
      (D : String → Type 0) (w u : World) (b : Bool) (s : String)
      → D (if b then needs_bootstrap else s)
      → Extends P w u
      → Safe (Extends P w) (IsDecided D w) ((if b then pure needs_bootstrap else pure s) u)
  unfolding pure
  chosen D w u true s d x = (d, x)
  chosen D w u false s d x = (d, x)

  IsDecided-at :
      (D : String → Type 0) (w v : World) (file : File)
      → nat_eq n 1 ≡ false
      → Extends P w v
      → Holds env f v.trace file
      → Decides D file
      → Safe (Extends P w) (IsDecided D w) (get_current_node_state env cfg.manager v)
  unfolding get_current_node_state first_time_deploy read_state_from_file file_exists read_file
      ◌>>=◌
  IsDecided-at D w v (missing e) p x h d =
      rw (p, h.stat [] tt) (d, more w v _ (checked f false ∷ []) x refl (plain _ tt, tt))
  IsDecided-at D w v (unreadable e) p x h d =
      rw (p, h.stat [] tt, h.read (checked f true ∷ []) (tt, tt))
        (more w v _ (read f (err e) ∷ checked f true ∷ []) x refl (plain _ tt, (plain _ tt, tt)))
  IsDecided-at D w v (contents s) p x h d =
      rw (p, h.stat [] tt, h.read (checked f true ∷ []) (tt, tt))
        (chosen D w _ _ (trim_space s) d
          (more w v _ (read f (ok s) ∷ checked f true ∷ []) x refl (plain _ tt, (plain _ tt, tt))))

  -- A file that is as described still is, after events that do not write it.
  still_Holds :
      (w v : World) (file : File)
      → Extends P w v
      → Holds env f w.trace file
      → Holds env f v.trace file
  still_Holds w v file x h =
      subst (λ t. Holds env f t file) (sym x.grown)
        (Holds-append env f x.added w.trace file (All-map P (IsKept f) x.added kept x.all) h)

  -- What the preparation of a run decides, when its file is as described.
  pub prepared_Safe :
      (fuel : ℕ) (alone : StandAlone (ExtendsOnly P) (db env cfg fuel)) (D : String → Type 0)
      (w : World) (file : File)
      → Holds env f w.trace file
      → Decides D file
      → Safe (Extends P w) (IsDecided D w) (preparing env cfg fuel w)
  prepared_Safe fuel alone D w file h d =
      prepare_Safe env cfg fuel plain alone w (IsDecided D w)
        λ v x. IsDecided-at D w v file (not_one _ many) x (still_Holds w v file x h) d

-- Nothing is started but the mysqld of an upgrade, and nothing is written.
abbrev pub Stalls : Event → Type 0
Stalls (started exe args r) = (exe ≡ "mysqld") × (args ≡ upgrade_args)
Stalls (wrote g c m e) = ⊥
Stalls _ = Unit

pub Stalls-plain : (e : Event) → IsPlain e → Stalls e
Stalls-plain (started exe args r) h = absurd h
Stalls-plain (wrote g c m e) h = absurd h
Stalls-plain _ h = tt

pub IsKept-Stalls : (f : String) (e : Event) → Stalls e → IsKept f e
IsKept-Stalls f (started exe args r) h = tt
IsKept-Stalls f (wrote g c m e) h = absurd h
IsKept-Stalls f _ h = tt

abbrev pub IsUnknown : String → Type 0
IsUnknown s = is_known s ≡ false

pub unknown_starts :
    (env : Env) (cfg : Config) (fuel : ℕ) (state : String) (v : World)
    → IsUnknown state
    → start_node_from_state env cfg.manager (db env cfg fuel) (checker env cfg fuel) fuel state v
      ≡ failed (message (sprintf "Unsupported state file contents: %s" (state ∷ []))) v
unfolding start_node_from_state ◌>>=◌ fail
unknown_starts env cfg fuel state v h =
    rw
      (launch-other env cfg.manager (db env cfg fuel) (checker env cfg fuel) state (ground arith)
        (ground arith) (ground arith))
      refl

-- `Execute` once the state is known
abbrev pub restarting : Env → Config → ℕ → String → Go Unit
restarting env cfg fuel state = do
  (new_node_state, ch) ←
      start_node_from_state env cfg.manager (db env cfg fuel) (checker env cfg fuel) fuel state
  write_string env cfg.manager new_node_state
  supervise env cfg.manager (db env cfg fuel) (upgrader env cfg fuel) (starter env cfg fuel)
      new_galera_init_status_server ch

-- ===== src/Main/Deciding.antt =====
-- start_manager/start_manager.go: the first half of `Execute` on a node that has recorded CLUSTERED.
use mariadb_ctrl.Prelude.{
  ℕ, String, ◌≡◌, ◌≢◌, refl, sym, subst, true, false, [], ◌∷◌, nat_eq, length, arith,
}
use mariadb_ctrl.Go.Error.{ok}
use mariadb_ctrl.Go.World.{World, Trace, checked, read}
use mariadb_ctrl.Go.Action.{returned, logged, ◌>>=◌}
use mariadb_ctrl.Go.Relations.{Extends, Extends-IsPreorder}
use mariadb_ctrl.Go.Safe.{ExtendsOnly, Safe}
use mariadb_ctrl.Env.{Env}
use mariadb_ctrl.Config.{Config}
use mariadb_ctrl.Text.{trim_space}
use mariadb_ctrl.OsHelper.{file_exists, read_file}
use mariadb_ctrl.DbHelper.Operations.{Others}
use mariadb_ctrl.Starter.{clustered}
use mariadb_ctrl.StartManager.{first_time_deploy, read_state_from_file, get_current_node_state}
use mariadb_ctrl.Main.Extending.{new_db_helper-Extends}
use mariadb_ctrl.Main.Preparing.{db, preparing, prepare_Safe}
use mariadb_ctrl.Main.Recording.{
  Stores, Recorded, Recorded-Extends, Idle, Idle-plain, joining_args, upgrading_args,
}

pub not_one : (n : ℕ) → n ≢ 1 → nat_eq n 1 ≡ false
not_one n h = ground arith

module _ (env : Env) (cfg : Config) (fuel : ℕ) where
  abbrev pub f : String
  f = cfg.manager.state_file_location

  pub Idle-db : Others (ExtendsOnly Idle) (db env cfg fuel)
  Idle-db =
      new_db_helper-Extends Idle-plain env (λ r. upgrading_args) (λ r. joining_args) cfg.db
        cfg.log_file_location

  module _ (stores : Stores env f) (many : length cfg.manager.cluster_ips ≢ 1) where
    Recorded-stat : (t : Trace) → Recorded f t → env.stat t f ≡ true
    Recorded-stat t r =
        subst (λ u. env.stat u f ≡ true) (sym r.split)
          (stores.stat r.later r.earlier clustered r.mode r.kept)

    Recorded-read : (t : Trace) → Recorded f t → env.read_file (checked f true ∷ t) f ≡ ok clustered
    Recorded-read t r =
        subst (λ u. env.read_file (checked f true ∷ u) f ≡ ok clustered) (sym r.split)
          (stores.read (checked f true ∷ r.later) r.earlier clustered r.mode (tt, r.kept))

    state_read :
        (v : World)
        → nat_eq (length cfg.manager.cluster_ips) 1 ≡ false
        → Recorded f v.trace
        → get_current_node_state env cfg.manager v
          ≡ returned clustered (logged (read f (ok clustered)) (logged (checked f true) v))
    unfolding get_current_node_state first_time_deploy read_state_from_file file_exists read_file
        trim_space ◌>>=◌
    state_read v p r = rw (p, Recorded-stat v.trace r, Recorded-read v.trace r) refl

    abbrev pub IsState : World → String → World → Type 0
    IsState w state v = (state ≡ clustered) × Extends Idle w v

    IsState-Safe :
        (w v : World)
        → Recorded f w.trace
        → Extends Idle w v
        → Safe (Extends Idle w) (IsState w) (get_current_node_state env cfg.manager v)
    IsState-Safe w v r x = rw (state_read v (not_one _ many) (Recorded-Extends f w v x r)) (
      refl,
      (Extends-IsPreorder Idle).transitive w v _ x (record {
        added = read f (ok clustered) ∷ checked f true ∷ [];
        grown = refl;
        all = (tt, (tt, tt));
      }),
    )

    pub decide_Safe :
        (w : World)
        → Recorded f w.trace
        → Safe (Extends Idle w) (IsState w) (preparing env cfg fuel w)
    decide_Safe w r =
        prepare_Safe env cfg fuel Idle-plain Idle-db.alone w (IsState w)
          (λ v x. IsState-Safe w v r x)

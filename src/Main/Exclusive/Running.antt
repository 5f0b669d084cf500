-- ===== src/Main/Exclusive/Running.antt =====
-- start_manager/start_manager.go: `Execute` starts mysqld when no mysqld is there.
use mariadb_ctrl.Prelude.{
  ℕ, String, ◌≡◌, refl, Bool, true, false, Option, none, some, [], ◌∷◌, if◌then◌else◌,
}
use mariadb_ctrl.Go.Error.{Error}
use mariadb_ctrl.Go.World.{World, Event, Chan, ran, started, received}
use mariadb_ctrl.Go.Action.{final, pure, ◌>>=◌, ◌>>◌}
use mariadb_ctrl.Go.Logic.{Logic, Logic-restrict}
use mariadb_ctrl.Go.Safe.{ExtendsOnly, ExtendsOnly-Logic, Safe, Safe-bind, final_of_Safe}
use mariadb_ctrl.Env.{Env}
use mariadb_ctrl.Env.Files.{IsRead}
use mariadb_ctrl.Config.{Config}
use mariadb_ctrl.OsHelper.{run_command}
use mariadb_ctrl.DbHelper.Mysqld.{mylogin_cnf, is_process_running, stop_mysqld}
use mariadb_ctrl.DbHelper.Galera.{new_db_helper}
use mariadb_ctrl.DbHelper.Operations.{Passive}
use mariadb_ctrl.Upgrader.{new_upgrader}
use mariadb_ctrl.Upgrader.Versions.{needs_upgrade_call}
use mariadb_ctrl.Starter.{new_starter, start_node_from_state, require_chan, wait_for_database}
use mariadb_ctrl.Starter.Calls.{IsLaunchCall, write_string_call}
use mariadb_ctrl.StartManager.{shutdown, prepare, execute}
use mariadb_ctrl.StartManager.NodeState.{get_current_node_state_call}
use mariadb_ctrl.Main.{execute_configured}
use mariadb_ctrl.Main.Extending.{
  IsQuietCall, new_db_helper-Passive-Extends, wait-for-database-Extends, supervise-Extends,
}
use mariadb_ctrl.Main.Preparing.{db, checker, upgrader, preparing}
use mariadb_ctrl.Main.Stalling.{restarting}
use mariadb_ctrl.Main.Exclusive.{
  unclear, free, Ordered, Follows, Ordered-Follows, Follows-step, IsHeld, NoStart, held_last,
  held_then, Ordered-last, Ordered-then,
}
use mariadb_ctrl.Main.Exclusive.Starting.{upgrade_Safe}
use mariadb_ctrl.Main.Exclusive.Launching.{NoStart-plain, NoStart-closing, launch_Safe}

IsHeld-read : (e : Event) → IsRead e → IsHeld e
IsHeld-read (started exe args r) h = h
IsHeld-read (received ref x) h = h
IsHeld-read _ h = tt

NoStart-quiet : (e : Event) → IsQuietCall e → NoStart e
NoStart-quiet (started exe args r) h = h
NoStart-quiet _ h = tt

NoStart-launch : (e : Event) → IsLaunchCall e → NoStart e
NoStart-launch (started exe args r) h = h
NoStart-launch _ h = tt

reads : Logic (ExtendsOnly IsHeld) IsRead
reads = Logic-restrict ExtendsOnly-Logic IsHeld-read

module _ (env : Env) (cfg : Config) (fuel : ℕ) (w : World) where
  abbrev I : World → Type 0
  I v = Ordered w v

  abbrev Free : {A : Type 0} → A → World → Type 0
  Free a v = Follows w free v

  abbrev InOrder : {A : Type 0} → A → World → Type 0
  InOrder a v = Ordered w v

  beginning : Follows w unclear w
  beginning = record { added = []; grown = refl; orderly = tt; now = refl }

  -- what `mysqladmin status` has shown
  abbrev Status : Bool → World → Type 0
  Status running v = Follows w (if running then unclear else free) v

  Status-cases :
      (a : String × Option Error)
      → env.combined_output w.trace "mysqladmin" (mylogin_cnf ∷ "status" ∷ []) ≡ a
      → Safe I Status (is_process_running env w)
  unfolding is_process_running run_command ◌>>=◌
  Status-cases (out, none) p = rw p (
      Follows-step w unclear w _ (ran "mysqladmin" (mylogin_cnf ∷ "status" ∷ []) out none) unclear
        refl beginning tt refl)
  Status-cases (out, some e) p = rw p (
      Follows-step w unclear w _ (ran "mysqladmin" (mylogin_cnf ∷ "status" ∷ []) out (some e)) free
        refl beginning tt refl)

  stop_cases :
      (u : World) (a : String × Option Error)
      → env.combined_output u.trace "mysqladmin" (mylogin_cnf ∷ "shutdown" ∷ []) ≡ a
      → Follows w unclear u
      → Safe I Free (stop_mysqld env u)
  unfolding stop_mysqld run_command ◌>>=◌
  stop_cases u (out, none) p h = rw p (
      Follows-step w unclear u _ (ran "mysqladmin" (mylogin_cnf ∷ "shutdown" ∷ []) out none) free
        refl h tt refl)
  stop_cases u (out, some e) p h = rw p (
      Ordered-Follows w unclear _ (
        Follows-step w unclear u _ (ran "mysqladmin" (mylogin_cnf ∷ "shutdown" ∷ []) out (some e))
          unclear refl h tt refl))

  stopped_Safe :
      (running : Bool) (u : World)
      → Status running u
      → Safe I Free ((if running then stop_mysqld env else pure tt) u)
  unfolding pure
  stopped_Safe true u h = stop_cases u _ refl h
  stopped_Safe false u h = h

  upgraded_Safe :
      (needed : Bool) (u : World)
      → Follows w free u
      → Safe I Free ((if needed then (upgrader env cfg fuel).upgrade else pure tt) u)
  unfolding pure new_upgrader
  upgraded_Safe true u h = upgrade_Safe env w cfg u h
  upgraded_Safe false u h = h

  prepared_Safe : Safe I Free (preparing env cfg fuel w)
  unfolding prepare shutdown new_upgrader new_db_helper
  prepared_Safe = Safe-bind I Status Free _ _ w (Status-cases _ refl) λ running w1 h1.
      Safe-bind I Free Free _ _ w1 (stopped_Safe running w1 h1) λ _ w2 h2.
        held_then w free Free _ _ tt (needs_upgrade_call reads env cfg.upgrader) w2 h2
          λ needed w3 h3. Safe-bind I Free Free _ _ w3 (upgraded_Safe needed w3 h3) λ _ w4 h4.
            held_last w free _ tt (get_current_node_state_call reads env cfg.manager) w4 h4

  passive : Passive (ExtendsOnly NoStart) (db env cfg fuel)
  passive = new_db_helper-Passive-Extends NoStart-quiet env cfg.db cfg.log_file_location

  -- what `StartNodeFromState` does once mysqld is launched
  after_launch_Safe :
      (r : String × Option Chan) (u : World)
      → Ordered w u
      → Safe {A = String × Chan} I InOrder (
          (do
            ch ← require_chan r.1
            wait_for_database env cfg.manager (db env cfg fuel) (checker env cfg fuel) fuel ch
            (db env cfg fuel).seed
            (db env cfg fuel).seed_users
            (db env cfg fuel).run_post_start_sql
            pure (r.0, ch))
            u)
  unfolding ◌>>=◌
  after_launch_Safe (n, none) u h = h
  after_launch_Safe (n, some ch) u h =
      Ordered-then w InOrder _ _
        (wait-for-database-Extends NoStart-plain env (db env cfg fuel) passive cfg.manager
          (checker env cfg fuel) fuel ch)
        u h
        λ _ u1 h1. Ordered-then w InOrder _ _ passive.seed u1 h1 λ _ u2 h2.
          Ordered-then w InOrder _ _ passive.seed_users u2 h2 λ _ u3 h3.
            Ordered-then w InOrder (db env cfg fuel).run_post_start_sql _ passive.run_post_start_sql
              u3 h3 (λ _ u4 h4. h4)

  unstarted : Logic (ExtendsOnly NoStart) IsLaunchCall
  unstarted = Logic-restrict ExtendsOnly-Logic NoStart-launch

  restarting_Safe :
      (state : String) (u : World)
      → Follows w free u
      → Safe I InOrder (restarting env cfg fuel state u)
  unfolding start_node_from_state
  restarting_Safe state u h =
      Safe-bind I InOrder InOrder _ _ u
        (Safe-bind I InOrder InOrder _ _ u (launch_Safe env cfg fuel w state u h) after_launch_Safe)
        λ r v k.
          Ordered-then w InOrder _ _ (write_string_call unstarted env cfg.manager r.0) v k
            λ _ v1 k1.
              Ordered-last w _
                (supervise-Extends NoStart-plain env (db env cfg fuel) passive cfg.manager
                  (checker env cfg fuel) NoStart-closing (upgrader env cfg fuel) fuel r.1)
                v1 k1

  -- One mysqld at a time. However a run of `Execute` ends, each start of mysqld that succeeds in it, for
  -- the upgrade, as a new cluster or to join, is made when no mysqld is there: at the beginning of the run
  -- `mysqladmin status` has failed, or else `mysqladmin shutdown` has succeeded; and if the run has
  -- started a mysqld before, an exit has been received since.
  pub execute_configured-Ordered : Ordered w (final (execute_configured env cfg fuel w))
  unfolding execute_configured execute new_starter
  execute_configured-Ordered = final_of_Safe I _ (
      Safe-bind I Free InOrder (preparing env cfg fuel) (restarting env cfg fuel) w prepared_Safe
        restarting_Safe)

-- ===== src/Main/Ending.antt =====
-- cmd/start/main.go: the ways in which the program ends.
use mariadb_ctrl.Prelude.{ℕ, String, List, ◌≡◌, refl, Option, none, some, ◌∷◌}
use mariadb_ctrl.Go.Error.{
  exited, signaled, exit_error, no_rows, message, wrapped, Error, Result, ok, err,
}
use mariadb_ctrl.Go.World.{World, opened_log, listened}
use mariadb_ctrl.Go.Action.{
  Outcome, returned, failed, panicked, blocked, pure, ◌>>=◌, attempt, fatal_if,
}
use mariadb_ctrl.Go.Total.{Total, Total-bind, IsSound}
use mariadb_ctrl.Go.Quiet.{ProcessesEnd}
use mariadb_ctrl.Env.{Env}
use mariadb_ctrl.Config.{Config, DbHelperConfig}
use mariadb_ctrl.OsHelper.{start_command}
use mariadb_ctrl.DbHelper.Mysqld.{
  start_mysqld_in_join, start_mysqld_in_bootstrap, start_mysqld_as_child_process,
}
use mariadb_ctrl.Starter.Running.{Launches}
use mariadb_ctrl.Config.Validate.{Fields, ErrorMap, validate}
use mariadb_ctrl.ClusterHealth.{new_cluster_health_checker}
use mariadb_ctrl.ClusterHealth.Probing.{any_healthy-Quiet}
use mariadb_ctrl.DbHelper.Confined.{new_db_helper-IsQuiet}
use mariadb_ctrl.DbHelper.Reachable.{is_database_reachable-Answers}
use mariadb_ctrl.DbHelper.Galera.{new_db_helper}
use mariadb_ctrl.Starter.Settling.{IsStarted, Settles}
use mariadb_ctrl.StartManager.Supervision.{Wakes}
use mariadb_ctrl.StartManager.Ending.{Executed, execute-Total}
use mariadb_ctrl.Main.{exit_status, db_helper, execute_configured, manager_setup, after_setup, main}

-- The status of an error: that of the process for its exit error, the signal when a signal has ended
-- it, and 1 for any other error.
abbrev pub IsStatusOf : Error → ℕ → Type 0
IsStatusOf (exit_error (exited status)) n = n ≡ status
IsStatusOf (exit_error (signaled signal)) n = n ≡ signal
IsStatusOf _ n = n ≡ 1

-- From `w` to `v`, a run of `Execute` of the manager that `managerSetup` builds has returned nil.
abbrev pub HasExecuted : Env → Config → ℕ → World → World → Type 0
HasExecuted env cfg fuel w v =
    Executed env cfg.manager (db_helper env cfg fuel)
      (new_cluster_health_checker env cfg.manager.cluster_ips cfg.manager.cluster_probe_timeout)
      cfg.upgrader fuel w v

-- How the program, from `w` on, ends with a status.
pub data Finished (env : Env) (cfg : Config) (fuel : ℕ) (w : World) : ℕ → World → Type 0 where
  -- `managerSetup` has failed
  not_set_up :
      {v : World} (e : Error)
      → v.trace ≡ listened cfg.manager.galera_init_status_server_address (some e) ∷ w.trace
      → Finished env cfg fuel w 1 v
  -- `Execute` has returned nil
  executed :
      (u v : World)
      → u.trace ≡ listened cfg.manager.galera_init_status_server_address none ∷ w.trace
      → HasExecuted env cfg fuel u v
      → Finished env cfg fuel w 0 v
  -- `Execute` has returned an error
  not_executed :
      (u v : World) (e : Error) {status : ℕ}
      → u.trace ≡ listened cfg.manager.galera_init_status_server_address none ∷ w.trace
      → execute_configured env cfg fuel u ≡ failed e v
      → IsStatusOf e status
      → Finished env cfg fuel w status v

status_is : (e : Error) → IsStatusOf e (exit_status (err e))
unfolding exit_status
status_is (exit_error (exited status)) = refl
status_is (exit_error (signaled signal)) = refl
status_is no_rows = refl
status_is (message m) = refl
status_is (wrapped m args e) = refl

module _ (env : Env) (config : DbHelperConfig) (log : String) where
  start_cases :
      (exe : String) (args : List String) (w : World) (o : Option Error) (r : Result ℕ)
      → env.open_log w.trace log ≡ o
      → env.start (opened_log log o ∷ w.trace) exe args ≡ r
      → Total IsStarted (start_command env log exe args w)
  unfolding start_command ◌>>=◌
  start_cases exe args w (some e) r p q = rw p tt
  start_cases exe args w none (err e) p q = rw (p, q) tt
  start_cases exe args w none (ok pid) p q =
      rw (p, q)
        (record {
          pid = pid;
          process = refl;
          earlier = opened_log log none ∷ w.trace;
          newest = refl;
        })

  -- The starts of mysqld of the helper start the command that they return.
  pub new_db_helper-Launches : Launches (new_db_helper env config log)
  unfolding new_db_helper start_mysqld_in_join start_mysqld_in_bootstrap
      start_mysqld_as_child_process
  new_db_helper-Launches =
      (λ w. start_cases _ _ w _ _ refl refl, λ w. start_cases _ _ w _ _ refl refl)

module _ (env : Env) (cfg : Config) (fuel : ℕ) (exits : ProcessesEnd env) (wakes : Wakes env)
    (settles : Settles env (db_helper env cfg fuel) fuel) where
  -- From a world in which only channels that exist have been received from, `Execute` comes to an end
  -- when every process does, the exit of mysqld or the end of the context wakes it, and within the fuel's
  -- rounds of polling from the start of a mysqld on, it has exited or is reachable. It returns nil only
  -- when it has decided on a node state, has started the node from that state, has written the state that
  -- follows, and the mysqld of that node has then exited without an error, by itself or after SIGTERM.
  pub execute_configured-Total :
      (w : World)
      → IsSound w
      → Total (λ _ v. HasExecuted env cfg fuel w v) (execute_configured env cfg fuel w)
  unfolding execute_configured new_db_helper
  execute_configured-Total w h =
      execute-Total env cfg.manager (new_db_helper env cfg.db cfg.log_file_location)
        (new_db_helper-IsQuiet env cfg.db cfg.log_file_location)
        (new_db_helper-Launches env cfg.db cfg.log_file_location)
        (new_cluster_health_checker env cfg.manager.cluster_ips cfg.manager.cluster_probe_timeout)
        (any_healthy-Quiet cfg.manager.cluster_probe_timeout env cfg.manager.cluster_ips) exits
        wakes fuel (is_database_reachable-Answers env cfg.db) settles cfg.upgrader w h

  caught_cases :
      (w u : World) (o : Outcome Unit)
      → u.trace ≡ listened cfg.manager.galera_init_status_server_address none ∷ w.trace
      → execute_configured env cfg fuel u ≡ o
      → Total (λ _ v. HasExecuted env cfg fuel u v) o
      → Total
          (Finished env cfg fuel w)
          ((do r ← attempt (execute_configured env cfg fuel); pure (exit_status r)) u)
  unfolding ◌>>=◌ exit_status
  caught_cases w u (returned a v) q p h = rw p (executed u v q h)
  caught_cases w u (failed e v) q p h = rw p (not_executed u v e q p (status_is e))
  caught_cases w u (panicked e v) q p h = rw p tt
  caught_cases w u (blocked v) q p h = absurd h

  -- what is known after `managerSetup`
  abbrev SetUp : World → Result (Unit {0}) → World → Type 0
  SetUp w (err e) v =
      v.trace ≡ listened cfg.manager.galera_init_status_server_address (some e) ∷ w.trace
  SetUp w (ok _) v =
      IsSound v × (v.trace ≡ listened cfg.manager.galera_init_status_server_address none ∷ w.trace)

  setup_cases :
      (w : World) (r : Option Error)
      → env.listen w.trace cfg.manager.galera_init_status_server_address ≡ r
      → IsSound w
      → Total (SetUp w) (attempt (manager_setup env cfg fuel) w)
  unfolding manager_setup ◌>>=◌
  setup_cases w none p h = rw p (h, refl)
  setup_cases w (some e) p h = rw p refl

  setup_then :
      (w : World) (r : Result Unit) (u : World)
      → SetUp w r u
      → Total (Finished env cfg fuel w) (after_setup env cfg fuel r u)
  unfolding pure
  setup_then w (err e) u h = not_set_up e h
  setup_then w (ok _) u (h, q) = caught_cases w u _ q refl (execute_configured-Total u h)

  setting_up :
      (w : World)
      → IsSound w
      → Total
          (Finished env cfg fuel w)
          ((do r ← attempt (manager_setup env cfg fuel); after_setup env cfg fuel r) w)
  setting_up w h =
      Total-bind (SetUp w) (Finished env cfg fuel w) _ _ w (setup_cases w _ refl h) (setup_then w)

  main_cases :
      (validator : Fields → ErrorMap) (config_error invalid : Option Error) (w : World)
      → validate validator cfg ≡ invalid
      → IsSound w
      → Total (Finished env cfg fuel w) (main env cfg fuel validator config_error w)
  unfolding main fatal_if ◌>>=◌
  main_cases validator (some e) invalid w p h = tt
  main_cases validator none (some e) w p h = rw p tt
  main_cases validator none none w p h = rw p (setting_up w h)

  -- The program comes to an end under the conditions of `execute_configured-Total`: every process ends,
  -- the exit of mysqld or the end of the context wakes the program, within the fuel's rounds of polling
  -- from the start of a mysqld on it has exited or is reachable, and only channels that exist have been
  -- received from. It panics, or it exits: with 1 when it cannot listen; else `Execute` has run right
  -- after it has listened, and it exits with 0 when `Execute` has returned nil, which has then decided on
  -- a node state, started the node, recorded the state that follows and seen its mysqld off, and with the
  -- status of its error when `Execute` has returned one.
  pub main-Total :
      (validator : Fields → ErrorMap) (config_error : Option Error) (w : World)
      → IsSound w
      → Total (Finished env cfg fuel w) (main env cfg fuel validator config_error w)
  main-Total validator config_error w h = main_cases validator config_error _ w refl h

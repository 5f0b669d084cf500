-- ===== src/Main.antt =====
-- cmd/start/main.go: the parts put together, and the exit status. A panic ends a Go process with
-- the status 2. The handler of SIGTERM cancels the context, which the environment decides.
pub mod Ending
pub mod Extending
pub mod Recording
pub mod Preparing
pub mod Probed
pub mod Renewing
pub mod Choosing
pub mod Deciding
pub mod Rejoining
pub mod Growing
pub mod Restarting
pub mod Configuring
pub mod Remembering
pub mod Deploying
pub mod Statuses
pub mod Tearing
pub mod Stalling
pub mod Crashing
pub mod Exclusive
pub mod Signalling
use mariadb_ctrl.Prelude.{ℕ, String, List, Option}
use mariadb_ctrl.Go.Error.{exited, signaled, Error, message, exit_error, Result, ok, err}
use mariadb_ctrl.Go.World.{listened}
use mariadb_ctrl.Go.Action.{Go, pure, panic, ◌>>=◌, ◌>>◌, attempt, call, check, fatal_if}
use mariadb_ctrl.Env.{Env}
use mariadb_ctrl.Config.{Config}
use mariadb_ctrl.Config.Reading.{ServiceConfig, Loaded, out_of_range, exits, loaded, new_config}
use mariadb_ctrl.Config.Validate.{Fields, ErrorMap, validate}
use mariadb_ctrl.ClusterHealth.{new_cluster_health_checker}
use mariadb_ctrl.DbHelper.{DbHelper}
use mariadb_ctrl.DbHelper.Galera.{new_db_helper}
use mariadb_ctrl.Upgrader.{Upgrader, new_upgrader}
use mariadb_ctrl.StatusServer.{new_galera_init_status_server}
use mariadb_ctrl.Starter.{Starter, new_starter}
use mariadb_ctrl.StartManager.{new_start_manager}

-- `err.(*exec.ExitError)` and the status of its process; any other error gives 1
unfoldable pub exit_status : Result (Unit {0}) → ℕ
exit_status (ok _) = 0
exit_status (err (exit_error (signaled signal))) = signal
exit_status (err (exit_error (exited status))) = status
exit_status (err e) = 1

module _ (env : Env) (cfg : Config) (fuel : ℕ) where
  abbrev pub db_helper : DbHelper
  db_helper = new_db_helper env cfg.db cfg.log_file_location

  abbrev pub upgrader : Upgrader
  upgrader = new_upgrader env cfg.upgrader db_helper

  abbrev pub node_starter : Starter
  node_starter =
      new_starter env cfg.manager db_helper
        (new_cluster_health_checker env cfg.manager.cluster_ips cfg.manager.cluster_probe_timeout)
        fuel

  -- `startManager.Execute` of the manager that `managerSetup` builds
  unfoldable pub execute_configured : Go Unit
  execute_configured =
      (new_start_manager env cfg.manager db_helper upgrader node_starter
        new_galera_init_status_server).execute

  -- `net.Listen` of `managerSetup`
  unfoldable pub manager_setup : Go Unit
  manager_setup = do
    let address = cfg.manager.galera_init_status_server_address
    e ← call (λ t. env.listen t address) (listened address)
    check e

  abbrev after_setup : Result (Unit {0}) → Go ℕ
  after_setup (err e) = pure 1
  after_setup (ok _) = do r ← attempt execute_configured; pure (exit_status r)

  -- `main` after `NewConfig`, whose error comes in: the exit status
  unfoldable pub main : (Fields → ErrorMap) → Option Error → Go ℕ
  main validator config_error = do
    fatal_if config_error
    fatal_if (validate validator cfg)
    r ← attempt manager_setup
    after_setup r

-- `osArgs[0]` of an empty slice
abbrev pub index_out_of_range : Error
index_out_of_range = message "runtime error: index out of range"

module _ (env : Env) (fuel : ℕ) (validator : Fields → ErrorMap) where
  -- `main` from the end of `NewConfig` on
  abbrev pub main_loaded : Loaded → Go ℕ
  main_loaded out_of_range = panic index_out_of_range
  main_loaded (exits status) = pure status
  main_loaded (loaded cfg config_error) = main env cfg fuel validator config_error

  -- `main`, of the arguments of the process: the exit status
  unfoldable pub program : {Parsed : Type 0} → ServiceConfig Parsed → List String → Go ℕ
  unfolding new_config
  program library os_args = main_loaded (new_config library os_args)

-- ===== src/Starter.antt =====
-- start_manager/node_starter/starter.go
pub mod Grastate
pub mod Waiting
pub mod Settling
pub mod Launching
pub mod Running
pub mod Calls
use mariadb_ctrl.Prelude.{
  ℕ, zero, suc, ◌*◌, String, ◌==◌, [], ◌∷◌, Option, none, some, if◌then◌else◌,
}
use mariadb_ctrl.Go.Error.{Error, Result, ok, err, message}
use mariadb_ctrl.Go.World.{Cmd, Chan}
use mariadb_ctrl.Go.Action.{Go, returned, blocked, pure, fail, ◌>>=◌, ◌>>◌, attempt}
use mariadb_ctrl.Go.Channel.{poll}
use mariadb_ctrl.Env.{Env}
use mariadb_ctrl.Config.{StartManagerConfig}
use mariadb_ctrl.Text.{sprintf, replace_all}
use mariadb_ctrl.OsHelper.{second, wait_for_command, sleep, read_file, write_file}
use mariadb_ctrl.ClusterHealth.{ClusterHealthChecker}
use mariadb_ctrl.DbHelper.{DbHelper}

-- the interface `Starter`
pub record Starter : Type 0 where
  pub start_node_from_state : String → Go (String × Chan)
  pub get_mysql_cmd : Go (Option Cmd)

abbrev pub clustered : String
clustered = "CLUSTERED"

abbrev pub needs_bootstrap : String
needs_bootstrap = "NEEDS_BOOTSTRAP"

abbrev pub single_node : String
single_node = "SINGLE_NODE"

abbrev pub startup_polling_frequency_in_seconds : ℕ
startup_polling_frequency_in_seconds = 5

abbrev pub unsafe_flag : String
unsafe_flag = "safe_to_bootstrap: 0"

abbrev pub safe_flag : String
safe_flag = "safe_to_bootstrap: 1"

-- the field `mysqlCmd` of the starter
unfoldable pub set_mysql_cmd : Cmd → Go Unit
set_mysql_cmd cmd w = returned tt (record w { mysql_cmd = some cmd })

unfoldable pub get_mysql_cmd : Go (Option Cmd)
get_mysql_cmd w = returned w.mysql_cmd w

abbrev pub mysqld_exited : Error
mysqld_exited =
    message "Mysqld exited with error; aborting. Review the mysqld error logs for more information."

-- `if mysqldChan == nil`
abbrev pub require_chan : Option Chan → Go Chan
require_chan none = fail (message "Starting mysql failed, no channel created - exiting")
require_chan (some ch) = pure ch

module _ (env : Env) (config : StartManagerConfig) (db : DbHelper)
    (checker : ClusterHealthChecker) where
  abbrev pub update_grastate : Result String → Go Unit
  update_grastate (err e) = pure tt
  update_grastate (ok text) =
      write_file env config.grastate_file_location (replace_all text unsafe_flag safe_flag) 0o777

  unfoldable pub bootstrap_node : Go (Option Chan)
  unfolding set_mysql_cmd
  bootstrap_node = do
    text ← attempt (read_file env config.grastate_file_location)
    update_grastate text
    cmd ← db.start_mysqld_in_bootstrap
    set_mysql_cmd cmd
    ch ← wait_for_command cmd
    pure (some ch)

  unfoldable pub join_cluster : Go (Option Chan)
  unfolding set_mysql_cmd
  join_cluster = do
    cmd ← db.start_mysqld_in_join
    set_mysql_cmd cmd
    ch ← wait_for_command cmd
    pure (some ch)

  -- the loop of `waitForDatabaseToAcceptConnections`; without fuel it has not ended
  unfoldable pub wait_for_database : ℕ → Chan → Go Unit
  wait_for_database zero ch = λ w. blocked w
  wait_for_database (suc fuel) ch =
      let go_on = do
        reachable ← db.is_database_reachable
        let again = do
          sleep (startup_polling_frequency_in_seconds * second)
          wait_for_database fuel ch
        if reachable then pure tt else again
      in do exited ← poll env ch; if exited then fail mysqld_exited else go_on

  -- the `switch` of `StartNodeFromState`: the new state and the channel
  unfoldable pub launch : String → Go (String × Option Chan)
  launch state =
      if state == single_node
      then (do ch ← bootstrap_node; pure (single_node, ch))
      else if state == needs_bootstrap
      then (do
        healthy ← checker.healthy_cluster
        ch ← if healthy then join_cluster else bootstrap_node
        pure (clustered, ch))
      else if state == clustered
      then (do ch ← join_cluster; pure (clustered, ch))
      else fail (message (sprintf "Unsupported state file contents: %s" (state ∷ [])))

  -- `seedDatabases`, `seedUsers` and `runPostStartSQL`, which add log lines
  abbrev seed_databases : Go Unit
  seed_databases = db.seed

  abbrev seed_users : Go Unit
  seed_users = db.seed_users

  abbrev run_post_start_sql : Go Unit
  run_post_start_sql = db.run_post_start_sql

  unfoldable pub start_node_from_state : ℕ → String → Go (String × Chan)
  start_node_from_state fuel state = do
    (new_node_state, mysqld_chan) ← launch state
    ch ← require_chan mysqld_chan
    wait_for_database fuel ch
    seed_databases
    seed_users
    run_post_start_sql
    pure (new_node_state, ch)

-- `NewStarter`
unfoldable pub new_starter :
    Env → StartManagerConfig → DbHelper → ClusterHealthChecker → ℕ → Starter
new_starter env config db checker fuel = record {
  start_node_from_state = start_node_from_state env config db checker fuel;
  get_mysql_cmd = get_mysql_cmd;
}

-- ===== src/DbHelper/Mysqld.antt =====
-- db_helper/db_helper.go: starting, stopping, upgrading and probing mysqld.
use mariadb_ctrl.Prelude.{
  String, ◌==◌, Bool, true, false, List, [], ◌∷◌, Option, none, some, if◌then◌else◌,
}
use mariadb_ctrl.Go.Error.{Error, Result, ok, err, no_rows, wrapped}
use mariadb_ctrl.Go.World.{Cmd}
use mariadb_ctrl.Go.Action.{Go, pure, fail, fatal_if, ◌>>=◌, attempt}
use mariadb_ctrl.Env.{Env}
use mariadb_ctrl.Config.{DbHelperConfig}
use mariadb_ctrl.OsHelper.{run_command, start_command}
use mariadb_ctrl.DbHelper.Sql.{with_connection, query_row}

abbrev pub my_cnf : String
my_cnf = "--defaults-file=/var/vcap/jobs/pxc-mysql/config/my.cnf"

abbrev pub mylogin_cnf : String
mylogin_cnf = "--defaults-file=/var/vcap/jobs/pxc-mysql/config/mylogin.cnf"

abbrev pub new_cluster : String
new_cluster = "--wsrep-new-cluster"

abbrev pub upgrade_args : List String
upgrade_args =
    my_cnf ∷ "--wsrep-on=OFF" ∷ "--wsrep-desync=ON" ∷ "--wsrep-OSU-method=RSU"
    ∷ "--wsrep-provider=none" ∷ "--skip-networking" ∷ []

abbrev pub provider_query : String
provider_query = "SHOW GLOBAL VARIABLES LIKE 'wsrep\\_provider'"

abbrev pub state_query : String
state_query = "SHOW GLOBAL STATUS LIKE 'wsrep\\_local\\_state\\_comment'"

abbrev pub is_nil : Option Error → Bool
is_nil none = true
is_nil (some e) = false

-- a start that fails with `errors.Wrap(err, msg)`
abbrev pub wrapping : String → Result Cmd → Go Cmd
wrapping msg (ok cmd) = pure cmd
wrapping msg (err e) = fail (wrapped msg [] e)

abbrev pub is_synced : Result (String × String) → Bool
is_synced (ok (unused, value)) = value == "Synced"
is_synced (err e) = false

module _ (env : Env) where
  unfoldable pub is_process_running : Go Bool
  is_process_running = do
    r ← run_command env "mysqladmin" (mylogin_cnf ∷ "status" ∷ [])
    pure (is_nil r.1)

  unfoldable pub stop_mysqld : Go Unit
  stop_mysqld = do r ← run_command env "mysqladmin" (mylogin_cnf ∷ "shutdown" ∷ []); fatal_if r.1

  unfoldable pub start_mysqld_for_upgrade : String → Go Cmd
  start_mysqld_for_upgrade log_file = do
    r ← attempt (start_command env log_file "mysqld" upgrade_args)
    wrapping "Error starting mysqld in stand-alone" r

  unfoldable pub start_mysqld_as_child_process : String → List String → Go Cmd
  start_mysqld_as_child_process log_file args = start_command env log_file "mysqld" args

  unfoldable pub start_mysqld_in_join : String → Go Cmd
  unfolding start_mysqld_as_child_process
  start_mysqld_in_join log_file = start_mysqld_as_child_process log_file (my_cnf ∷ [])

  unfoldable pub start_mysqld_in_bootstrap : String → Go Cmd
  unfolding start_mysqld_as_child_process
  start_mysqld_in_bootstrap log_file =
      start_mysqld_as_child_process log_file (my_cnf ∷ new_cluster ∷ [])

  unfoldable pub upgrade : DbHelperConfig → Go (String × Option Error)
  upgrade config = run_command env config.upgrade_path (mylogin_cnf ∷ [])

  abbrev pub galera_state : Go Bool
  galera_state = do r ← query_row env state_query; pure (is_synced r)

  -- what the answer about the provider leads to
  abbrev pub by_provider : Result (String × String) → Go Bool
  by_provider (err no_rows) = pure true
  by_provider (err e) = pure false
  by_provider (ok (unused, value)) = if value == "none" then pure true else galera_state

  unfoldable pub reachable_over : Go Bool
  reachable_over = do r ← query_row env provider_query; by_provider r

  -- an error of the opening is dropped
  abbrev pub or_false : Result Bool → Go Bool
  or_false (ok b) = pure b
  or_false (err e) = pure false

  unfoldable pub is_database_reachable : DbHelperConfig → Go Bool
  unfolding reachable_over with_connection
  is_database_reachable config = do
    r ← attempt (with_connection env config reachable_over)
    or_false r

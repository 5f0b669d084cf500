-- ===== src/Tests/Runs.antt =====
-- Tests of the text functions, and runs of the program in a sample environment.
use mariadb_ctrl.Prelude.{ℕ, ◌≡◌, refl, true, [], ◌∷◌, Option, none, some}
use mariadb_ctrl.Text.{trim_space, matches_any, replace_all, sprintf, decimal}
use mariadb_ctrl.Tests.{calm, sample, fresh}
use mariadb_ctrl.Go.Action.{Outcome, returned, failed, panicked, blocked, ◌>>=◌}
use mariadb_ctrl.Config.Validate.{validate}
use mariadb_ctrl.Main.{main, manager_setup, execute_configured, exit_status}
use mariadb_ctrl.StartManager.{
  execute, prepare, shutdown, get_current_node_state, write_string, supervise,
}
use mariadb_ctrl.DbHelper.Galera.{new_db_helper}
use mariadb_ctrl.DbHelper.Mysqld.{
  is_process_running, stop_mysqld, start_mysqld_in_bootstrap, is_database_reachable,
}
use mariadb_ctrl.OsHelper.{run_command, start_command, wait_for_command, kill_command}
use mariadb_ctrl.Upgrader.{acceptable_errors, new_upgrader, needs_upgrade}
use mariadb_ctrl.Starter.{
  new_starter, start_node_from_state, launch, bootstrap_node, wait_for_database, get_mysql_cmd,
}
use mariadb_ctrl.ClusterHealth.{any_healthy}
use mariadb_ctrl.Go.Channel.{poll, receive_or_done, receive}
use mariadb_ctrl.DbHelper.Sql.{query_row, exec, query_any}
use mariadb_ctrl.DbHelper.Seeding.{seed, seed_users, run_post_start_sql}
use mariadb_ctrl.DbHelper.Seeder.{
  create_db_if_needed, is_existing_user, create_user, grant_user_privileges,
}
use mariadb_ctrl.DbHelper.UserSeeder.{seed_user}
use mariadb_ctrl.StatusServer.{start}

trims : trim_space "\n CLUSTERED \n" ≡ "CLUSTERED"
unfolding trim_space
trims = refl

replaces :
    replace_all "a safe_to_bootstrap: 0\nb" "safe_to_bootstrap: 0" "safe_to_bootstrap: 1"
    ≡ "a safe_to_bootstrap: 1\nb"
unfolding replace_all
replaces = refl

formats :
    sprintf "GRANT ALL ON `%s`.* TO '%s'@'%%'" ("db" ∷ "me" ∷ [])
    ≡ "GRANT ALL ON `db`.* TO 'me'@'%'"
unfolding sprintf
formats = refl

counts : decimal 1203 ≡ "1203"
unfolding decimal
counts = refl

accepts : matches_any acceptable_errors "It was already upgraded to 5.7" ≡ true
unfolding matches_any
accepts = refl

abbrev ended : Outcome ℕ → Option ℕ
ended (returned s _) = some s
ended (failed _ _) = none
ended (panicked _ _) = some 2
ended (blocked _) = none

abbrev run : Outcome ℕ
run = main calm sample 9 (λ _. []) none fresh

-- The sample run ends with the status 0.
run_ended : ended run ≡ some 0
unfolding main ◌>>=◌ validate manager_setup execute_configured execute prepare new_db_helper
    is_process_running run_command shutdown stop_mysqld new_upgrader needs_upgrade
    get_current_node_state new_starter start_node_from_state launch any_healthy bootstrap_node
    start_mysqld_in_bootstrap start_command wait_for_command wait_for_database poll
    is_database_reachable query_row seed create_db_if_needed exec is_existing_user query_any
    create_user grant_user_privileges seed_users seed_user run_post_start_sql write_string supervise
    start receive_or_done get_mysql_cmd kill_command receive exit_status
run_ended = refl

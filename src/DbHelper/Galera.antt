-- ===== src/DbHelper/Galera.antt =====
-- `NewDBHelper` of db_helper/db_helper.go: `GaleraDBHelper` behind the interface.
use mariadb_ctrl.Prelude.{String}
use mariadb_ctrl.Env.{Env}
use mariadb_ctrl.Config.{DbHelperConfig}
use mariadb_ctrl.DbHelper.{DbHelper}
use mariadb_ctrl.DbHelper.Mysqld
use mariadb_ctrl.DbHelper.Seeding

unfoldable pub new_db_helper : Env → DbHelperConfig → String → DbHelper
new_db_helper env config log_file = record {
  start_mysqld_for_upgrade = Mysqld.start_mysqld_for_upgrade env log_file;
  start_mysqld_in_join = Mysqld.start_mysqld_in_join env log_file;
  start_mysqld_in_bootstrap = Mysqld.start_mysqld_in_bootstrap env log_file;
  stop_mysqld = Mysqld.stop_mysqld env;
  upgrade = Mysqld.upgrade env config;
  is_database_reachable = Mysqld.is_database_reachable env config;
  is_process_running = Mysqld.is_process_running env;
  seed = Seeding.seed env config;
  seed_users = Seeding.seed_users env config;
  run_post_start_sql = Seeding.run_post_start_sql env config;
}

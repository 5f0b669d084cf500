-- ===== src/Fakes/Lawful.antt =====
-- The fields of every method of every fake are fields of their own, which recording an invocation
-- leaves alone.
use mariadb_ctrl.Prelude.{refl}
use mariadb_ctrl.Fakes.History.{IsLawful}
use mariadb_ctrl.Fakes.ClusterHealthChecker as ClusterHealthChecker
use mariadb_ctrl.Fakes.DbHelper as DbHelper
use mariadb_ctrl.Fakes.OsHelper as OsHelper
use mariadb_ctrl.Fakes.Seeder as Seeder
use mariadb_ctrl.Fakes.ServiceStatus as ServiceStatus
use mariadb_ctrl.Fakes.StartManager as StartManager
use mariadb_ctrl.Fakes.Starter as Starter
use mariadb_ctrl.Fakes.Upgrader as Upgrader
use mariadb_ctrl.Fakes.UserSeeder as UserSeeder

module _ {S : Type 0} where
  pub fake_cluster_health_checker-IsLawful :
      IsLawful
        (ClusterHealthChecker.healthy_cluster_slot {S = S})
        ClusterHealthChecker.record_invocation
  unfolding ClusterHealthChecker.record_invocation
  fake_cluster_health_checker-IsLawful = record {
    get-put = λ m f. refl;
    get-note = λ k args f. refl;
  }

  pub fake_db_helper-IsLawful :
      IsLawful (DbHelper.is_database_reachable_slot {S = S}) DbHelper.record_invocation
      × IsLawful (DbHelper.is_process_running_slot {S = S}) DbHelper.record_invocation
      × IsLawful (DbHelper.run_post_start_sql_slot {S = S}) DbHelper.record_invocation
      × IsLawful (DbHelper.seed_slot {S = S}) DbHelper.record_invocation
      × IsLawful (DbHelper.seed_users_slot {S = S}) DbHelper.record_invocation
      × IsLawful (DbHelper.start_mysqld_for_upgrade_slot {S = S}) DbHelper.record_invocation
      × IsLawful (DbHelper.start_mysqld_in_bootstrap_slot {S = S}) DbHelper.record_invocation
      × IsLawful (DbHelper.start_mysqld_in_join_slot {S = S}) DbHelper.record_invocation
      × IsLawful (DbHelper.stop_mysqld_slot {S = S}) DbHelper.record_invocation
      × IsLawful (DbHelper.upgrade_slot {S = S}) DbHelper.record_invocation
  unfolding DbHelper.record_invocation
  fake_db_helper-IsLawful = (
    record { get-put = λ m f. refl; get-note = λ k args f. refl },
    record { get-put = λ m f. refl; get-note = λ k args f. refl },
    record { get-put = λ m f. refl; get-note = λ k args f. refl },
    record { get-put = λ m f. refl; get-note = λ k args f. refl },
    record { get-put = λ m f. refl; get-note = λ k args f. refl },
    record { get-put = λ m f. refl; get-note = λ k args f. refl },
    record { get-put = λ m f. refl; get-note = λ k args f. refl },
    record { get-put = λ m f. refl; get-note = λ k args f. refl },
    record { get-put = λ m f. refl; get-note = λ k args f. refl },
    record { get-put = λ m f. refl; get-note = λ k args f. refl },
  )

  pub fake_os_helper-IsLawful :
      IsLawful (OsHelper.file_exists_slot {S = S}) OsHelper.record_invocation
      × IsLawful (OsHelper.kill_command_slot {S = S}) OsHelper.record_invocation
      × IsLawful (OsHelper.read_file_slot {S = S}) OsHelper.record_invocation
      × IsLawful (OsHelper.run_command_slot {S = S}) OsHelper.record_invocation
      × IsLawful (OsHelper.sleep_slot {S = S}) OsHelper.record_invocation
      × IsLawful (OsHelper.start_command_slot {S = S}) OsHelper.record_invocation
      × IsLawful (OsHelper.wait_for_command_slot {S = S}) OsHelper.record_invocation
      × IsLawful (OsHelper.write_string_to_file_slot {S = S}) OsHelper.record_invocation
  unfolding OsHelper.record_invocation
  fake_os_helper-IsLawful = (
    record { get-put = λ m f. refl; get-note = λ k args f. refl },
    record { get-put = λ m f. refl; get-note = λ k args f. refl },
    record { get-put = λ m f. refl; get-note = λ k args f. refl },
    record { get-put = λ m f. refl; get-note = λ k args f. refl },
    record { get-put = λ m f. refl; get-note = λ k args f. refl },
    record { get-put = λ m f. refl; get-note = λ k args f. refl },
    record { get-put = λ m f. refl; get-note = λ k args f. refl },
    record { get-put = λ m f. refl; get-note = λ k args f. refl },
  )

  pub fake_seeder-IsLawful :
      IsLawful (Seeder.create_db_if_needed_slot {S = S}) Seeder.record_invocation
      × IsLawful (Seeder.create_user_slot {S = S}) Seeder.record_invocation
      × IsLawful (Seeder.grant_user_privileges_slot {S = S}) Seeder.record_invocation
      × IsLawful (Seeder.is_existing_user_slot {S = S}) Seeder.record_invocation
      × IsLawful (Seeder.update_user_slot {S = S}) Seeder.record_invocation
  unfolding Seeder.record_invocation
  fake_seeder-IsLawful = (
    record { get-put = λ m f. refl; get-note = λ k args f. refl },
    record { get-put = λ m f. refl; get-note = λ k args f. refl },
    record { get-put = λ m f. refl; get-note = λ k args f. refl },
    record { get-put = λ m f. refl; get-note = λ k args f. refl },
    record { get-put = λ m f. refl; get-note = λ k args f. refl },
  )

  pub fake_service_status-IsLawful :
      IsLawful (ServiceStatus.start_slot {S = S}) ServiceStatus.record_invocation
  unfolding ServiceStatus.record_invocation
  fake_service_status-IsLawful = record { get-put = λ m f. refl; get-note = λ k args f. refl }

  pub fake_start_manager-IsLawful :
      IsLawful (StartManager.execute_slot {S = S}) StartManager.record_invocation
      × IsLawful (StartManager.shutdown_slot {S = S}) StartManager.record_invocation
  unfolding StartManager.record_invocation
  fake_start_manager-IsLawful = (
    record { get-put = λ m f. refl; get-note = λ k args f. refl },
    record { get-put = λ m f. refl; get-note = λ k args f. refl },
  )

  pub fake_starter-IsLawful :
      IsLawful (Starter.get_mysql_cmd_slot {S = S}) Starter.record_invocation
      × IsLawful (Starter.start_node_from_state_slot {S = S}) Starter.record_invocation
  unfolding Starter.record_invocation
  fake_starter-IsLawful = (
    record { get-put = λ m f. refl; get-note = λ k args f. refl },
    record { get-put = λ m f. refl; get-note = λ k args f. refl },
  )

  pub fake_upgrader-IsLawful :
      IsLawful (Upgrader.needs_upgrade_slot {S = S}) Upgrader.record_invocation
      × IsLawful (Upgrader.upgrade_slot {S = S}) Upgrader.record_invocation
  unfolding Upgrader.record_invocation
  fake_upgrader-IsLawful = (
    record { get-put = λ m f. refl; get-note = λ k args f. refl },
    record { get-put = λ m f. refl; get-note = λ k args f. refl },
  )

  pub fake_user_seeder-IsLawful :
      IsLawful (UserSeeder.seed_user_slot {S = S}) UserSeeder.record_invocation
  unfolding UserSeeder.record_invocation
  fake_user_seeder-IsLawful = record { get-put = λ m f. refl; get-note = λ k args f. refl }

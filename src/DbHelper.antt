-- ===== src/DbHelper.antt =====
-- db_helper/: the interface `DBHelper`, which the other parts use, and `GaleraDBHelper` behind it.
-- Log lines are not modelled, except `Fatal`, which panics.
pub mod Sql
pub mod Seeder
pub mod Texts
pub mod Accounts
pub mod Settling
pub mod Converging
pub mod UserAccounts
pub mod UserSettling
pub mod UsersConverging
pub mod SameAccounts
pub mod Reseeding
pub mod UserSeeder
pub mod Mysqld
pub mod Seeding
pub mod Galera
pub mod Calls
pub mod Operations
pub mod Confined
pub mod Connections
pub mod Reachable
pub mod Statements
pub mod Executing
pub mod PostStart
pub mod SeededUsers
pub mod Seeded
use mariadb_ctrl.Prelude.{String, Bool, Option}
use mariadb_ctrl.Go.Error.{Error}
use mariadb_ctrl.Go.World.{Cmd}
use mariadb_ctrl.Go.Action.{Go}

pub record DbHelper : Type 0 where
  pub start_mysqld_for_upgrade : Go Cmd
  pub start_mysqld_in_join : Go Cmd
  pub start_mysqld_in_bootstrap : Go Cmd
  pub stop_mysqld : Go Unit
  pub upgrade : Go (String × Option Error)
  pub is_database_reachable : Go Bool
  pub is_process_running : Go Bool
  pub seed : Go Unit
  pub seed_users : Go Unit
  pub run_post_start_sql : Go Unit

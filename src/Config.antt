-- ===== src/Config.antt =====
-- config/config.go: the configuration, its reading and its validation. service-config and validator.v2
-- are parameters.
pub mod Reading
pub mod Validate
pub mod Verdict
use mariadb_ctrl.Prelude.{ℕ, String, Bool, List}

pub record PreseededDatabase : Type 0 where
  pub db_name : String
  pub user : String
  pub password : String

pub record SeededUser : Type 0 where
  pub user : String
  pub password : String
  pub host : String
  pub role : String

pub record DbHelperConfig : Type 0 where
  pub password : String
  pub post_start_sql_files : List String
  pub preseeded_databases : List PreseededDatabase
  pub seeded_users : List SeededUser
  pub skip_binlog : Bool
  pub socket : String
  pub upgrade_path : String
  pub user : String

-- `cluster_probe_timeout` is the bit pattern of the 64-bit `int`.
pub record StartManagerConfig : Type 0 where
  pub state_file_location : String
  pub grastate_file_location : String
  pub cluster_ips : List String
  pub bootstrap_node : Bool
  pub cluster_probe_timeout : ℕ
  pub galera_init_status_server_address : String

pub record UpgraderConfig : Type 0 where
  pub package_version_file : String
  pub last_upgraded_version_file : String

pub record Config : Type 0 where
  pub log_file_location : String
  pub db : DbHelperConfig
  pub manager : StartManagerConfig
  pub upgrader : UpgraderConfig

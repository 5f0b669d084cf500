-- ===== src/Config/Reading.antt =====
-- `NewConfig` of config/config.go. The flags and the file are read by the flag package and by
-- service-config, which are the parameter `ServiceConfig`; the flags of lagerflags, and the logger that
-- is made from them, are dropped.
use mariadb_ctrl.Prelude.{ℕ, String, false, ◌⊎◌, inl, inr, List, [], ◌∷◌, Option}
use mariadb_ctrl.Go.Error.{Error}
use mariadb_ctrl.Config.{Config}

-- `Parsed` is what the flags hold after `flags.Parse`.
pub record ServiceConfig (Parsed : Type 0) : Type 0 where
  -- `flags.Parse`, of the program's name and the other arguments; with `flag.ExitOnError` it ends the
  -- process with a status when it cannot go on
  pub parse : String → List String → ℕ ⊎ Parsed
  -- `serviceConfig.Read(&c)`, of the defaults that were added and the value of `c` before
  pub read : Parsed → Config → Config → Config × Option Error

-- `var c Config`
abbrev pub zero_config : Config
zero_config = record {
  log_file_location = "";
  db = record {
    password = "";
    post_start_sql_files = [];
    preseeded_databases = [];
    seeded_users = [];
    skip_binlog = false;
    socket = "";
    upgrade_path = "";
    user = "";
  };
  manager = record {
    state_file_location = "";
    grastate_file_location = "";
    cluster_ips = [];
    bootstrap_node = false;
    cluster_probe_timeout = 0;
    galera_init_status_server_address = "";
  };
  upgrader = record { package_version_file = ""; last_upgraded_version_file = "" };
}

-- the argument of `AddDefaults`
abbrev pub default_config : Config
default_config = record zero_config {
  db = record zero_config.db { user = "root" };
  manager = record zero_config.manager {
    grastate_file_location = "/var/vcap/store/pxc-mysql/grastate.dat";
  };
}

-- How `NewConfig` ends: `osArgs[0]` is out of range, the process has exited, or it returns.
pub data Loaded : Type 0 where
  out_of_range : Loaded
  exits : ℕ → Loaded
  loaded : Config → Option Error → Loaded

module _ {Parsed : Type 0} (library : ServiceConfig Parsed) where
  abbrev pub read_parsed : ℕ ⊎ Parsed → Loaded
  read_parsed (inl status) = exits status
  read_parsed (inr parsed) =
      let (c, e) = library.read parsed default_config zero_config in loaded c e

  unfoldable pub new_config : List String → Loaded
  new_config [] = out_of_range
  new_config (binary_name ∷ configuration_options) =
      read_parsed (library.parse binary_name configuration_options)

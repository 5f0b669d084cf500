-- ===== src/Tests.antt =====
-- Sample environments, configurations and worlds for the tests.
mod Runs
mod Settings
mod Parts
mod Witnesses
mod PartWitnesses
mod Interleavings
mod Restarts
mod Crashes
mod Doubles
mod Containers
mod Upgrades
mod Servers
use mariadb_ctrl.Prelude.{
  ℕ, String, ◌==◌, ◌≡◌, refl, Bool, true, false, List, [], ◌∷◌, Option, none, some, if◌then◌else◌,
  ◌||◌,
}
use mariadb_ctrl.Go.Error.{Error, Result, ok, err, message, no_rows, exit_error, exited, signaled}
use mariadb_ctrl.Go.World.{World, Event, Trace, Cmd, Chan, started, wrote}
use mariadb_ctrl.Go.Action.{Outcome, returned, failed, panicked, blocked}
use mariadb_ctrl.Env.{Env, Wake, exit, done}
use mariadb_ctrl.Env.Files.{File, missing, contents, exists, read_result}
use mariadb_ctrl.Config.{
  Config, DbHelperConfig, StartManagerConfig, UpgraderConfig, PreseededDatabase, SeededUser,
}
use mariadb_ctrl.Config.Validate.{Fields, ErrorMap}
use mariadb_ctrl.Text.{trim_space, matches_any, replace_all, sprintf, decimal}
use mariadb_ctrl.Main.{main, execute_configured}
use mariadb_ctrl.Upgrader.{acceptable_errors}

-- A node of three, deployed for the first time, whose mysqld runs until SIGTERM.
abbrev pub calm : Env
calm = record {
  combined_output = λ _ exe args. ("", none);
  open_log = λ _ _. none;
  start = λ _ _ _. ok 7;
  stat = λ _ f. f == "last" || f == "package";
  read_file = λ _ f. if f == "grastate" then err (message "no file") else ok "8.0\n";
  write_file = λ _ _ _ _. none;
  signal = λ _ _ _. none;
  poll_exit = λ _ _. none;
  wait_exit = λ _ _. some none;
  select_exit = λ _ _. some done;
  format_dsn = λ c. c.user;
  sql_open = λ _ _. none;
  query_row = λ _ _. ok ("", "Synced");
  query = λ _ _. ok false;
  exec = λ _ _. none;
  listen = λ _ _. none;
  http_get = λ _ _ _. none;
}

-- Whether a command has been started.
abbrev pub has_start : Trace → Bool
has_start [] = false
has_start (started exe args (ok pid) ∷ t) = true
has_start (e ∷ t) = has_start t

-- The same node, whose database does not answer before a mysqld is started.
abbrev pub warm : Env
warm = record calm { sql_open = λ t _. if has_start t then none else some no_rows }

abbrev pub sample : Config
sample = record {
  log_file_location = "log";
  db = record {
    password = "";
    post_start_sql_files = "post.sql" ∷ [];
    preseeded_databases = (record { db_name = "app"; user = "me"; password = "pw" }) ∷ [];
    seeded_users = (record { user = "adm"; password = "pw"; host = "any"; role = "admin" }) ∷ [];
    skip_binlog = true;
    socket = "sock";
    upgrade_path = "mysql_upgrade";
    user = "root";
  };
  manager = record {
    state_file_location = "state";
    grastate_file_location = "grastate";
    cluster_ips = "10.0.0.1" ∷ "10.0.0.2" ∷ "10.0.0.3" ∷ [];
    bootstrap_node = true;
    cluster_probe_timeout = 13;
    galera_init_status_server_address = "127.0.0.1:8999";
  };
  upgrader = record { package_version_file = "package"; last_upgraded_version_file = "last" };
}

abbrev pub fresh : World
fresh = record { trace = []; mysql_cmd = none; next_chan = 0; drained = [] }

-- What was last written to a file without an error.
abbrev pub write_of : String → Event → Option String
write_of f (wrote g c m none) = if g == f then some c else none
write_of f _ = none

abbrev pub or_else : Option String → Option String → Option String
or_else none rest = rest
or_else (some c) rest = some c

abbrev pub last_written : String → Trace → Option String
last_written f [] = none
last_written f (e ∷ t) = or_else (write_of f e) (last_written f t)

abbrev pub is_some : Option String → Bool
is_some none = false
is_some (some c) = true

abbrev pub or_empty : Option String → String
or_empty none = ""
or_empty (some c) = c

-- An environment that keeps what is written.
abbrev pub disk : Env
disk = record calm {
  stat = λ t f. is_some (last_written f t);
  read_file = λ t f. ok (or_empty (last_written f t));
}

-- The node has recorded that it is in a cluster.
abbrev pub recorded_before : World
recorded_before = record fresh { trace = wrote "state" "CLUSTERED" 0o644 none ∷ [] }

-- An environment whose files stay as they are.
abbrev pub files : String → File
files f =
    if f == "state"
    then contents " SINGLE_NODE\n"
    else if f == "last"
    then contents "8.0.1\n"
    else if f == "package"
    then contents "8.0.2\n"
    else missing (message "no file")

abbrev pub still : Env
still = record calm { stat = λ t f. exists (files f); read_file = λ t f. read_result (files f) }

-- A mysqld that runs, and its channel.
abbrev pub mysqld : Cmd
mysqld = record { executable = "mysqld"; args = []; process = some 7 }

abbrev pub mysqld_chan : Chan
mysqld_chan = record { ref = 0; cmd = mysqld }

abbrev pub running : World
running = record fresh { mysql_cmd = some mysqld; next_chan = 1 }

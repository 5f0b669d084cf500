-- ===== src/Upgrader.antt =====
-- upgrader/upgrader.go
pub mod Versions
pub mod Waiting
pub mod Ending
pub mod Outcome
pub mod Resting
use mariadb_ctrl.Prelude.{
  ℕ, zero, suc, ◌*◌, String, ◌==◌, Bool, true, not, List, [], ◌∷◌, Option, none, some,
  if◌then◌else◌,
}
use mariadb_ctrl.Go.Error.{Error, Result, ok, err, message, wrap}
use mariadb_ctrl.Go.Action.{Go, pure, fail, ◌>>=◌, ◌>>◌, attempt, check}
use mariadb_ctrl.Go.Channel.{receive}
use mariadb_ctrl.Env.{Env}
use mariadb_ctrl.Config.{UpgraderConfig}
use mariadb_ctrl.Text.{trim_space, matches_any}
use mariadb_ctrl.OsHelper.{second, wait_for_command, sleep, file_exists, read_file}
use mariadb_ctrl.DbHelper.{DbHelper}

-- the interface `Upgrader`
pub record Upgrader : Type 0 where
  pub upgrade : Go Unit
  pub needs_upgrade : Go Bool

abbrev pub db_reachable_polling_attempts : ℕ
db_reachable_polling_attempts = 30

abbrev pub db_reachable_polling_delay : ℕ
db_reachable_polling_delay = 10 * second

-- the alternatives of the regular expression
abbrev pub acceptable_errors : List String
acceptable_errors = "already upgraded" ∷ "Unknown command" ∷ "WSREP has not yet prepared node" ∷ []

-- the error of mysql_upgrade that is left after its output is matched
unfoldable pub upgrade_error : String × Option Error → Option Error
upgrade_error (output, none) = none
upgrade_error (output, some e) = if matches_any acceptable_errors output then none else some e

-- a read whose error is replaced by a message
abbrev pub reading : String → Result String → Go String
reading msg (ok text) = pure text
reading msg (err e) = fail (message msg)

module _ (env : Env) (db : DbHelper) where
  -- the loop of `waitUntilMySQLReachable`, over the tries left
  unfoldable pub wait_for_tries : ℕ → Go Unit
  unfolding sleep
  wait_for_tries zero = fail (message "Database is not reachable after 30 tries.")
  wait_for_tries (suc tries) = do
    reachable ← db.is_database_reachable
    let again = do sleep db_reachable_polling_delay; wait_for_tries tries
    if reachable then pure tt else again

  unfoldable pub wait_until_mysql_reachable : Go Unit
  wait_until_mysql_reachable = wait_for_tries db_reachable_polling_attempts

  abbrev stop_standalone_database_synchronously : Go Unit
  stop_standalone_database_synchronously = db.stop_mysqld

  unfoldable pub upgrade : Go Unit
  upgrade = do
    cmd ← db.start_mysqld_for_upgrade
    mysqld_exit_chan ← wait_for_command cmd
    wait_until_mysql_reachable
    r ← db.upgrade
    stop_standalone_database_synchronously
    mysqld_err ← receive env mysqld_exit_chan
    check (wrap mysqld_err "mysqld failed during upgrade")
    check (upgrade_error r)

module _ (env : Env) (config : UpgraderConfig) where
  unfoldable pub compare_versions : Go Bool
  unfolding trim_space
  compare_versions = do
    existing ← attempt (read_file env config.last_upgraded_version_file)
    existing_version ← reading "Could not read last upgraded version file in the data dir." existing
    packaged ← attempt (read_file env config.package_version_file)
    package_version ←
        reading "DB package is invalid because the version file is not readable." packaged
    pure (not (trim_space existing_version == trim_space package_version))

  unfoldable pub package_version_needed : Go Bool
  unfolding compare_versions
  package_version_needed = do
    package_exists ← file_exists env config.package_version_file
    if package_exists
        then compare_versions
        else fail (message "DB package is invalid because it is missing the version file.")

  unfoldable pub needs_upgrade : Go Bool
  unfolding package_version_needed file_exists read_file
  needs_upgrade = do
    last_exists ← file_exists env config.last_upgraded_version_file
    if last_exists then package_version_needed else pure true

-- `NewUpgrader`
unfoldable pub new_upgrader : Env → UpgraderConfig → DbHelper → Upgrader
new_upgrader env config db = record {
  upgrade = upgrade env db;
  needs_upgrade = needs_upgrade env config;
}

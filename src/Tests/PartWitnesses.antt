-- ===== src/Tests/PartWitnesses.antt =====
-- The theorems on the database helper, the upgrader and the other parts at concrete inputs.
use mariadb_ctrl.Prelude.{◌==◌, if◌then◌else◌, ◌≡◌, ◌↔◌, true, none, some, [], ◌∷◌}
use mariadb_ctrl.Go.World.{World, opened_db}
use mariadb_ctrl.Go.Action.{returned, final}
use mariadb_ctrl.Go.Total.{Total}
use mariadb_ctrl.Env.Files.{contents, result}
use mariadb_ctrl.Config.{SeededUser}
use mariadb_ctrl.Config.Validate.{Fields, field, plain, ErrorMap, config_fields, validate}
use mariadb_ctrl.Config.Verdict.{AreValid, validate-none_iff}
use mariadb_ctrl.ClusterHealth.{any_healthy}
use mariadb_ctrl.ClusterHealth.Probing.{Checked, any_healthy-Checked}
use mariadb_ctrl.DbHelper.Mysqld.{is_database_reachable}
use mariadb_ctrl.DbHelper.Sql.{format_dsn}
use mariadb_ctrl.DbHelper.Operations.{Every}
use mariadb_ctrl.DbHelper.Confined.{IsConfined, new_db_helper-IsConfined}
use mariadb_ctrl.DbHelper.Connections.{Closes, new_db_helper-Closes}
use mariadb_ctrl.DbHelper.Reachable.{answer, IsReachable, is_database_reachable_iff}
use mariadb_ctrl.DbHelper.Seeding.{run_post_start_sql}
use mariadb_ctrl.DbHelper.Executing.{FailedLast, Connection}
use mariadb_ctrl.DbHelper.PostStart.{FilesInTurn, run_post_start_sql-Connection}
use mariadb_ctrl.Starter.Grastate.{Bootstrapped, bootstrap_node-Bootstrapped}
use mariadb_ctrl.Upgrader.{
  upgrade, needs_upgrade, wait_until_mysql_reachable, db_reachable_polling_attempts,
}
use mariadb_ctrl.Upgrader.Versions.{verdict, needs_upgrade-eq-verdict}
use mariadb_ctrl.Upgrader.Waiting as UpgraderWaiting
use mariadb_ctrl.Upgrader.Waiting.{wait_until_mysql_reachable_iff}
use mariadb_ctrl.Upgrader.Ending.{upgrade-Total}
use mariadb_ctrl.Upgrader.Outcome.{UpgradeEnd, upgrade-UpgradeEnd}
use mariadb_ctrl.Go.Total.{IsSound}
use mariadb_ctrl.Starter.{bootstrap_node}
use mariadb_ctrl.Tests.{calm, sample, fresh, files, still}
use mariadb_ctrl.Tests.Settings.{calm-ProcessesEnd, still-Shows}
use mariadb_ctrl.Tests.Parts.{db, checker, db-IsQuiet, db-Answers, answered}

wait_until_mysql_reachable_iff_example :
    (wait_until_mysql_reachable calm db fresh ≡ returned tt (answered fresh))
    ↔ UpgraderWaiting.Waited db db_reachable_polling_attempts fresh (returned tt (answered fresh))
wait_until_mysql_reachable_iff_example =
    wait_until_mysql_reachable_iff calm db db-Answers fresh (returned tt (answered fresh))

upgrade-Total_example : Total (λ _ v. IsSound v) (upgrade calm db fresh)
upgrade-Total_example = upgrade-Total calm db db-IsQuiet calm-ProcessesEnd fresh tt

needs_upgrade-eq-verdict_example :
    result (needs_upgrade still sample.upgrader fresh)
    ≡ some (verdict (contents "8.0.1\n") (contents "8.0.2\n"))
needs_upgrade-eq-verdict_example =
    needs_upgrade-eq-verdict still sample.upgrader files fresh still-Shows

is_database_reachable_iff_example :
    (answer (is_database_reachable calm sample.db fresh) ≡ some true)
    ↔ IsReachable calm sample.db []
is_database_reachable_iff_example = is_database_reachable_iff calm sample.db fresh

new_db_helper-Closes_example : Every Closes db
new_db_helper-Closes_example = new_db_helper-Closes calm sample.db "log"

new_db_helper-IsConfined_example : IsConfined db
new_db_helper-IsConfined_example = new_db_helper-IsConfined calm sample.db "log"

run_post_start_sql-Connection_example :
    Connection
      (format_dsn calm sample.db)
      []
      (FilesInTurn ("post.sql" ∷ []) (opened_db (format_dsn calm sample.db) none ∷ []))
      FailedLast
      (run_post_start_sql calm sample.db fresh)
run_post_start_sql-Connection_example = run_post_start_sql-Connection calm sample.db fresh

bootstrap_node-Bootstrapped_example :
    Bootstrapped still sample.manager db checker fresh
      (bootstrap_node still sample.manager db checker fresh)
bootstrap_node-Bootstrapped_example =
    bootstrap_node-Bootstrapped still sample.manager db checker fresh

abbrev seeded : SeededUser
seeded = record { user = "adm"; password = "pw"; host = "any"; role = "admin" }

any_healthy-Checked_example :
    Checked 13
      ("10.0.0.1" ∷ "10.0.0.2" ∷ [])
      fresh
      (any_healthy calm 13 ("10.0.0.1" ∷ "10.0.0.2" ∷ []) fresh)
any_healthy-Checked_example = any_healthy-Checked 13 calm ("10.0.0.1" ∷ "10.0.0.2" ∷ []) fresh

-- a validator that wants a `LogFileLocation` and accepts each database
abbrev wants_log : Fields → ErrorMap
wants_log (field name tag (plain true) rest) =
    if name == "LogFileLocation" then (name, "zero value") ∷ [] else []
wants_log _ = []

validate-none_iff_example :
    (validate wants_log sample ≡ none)
    ↔ ((wants_log (config_fields sample) ≡ []) × AreValid wants_log sample.db.preseeded_databases)
validate-none_iff_example = validate-none_iff wants_log sample

abbrev launched : World
launched = record (final (db.start_mysqld_for_upgrade fresh)) { next_chan = 1 }

upgrade-UpgradeEnd_example : UpgradeEnd calm db fresh (upgrade calm db fresh)
upgrade-UpgradeEnd_example = upgrade-UpgradeEnd calm db fresh

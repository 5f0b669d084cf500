-- ===== src/Tests/Upgrades.antt =====
-- The upgrade with a mysqld that stays unreachable, and the time that an upgrade takes.
use mariadb_ctrl.Prelude.{ℕ, zero, suc, ◌+◌, ◌*◌, ◌≡◌, refl, false, some}
use mariadb_ctrl.Go.Error.{message, no_rows}
use mariadb_ctrl.Go.World.{World, Cmd, slept}
use mariadb_ctrl.Go.Action.{returned, failed, final, logged, ◌>>=◌}
use mariadb_ctrl.Env.{Env}
use mariadb_ctrl.OsHelper.{second, start_command}
use mariadb_ctrl.DbHelper.{DbHelper}
use mariadb_ctrl.DbHelper.Galera.{new_db_helper}
use mariadb_ctrl.DbHelper.Confined.{new_db_helper-IsConfined}
use mariadb_ctrl.DbHelper.Sql.{with_connection, query_row}
use mariadb_ctrl.DbHelper.Mysqld.{
  is_database_reachable, reachable_over, start_mysqld_for_upgrade, upgrade_args,
}
use mariadb_ctrl.Upgrader.{upgrade, db_reachable_polling_delay}
use mariadb_ctrl.Upgrader.Waiting.{Rounds, start, again}
use mariadb_ctrl.Upgrader.Resting.{RestsFor, upgrade-timed_out, upgrade-RestsFor}
use mariadb_ctrl.Tests.{calm, sample, fresh}
use mariadb_ctrl.Tests.Parts.{db}

upgrade-RestsFor_example : RestsFor (300 * second) (upgrade calm db)
upgrade-RestsFor_example = upgrade-RestsFor calm db (new_db_helper-IsConfined calm sample.db "log")

-- No connection to the database can be opened.
abbrev mute : Env
mute = record calm { sql_open = λ t dsn. some no_rows }

abbrev mute_db : DbHelper
mute_db = new_db_helper mute sample.db "log"

abbrev asked : World → World
asked w = final (mute_db.is_database_reachable w)

unanswered : (w : World) → mute_db.is_database_reachable w ≡ returned false (asked w)
unfolding new_db_helper is_database_reachable reachable_over with_connection query_row ◌>>=◌
unanswered w = refl

abbrev rounds : ℕ → World → World
rounds zero w = w
rounds (suc n) w = rounds n (logged (slept db_reachable_polling_delay) (asked w))

rounds-Rounds : (n : ℕ) (w : World) → Rounds mute_db n w (rounds n w)
rounds-Rounds zero w = start
rounds-Rounds (suc n) w = again (unanswered w) (rounds-Rounds n _)

abbrev started : World
started = final (mute_db.start_mysqld_for_upgrade fresh)

abbrev upgrade_cmd : Cmd
upgrade_cmd = record { executable = "mysqld"; args = upgrade_args; process = some 7 }

upgrade_started : mute_db.start_mysqld_for_upgrade fresh ≡ returned upgrade_cmd started
unfolding new_db_helper start_mysqld_for_upgrade start_command ◌>>=◌
upgrade_started = refl

abbrev unreached : World
unreached = rounds 30 (record started { next_chan = started.next_chan + 1 })

upgrade-timed_out_example :
    upgrade mute mute_db fresh
    ≡ failed (message "Database is not reachable after 30 tries.") unreached
upgrade-timed_out_example =
    upgrade-timed_out mute mute_db fresh started unreached upgrade_cmd upgrade_started
      (rounds-Rounds 30 _)

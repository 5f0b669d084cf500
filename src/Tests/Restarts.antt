-- ===== src/Tests/Restarts.antt =====
-- A node that is deployed without the bootstrap flag.
use mariadb_ctrl.Prelude.{Bool, true, false, ◌&&◌, [], ◌∷◌, some}
use mariadb_ctrl.Go.World.{World, Event, Trace, wrote}
use mariadb_ctrl.Go.Action.{final}
use mariadb_ctrl.Main.{execute_configured}
use mariadb_ctrl.Config.{Config}
use mariadb_ctrl.DbHelper.Mysqld as Mysqld
use mariadb_ctrl.Tests.{sample, disk, fresh}

abbrev is_written : Event → Bool
is_written (wrote f c m (some e)) = false
is_written _ = true

abbrev are_written : Trace → Bool
are_written [] = true
are_written (e ∷ es) = are_written es && is_written e

-- A node without the bootstrap flag, deployed for the first time.
abbrev joiner : Config
joiner = record sample { manager = record sample.manager { bootstrap_node = false } }

abbrev first_run : World
first_run = final (execute_configured disk joiner 9 fresh)

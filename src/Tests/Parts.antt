-- ===== src/Tests/Parts.antt =====
-- The parts of the program in the sample environment.
use mariadb_ctrl.Go.World.{World}
use mariadb_ctrl.Go.Action.{final}
use mariadb_ctrl.Go.Total.{Answers}
use mariadb_ctrl.ClusterHealth.{new_cluster_health_checker, ClusterHealthChecker}
use mariadb_ctrl.DbHelper.{DbHelper}
use mariadb_ctrl.DbHelper.Galera.{new_db_helper}
use mariadb_ctrl.DbHelper.Confined.{IsQuiet, new_db_helper-IsQuiet}
use mariadb_ctrl.DbHelper.Reachable.{is_database_reachable-Answers}
use mariadb_ctrl.Upgrader.{Upgrader, new_upgrader}
use mariadb_ctrl.Starter.{Starter, new_starter}
use mariadb_ctrl.Tests.{calm, sample}

abbrev pub db : DbHelper
db = new_db_helper calm sample.db "log"

abbrev pub checker : ClusterHealthChecker
checker = new_cluster_health_checker calm sample.manager.cluster_ips 13

abbrev pub starter : Starter
starter = new_starter calm sample.manager db checker 9

abbrev pub sample_upgrader : Upgrader
sample_upgrader = new_upgrader calm sample.upgrader db

pub db-IsQuiet : IsQuiet db
db-IsQuiet = new_db_helper-IsQuiet calm sample.db "log"

pub db-Answers : Answers db.is_database_reachable
unfolding new_db_helper
db-Answers = is_database_reachable-Answers calm sample.db

-- the world after the database has answered once
abbrev pub answered : World → World
answered w = final (db.is_database_reachable w)

-- ===== src/Main/Preparing.antt =====
-- The parts that `managerSetup` builds, and the first half of `Execute`: what it adds to the trace up
-- to the decision on the node state.
use mariadb_ctrl.Prelude.{ℕ, String, Bool, if◌then◌else◌}
use mariadb_ctrl.Go.World.{World, Event}
use mariadb_ctrl.Go.Action.{Go, pure}
use mariadb_ctrl.Go.Logic.{Has, on_if, on_pure}
use mariadb_ctrl.Go.Relations.{Extends, Extends-IsPreorder}
use mariadb_ctrl.Go.Safe.{ExtendsOnly, ExtendsOnly-Logic, Safe, extending_then}
use mariadb_ctrl.Go.Plain.{IsPlain}
use mariadb_ctrl.Env.{Env}
use mariadb_ctrl.Config.{Config}
use mariadb_ctrl.ClusterHealth.{ClusterHealthChecker, new_cluster_health_checker}
use mariadb_ctrl.DbHelper.{DbHelper}
use mariadb_ctrl.DbHelper.Galera.{new_db_helper}
use mariadb_ctrl.DbHelper.Operations.{StandAlone}
use mariadb_ctrl.Upgrader.{Upgrader, new_upgrader}
use mariadb_ctrl.Upgrader.Versions.{needs_upgrade_call}
use mariadb_ctrl.StatusServer.{new_galera_init_status_server}
use mariadb_ctrl.Starter.{Starter, new_starter}
use mariadb_ctrl.StartManager.{get_current_node_state, shutdown, prepare}
use mariadb_ctrl.Main.Extending.{reads, upgrade-Extends}

module _ (env : Env) (cfg : Config) (fuel : ℕ) where
  abbrev pub db : DbHelper
  db = new_db_helper env cfg.db cfg.log_file_location

  abbrev pub checker : ClusterHealthChecker
  checker = new_cluster_health_checker env cfg.manager.cluster_ips cfg.manager.cluster_probe_timeout

  abbrev pub starter : Starter
  starter = new_starter env cfg.manager db checker fuel

  abbrev pub upgrader : Upgrader
  upgrader = new_upgrader env cfg.upgrader db

  abbrev pub preparing : Go String
  preparing = prepare env cfg.manager db upgrader starter new_galera_init_status_server

  module _ {P : Event → Type 0} (plain : (e : Event) → IsPlain e → P e)
      (alone : StandAlone (ExtendsOnly P) db) where
    optional :
        (b : Bool) (m : Go Unit)
        → Has (ExtendsOnly P) m
        → Has (ExtendsOnly P) (if b then m else pure tt)
    optional b m p = on_if b m _ p (on_pure ExtendsOnly-Logic tt)

    -- What the decision on the state gives, the preparation gives.
    pub prepare_Safe :
        (w : World) (R : String → World → Type 0)
        → ((v : World)
            → Extends P w v
            → Safe (Extends P w) R (get_current_node_state env cfg.manager v))
        → Safe (Extends P w) R (preparing w)
    unfolding prepare shutdown new_upgrader
    prepare_Safe w R decision =
        extending_then w R _ _ alone.is_process_running w ((Extends-IsPreorder P).reflexive w)
          λ running w1 x1.
            extending_then w R _ _ (optional running _ alone.stop_mysqld) w1 x1 λ _ w2 x2.
              extending_then w R _ _ (needs_upgrade_call (reads plain) env cfg.upgrader) w2 x2
                λ needed w3 x3.
                  extending_then w R _ _ (optional needed _ (upgrade-Extends plain env db alone)) w3
                    x3 λ _ w4 x4. decision w4 x4

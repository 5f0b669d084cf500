-- ===== src/Main/Rejoining.antt =====
-- start_manager/start_manager.go: `Execute` on a node that has recorded CLUSTERED.
use mariadb_ctrl.Prelude.{ℕ, String, ◌≡◌, ◌≢◌, refl, Option, none, some, length}
use mariadb_ctrl.Go.World.{World, Chan}
use mariadb_ctrl.Go.Action.{Go, final, pure, ◌>>=◌, ◌>>◌}
use mariadb_ctrl.Go.Logic.{Has, on_bind, on_call, on_check}
use mariadb_ctrl.Go.Relations.{Extends}
use mariadb_ctrl.Go.Safe.{
  ExtendsOnly, ExtendsOnly-Logic, Safe, Safe-bind, final_of_Safe, Safe-of_Extends, extending_then,
  Safe-map,
}
use mariadb_ctrl.Env.{Env}
use mariadb_ctrl.Config.{Config}
use mariadb_ctrl.OsHelper.{write_string_to_file, write_file}
use mariadb_ctrl.ClusterHealth.{ClusterHealthChecker, new_cluster_health_checker}
use mariadb_ctrl.DbHelper.{DbHelper}
use mariadb_ctrl.DbHelper.Galera.{new_db_helper}
use mariadb_ctrl.DbHelper.Operations.{Others}
use mariadb_ctrl.Upgrader.{Upgrader, new_upgrader}
use mariadb_ctrl.StatusServer.{new_galera_init_status_server}
use mariadb_ctrl.Starter.{
  Starter, new_starter, clustered, require_chan, wait_for_database, start_node_from_state,
}
use mariadb_ctrl.Starter.Launching.{launch-clustered}
use mariadb_ctrl.StartManager.{write_string, supervise, execute}
use mariadb_ctrl.Main.{execute_configured}
use mariadb_ctrl.Main.Extending.{
  new_db_helper-Extends, wait-for-database-Extends, join_cluster-Extends, supervise-Extends,
}
use mariadb_ctrl.Main.Recording.{
  Stores, Recorded, Idle, Joins, Joins-plain, Joins-closing, Joins-Idle, joining_args,
  upgrading_args, All-map,
}
use mariadb_ctrl.Main.Preparing
use mariadb_ctrl.Main.Deciding
use mariadb_ctrl.Main.Deciding.{decide_Safe}

module _ (env : Env) (cfg : Config) (fuel : ℕ) where
  abbrev pub f : String
  f = cfg.manager.state_file_location

  abbrev pub db : DbHelper
  db = new_db_helper env cfg.db cfg.log_file_location

  abbrev pub checker : ClusterHealthChecker
  checker = new_cluster_health_checker env cfg.manager.cluster_ips cfg.manager.cluster_probe_timeout

  abbrev pub starter : Starter
  starter = new_starter env cfg.manager db checker fuel

  abbrev pub upgrader : Upgrader
  upgrader = new_upgrader env cfg.upgrader db

  Joins-db : Others (ExtendsOnly (Joins f)) db
  Joins-db =
      new_db_helper-Extends (Joins-plain f) env (λ r. upgrading_args) (λ r. joining_args) cfg.db
        cfg.log_file_location

  module _ (stores : Stores env f) (many : length cfg.manager.cluster_ips ≢ 1) where
    abbrev pub IsState : World → String → World → Type 0
    IsState = Deciding.IsState env cfg fuel stores many

    abbrev pub preparing : Go String
    preparing = Preparing.preparing env cfg fuel

    abbrev pub starting : String → Go (String × Chan)
    starting = start_node_from_state env cfg.manager db checker fuel

    abbrev pub J : World → World → Type 0
    J w v = Extends (Joins f) w v

    abbrev Started : World → String × Chan → World → Type 0
    Started w r v = (r.0 ≡ clustered) × J w v

    abbrev Launched : World → String × Option Chan → World → Type 0
    Launched w r v = (r.0 ≡ clustered) × J w v

    -- what `StartNodeFromState` does once mysqld is launched
    abbrev after_launch : String × Option Chan → Go (String × Chan)
    after_launch r = do
      ch ← require_chan r.1
      wait_for_database env cfg.manager db checker fuel ch
      db.seed
      db.seed_users
      db.run_post_start_sql
      pure (r.0, ch)

    after_launch-Safe :
        (w : World) (r : String × Option Chan) (v : World)
        → Launched w r v
        → Safe (J w) (Started w) (after_launch r v)
    unfolding ◌>>=◌
    after_launch-Safe w (n, none) v h = h.1
    after_launch-Safe w (n, some ch) v h =
        extending_then w (Started w) _ _
          (wait-for-database-Extends (Joins-plain f) env db Joins-db.passive cfg.manager checker
            fuel ch)
          v h.1
          λ _ w1 x1. extending_then w (Started w) _ _ Joins-db.seed w1 x1 λ _ w2 x2.
            extending_then w (Started w) _ _ Joins-db.seed_users w2 x2 λ _ w3 x3.
              extending_then w (Started w) db.run_post_start_sql _ Joins-db.run_post_start_sql w3 x3
                λ _ w4 x4. (h.0, x4)

    named :
        (w : World) (c : Option Chan) (u : World)
        → J w u
        → Safe (J w) (Launched w) (pure (clustered, c) u)
    unfolding pure
    named w c u y = (refl, y)

    start_Safe : (w v : World) → J w v → Safe (J w) (Started w) (starting clustered v)
    unfolding start_node_from_state
    start_Safe w v x = rw (launch-clustered env cfg.manager db checker clustered refl refl refl) (
        Safe-bind (J w) (Launched w) (Started w) _ after_launch v
          (extending_then w (Launched w) _ _
            (join_cluster-Extends (Joins-plain f) env db Joins-db.passive cfg.manager checker
              Joins-db.start_mysqld_in_join)
            v x (named w))
          (after_launch-Safe w))

    write-Extends : Has (ExtendsOnly (Joins f)) (write_string env cfg.manager clustered)
    unfolding write_string write_string_to_file write_file
    write-Extends =
        on_bind ExtendsOnly-Logic _ _ (on_call ExtendsOnly-Logic _ _ (λ _. (refl, refl)))
          (on_check ExtendsOnly-Logic)

    abbrev pub supervising : Chan → Go Unit
    supervising = supervise env cfg.manager db upgrader starter new_galera_init_status_server

    abbrev pub afterwards : String → Go Unit
    afterwards state = do
      (new_node_state, ch) ← starting state
      write_string env cfg.manager new_node_state
      supervising ch

    finish_Safe :
        (w : World) (r : String × Chan) (v : World)
        → Started w r v
        → Safe (J w) (λ _ u. J w u) ((write_string env cfg.manager r.0 >> supervising r.1) v)
    finish_Safe w (n, ch) v (e, x) = rw e (
        extending_then w (λ _ u. J w u) _ _ write-Extends v x
          λ _ u y.
            Safe-of_Extends w (supervising ch)
              (supervise-Extends (Joins-plain f) env db Joins-db.passive cfg.manager checker
                (Joins-closing f) upgrader fuel ch)
              u y)

    pub J-of_Idle : (w v : World) → Extends Idle w v → J w v
    J-of_Idle w v x = record {
      added = x.added;
      grown = x.grown;
      all = All-map Idle (Joins f) x.added (Joins-Idle f) x.all;
    }

    pub afterwards-Safe :
        (w : World) (state : String) (v : World)
        → IsState w state v
        → Safe (J w) (λ _ u. J w u) (afterwards state v)
    afterwards-Safe w state v (e, x) = rw e (
        Safe-bind (J w) (Started w) (λ _ u. J w u) (starting clustered) _ v
          (start_Safe w v (J-of_Idle w v x)) (finish_Safe w))

    -- A run that decides on CLUSTERED joins.
    pub clustered-Joins :
        (w : World)
        → Safe (Extends Idle w) (IsState w) (preparing w)
        → J w (final (execute_configured env cfg fuel w))
    unfolding execute_configured execute new_starter
    clustered-Joins w decided = final_of_Safe (J w) _ (
        Safe-bind (J w) (λ state v. IsState w state v) (λ _ u. J w u) preparing afterwards w
          (Safe-map (Extends Idle w) (J w) (IsState w) (IsState w) (preparing w) (J-of_Idle w)
            (λ _ v h. h) decided)
          (afterwards-Safe w))

    -- With a state file that keeps what is written to it, a node that has recorded CLUSTERED, among any
    -- number of nodes but one, makes no new cluster in a run of `Execute`, however it ends: the run
    -- starts no command with the arguments of a new cluster (`--wsrep-new-cluster` after the defaults
    -- file), and all that it writes is CLUSTERED to the state file.
    pub execute_configured-Joins :
        (w : World)
        → Recorded f w.trace
        → Extends (Joins f) w (final (execute_configured env cfg fuel w))
    execute_configured-Joins w r = clustered-Joins w (decide_Safe env cfg fuel stores many w r)

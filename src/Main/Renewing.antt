-- ===== src/Main/Renewing.antt =====
-- start_manager/start_manager.go and start_manager/node_starter/starter.go: the runs of `Execute` with
-- more than one node, and the starts of a new cluster in them.
use mariadb_ctrl.Prelude.{
  ℕ, String, ◌==◌, ◌≡◌, ◌<◌, refl, Bool, true, false, Option, none, some, length,
}
use mariadb_ctrl.Go.World.{World, Event, Chan, started}
use mariadb_ctrl.Go.Action.{Outcome, Go, final, pure, fail, ◌>>=◌, ◌>>◌}
use mariadb_ctrl.Go.Logic.{Logic, Logic-restrict, Has}
use mariadb_ctrl.Go.Relations.{Extends}
use mariadb_ctrl.Go.Safe.{
  ExtendsOnly, ExtendsOnly-Logic, Safe, Safe-bind, final_of_Safe, Safe-of_final, Safe-of_Extends,
  Safe-map,
}
use mariadb_ctrl.Env.{Env}
use mariadb_ctrl.Config.{Config}
use mariadb_ctrl.DbHelper.{DbHelper}
use mariadb_ctrl.ClusterHealth.{ClusterHealthChecker, any_healthy}
use mariadb_ctrl.ClusterHealth.Probing.{
  Checked, healthy, all_unhealthy, any_healthy-Checked, Unhealthy,
}
use mariadb_ctrl.DbHelper.Operations.{Others}
use mariadb_ctrl.Upgrader.{new_upgrader}
use mariadb_ctrl.StatusServer.{new_galera_init_status_server}
use mariadb_ctrl.Starter.{
  Starter, launch, new_starter, clustered, needs_bootstrap, require_chan, wait_for_database,
  start_node_from_state,
}
use mariadb_ctrl.Starter.Launching.{by_health, launch-needs, launch-clustered, launch-other}
use mariadb_ctrl.Starter.Calls.{IsLaunchCall, any_healthy_call, write_string_call}
use mariadb_ctrl.StartManager.{write_string, supervise, execute}
use mariadb_ctrl.Main.{execute_configured}
use mariadb_ctrl.Main.Extending.{
  new_db_helper-Extends, wait-for-database-Extends, join_cluster-Extends, supervise-Extends,
}
use mariadb_ctrl.Main.Recording.{joining_args, upgrading_args}
use mariadb_ctrl.Main.Preparing.{db, checker, starter, preparing}
use mariadb_ctrl.Main.Choosing.{IsChosen, choose_Safe}
use mariadb_ctrl.Main.Probed.{
  Old, Old-plain, Old-closing, Probed, old, renewed, Probed-then, Probed-last, bootstrap_node-Any,
}

Old-launch : (e : Event) → IsLaunchCall e → Old e
Old-launch (started exe args r) h = absurd h
Old-launch _ h = tt

module _ (env : Env) (cfg : Config) (fuel : ℕ) (many : 1 < length cfg.manager.cluster_ips) where
  abbrev d : DbHelper
  d = db env cfg fuel

  abbrev c : ClusterHealthChecker
  c = checker env cfg fuel

  abbrev s : Starter
  s = starter env cfg fuel

  abbrev I : World → World → Type 0
  I w v = Probed cfg.manager.cluster_probe_timeout cfg.manager.cluster_ips w v

  others : Others (ExtendsOnly Old) d
  others =
      new_db_helper-Extends Old-plain env (λ r. upgrading_args) (λ r. joining_args) cfg.db
        cfg.log_file_location

  Old-then :
      {A B : Type 0} (w : World) (R : B → World → Type 0) (m : Go A) (f : A → Go B)
      → Has (ExtendsOnly Old) m
      → (u : World) → I w u
      → ((a : A) (v : World) → I w v → Safe (I w) R (f a v))
      → Safe (I w) R ((m >>= f) u)
  Old-then w = Probed-then cfg.manager.cluster_probe_timeout cfg.manager.cluster_ips w

  abbrev Is : World → String → World → Type 0
  Is = IsChosen env cfg fuel many

  abbrev timeout : ℕ
  timeout = cfg.manager.cluster_probe_timeout

  calls : Logic (ExtendsOnly Old) IsLaunchCall
  calls = Logic-restrict ExtendsOnly-Logic Old-launch

  -- what the health check has found out
  abbrev Health : World → World → Bool → World → Type 0
  Health w u true v = Extends Old w v
  Health w u false v = Unhealthy timeout cfg.manager.cluster_ips u.trace v.trace

  Checked-cases :
      (w u : World) (o : Outcome Bool)
      → Checked timeout cfg.manager.cluster_ips u o
      → Safe (Extends Old w) (λ _ v. Extends Old w v) o
      → Safe (I w) (Health w u) o
  Checked-cases w u _ (healthy before ip after e probes) h = h
  Checked-cases w u _ (all_unhealthy probes) h = probes

  Health-Safe :
      (w u : World)
      → Extends Old w u
      → Safe (I w) (Health w u) (any_healthy env timeout cfg.manager.cluster_ips u)
  Health-Safe w u x =
      Checked-cases w u _ (any_healthy-Checked timeout env cfg.manager.cluster_ips u)
        (Safe-of_Extends w _ (any_healthy_call calls env timeout cfg.manager.cluster_ips) u x)

  by_health-Safe :
      (w u : World) (b : Bool) (v : World)
      → Extends Old w u
      → Health w u b v
      → Safe (I w) (λ _ x. I w x) (by_health env cfg.manager d c b v)
  unfolding by_health
  by_health-Safe w u true v x h =
      Probed-last timeout cfg.manager.cluster_ips w _
        (join_cluster-Extends Old-plain env d others.passive cfg.manager c
          others.start_mysqld_in_join)
        v (old h)
  by_health-Safe w u false v x h = Safe-of_final (I w) _ (
      renewed u v x h
        ((bootstrap_node-Any env cfg.manager c cfg.db cfg.log_file_location).holds.at v))

  named :
      (w : World) (n : String) (m : Go (Option Chan)) (v : World)
      → Safe (I w) (λ _ x. I w x) (m v)
      → Safe {A = String × Option Chan} (I w) (λ _ x. I w x) ((do ch ← m; pure (n, ch)) v)
  unfolding pure
  named w n m v h = Safe-bind (I w) (λ _ x. I w x) (λ _ x. I w x) m _ v h (λ ch x k. k)

  launch_by_tests :
      (w : World) (state : String) (u : World) (a b : Bool)
      → Is w state u
      → (state == needs_bootstrap) ≡ a
      → (state == clustered) ≡ b
      → Safe (I w) (λ _ x. I w x) (launch env cfg.manager d c state u)
  launch_by_tests w state u true b (p, x) q r = rw (launch-needs env cfg.manager d c state p q) (
      Safe-bind (I w) (Health w u) (λ _ y. I w y) _ _ u (Health-Safe w u x)
        λ healthy v h. named w clustered _ v (by_health-Safe w u healthy v x h))
  launch_by_tests w state u false true (p, x) q r =
      rw (launch-clustered env cfg.manager d c state p q r) (
        named w clustered _ u (
          Probed-last timeout cfg.manager.cluster_ips w _
            (join_cluster-Extends Old-plain env d others.passive cfg.manager c
              others.start_mysqld_in_join)
            u (old x)))
  launch_by_tests w state u false false (p, x) q r =
      rw (launch-other env cfg.manager d c state p q r) (unfold fail in old x)

  after_chan :
      (w : World) (r : String × Option Chan) (v : World)
      → I w v
      → Safe {A = String × Chan}
          (I w)
          (λ _ x. I w x)
          ((do
            ch ← require_chan r.1
            wait_for_database env cfg.manager d c fuel ch
            d.seed
            d.seed_users
            d.run_post_start_sql
            pure (r.0, ch))
            v)
  unfolding ◌>>=◌
  after_chan w (n, none) v h = h
  after_chan w (n, some ch) v h =
      Old-then w (λ _ x. I w x) _ _
        (wait-for-database-Extends Old-plain env d others.passive cfg.manager c fuel ch) v h
        λ _ w1 h1.
          Old-then w (λ _ x. I w x) _ _ others.seed w1 h1
            λ _ w2 h2.
              Old-then w (λ _ x. I w x) _ _ others.seed_users w2 h2
                λ _ w3 h3.
                  Old-then w (λ _ x. I w x) d.run_post_start_sql _ others.run_post_start_sql w3 h3
                    (λ _ w4 h4. h4)

  abbrev supervising : Chan → Go Unit
  supervising =
      supervise env cfg.manager d (new_upgrader env cfg.upgrader d) s new_galera_init_status_server

  abbrev afterwards : String → Go Unit
  afterwards state = do
    (new_node_state, ch) ← start_node_from_state env cfg.manager d c fuel state
    write_string env cfg.manager new_node_state
    supervising ch

  afterwards-Safe :
      (w : World) (state : String) (u : World)
      → Is w state u
      → Safe (I w) (λ _ x. I w x) (afterwards state u)
  unfolding start_node_from_state
  afterwards-Safe w state u h =
      Safe-bind (I w) (λ _ x. I w x) (λ _ x. I w x) _ _ u
        (Safe-bind (I w) (λ _ x. I w x) (λ _ x. I w x) _ _ u
          (launch_by_tests w state u _ _ h refl refl) (after_chan w))
        λ r v k.
          Old-then w (λ _ x. I w x) _ _ (write_string_call calls env cfg.manager r.0) v k
            λ _ w1 h1.
              Probed-last timeout cfg.manager.cluster_ips w (supervising r.1)
                (supervise-Extends Old-plain env d others.passive cfg.manager c Old-closing
                  (new_upgrader env cfg.upgrader d) fuel r.1)
                w1 h1

  -- With more than one node, a run of `Execute` starts a new cluster only after it has probed every
  -- node and none has answered with status 200, and it has started none before.
  pub execute_configured-Probed :
      (w : World)
      → Probed cfg.manager.cluster_probe_timeout cfg.manager.cluster_ips w
          (final (execute_configured env cfg fuel w))
  unfolding execute_configured execute new_starter
  execute_configured-Probed w = final_of_Safe (I w) _ (
      Safe-bind (I w) (Is w) (λ _ x. I w x) (preparing env cfg fuel) afterwards w
        (Safe-map (Extends Old w) (I w) (Is w) (Is w) (preparing env cfg fuel w) (λ _ x. old x)
          (λ _ _ h. h) (choose_Safe env cfg fuel many w))
        (afterwards-Safe w))

-- ===== src/Starter/Launching.antt =====
-- The cases of the `switch` of `StartNodeFromState` of start_manager/node_starter/starter.go.
use mariadb_ctrl.Prelude.{
  String, ◌==◌, ◌≡◌, refl, Bool, true, false, Option, [], ◌∷◌, if◌then◌else◌,
}
use mariadb_ctrl.Go.Error.{message}
use mariadb_ctrl.Go.World.{Chan}
use mariadb_ctrl.Go.Action.{Go, pure, fail, ◌>>=◌}
use mariadb_ctrl.Env.{Env}
use mariadb_ctrl.Config.{StartManagerConfig}
use mariadb_ctrl.Text.{sprintf}
use mariadb_ctrl.ClusterHealth.{ClusterHealthChecker}
use mariadb_ctrl.DbHelper.{DbHelper}
use mariadb_ctrl.Starter.{
  clustered, needs_bootstrap, single_node, bootstrap_node, join_cluster, launch,
}

module _ (env : Env) (config : StartManagerConfig) (db : DbHelper)
    (checker : ClusterHealthChecker) where
  abbrev pub bootstrapping : Go (Option Chan)
  bootstrapping = bootstrap_node env config db checker

  abbrev pub joining : Go (Option Chan)
  joining = join_cluster env config db checker

  -- joins a healthy cluster, and bootstraps otherwise
  unfoldable pub by_health : Bool → Go (Option Chan)
  by_health healthy = if healthy then joining else bootstrapping

  pub launch-single :
      (state : String)
      → (state == single_node) ≡ true
      → launch env config db checker state ≡ (do ch ← bootstrapping; pure (single_node, ch))
  unfolding launch
  launch-single state p = rw p

  pub launch-needs :
      (state : String)
      → (state == single_node) ≡ false
      → (state == needs_bootstrap) ≡ true
      → launch env config db checker state
        ≡ (do healthy ← checker.healthy_cluster; ch ← by_health healthy; pure (clustered, ch))
  unfolding launch by_health
  launch-needs state p q = rw (p, q)

  pub launch-clustered :
      (state : String)
      → (state == single_node) ≡ false
      → (state == needs_bootstrap) ≡ false
      → (state == clustered) ≡ true
      → launch env config db checker state ≡ (do ch ← joining; pure (clustered, ch))
  unfolding launch
  launch-clustered state p q r = rw (p, q, r)

  pub launch-other :
      (state : String)
      → (state == single_node) ≡ false
      → (state == needs_bootstrap) ≡ false
      → (state == clustered) ≡ false
      → launch env config db checker state
        ≡ fail (message (sprintf "Unsupported state file contents: %s" (state ∷ [])))
  unfolding launch
  launch-other state p q r = rw (p, q, r)

  cases_by_tests :
      (state : String) (Q : Go (String × Option Chan) → Type 0) (a b c : Bool)
      → (state == single_node) ≡ a
      → (state == needs_bootstrap) ≡ b
      → (state == clustered) ≡ c
      → Q (do ch ← bootstrapping; pure (single_node, ch))
      → Q (do healthy ← checker.healthy_cluster; ch ← by_health healthy; pure (clustered, ch))
      → Q (do ch ← joining; pure (clustered, ch))
      → Q (fail (message (sprintf "Unsupported state file contents: %s" (state ∷ []))))
      → Q (launch env config db checker state)
  cases_by_tests state Q true b c p q r h1 h2 h3 h4 = rw (launch-single state p) h1
  cases_by_tests state Q false true c p q r h1 h2 h3 h4 = rw (launch-needs state p q) h2
  cases_by_tests state Q false false true p q r h1 h2 h3 h4 = rw (launch-clustered state p q r) h3
  cases_by_tests state Q false false false p q r h1 h2 h3 h4 = rw (launch-other state p q r) h4

  -- What holds of the four branches holds of the launch.
  pub launch_cases :
      (state : String) (Q : Go (String × Option Chan) → Type 0)
      → Q (do ch ← bootstrapping; pure (single_node, ch))
      → Q (do healthy ← checker.healthy_cluster; ch ← by_health healthy; pure (clustered, ch))
      → Q (do ch ← joining; pure (clustered, ch))
      → Q (fail (message (sprintf "Unsupported state file contents: %s" (state ∷ []))))
      → Q (launch env config db checker state)
  launch_cases state Q = cases_by_tests state Q _ _ _ refl refl refl

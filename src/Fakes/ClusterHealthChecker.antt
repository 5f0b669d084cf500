-- ===== src/Fakes/ClusterHealthChecker.antt =====
-- cluster_health_checker/cluster_health_checkerfakes/fake_cluster_health_checker.go.
use mariadb_ctrl.Prelude.{String, Bool, false, List, []}
use mariadb_ctrl.Fakes.Method.{
  Value, Invocations, recorded, copied, Method, Slot, Double, new_method, new_procedure, double,
}

pub record FakeClusterHealthChecker (S : Type 0) : Type 0 where
  pub healthy_cluster : Method S (Unit {0}) Bool
  pub invocations : Invocations

module _ {S : Type 0} where
  -- `new(FakeClusterHealthChecker)`
  unfoldable pub new_fake_cluster_health_checker : FakeClusterHealthChecker S
  unfolding new_method new_procedure
  new_fake_cluster_health_checker = record { healthy_cluster = new_method false; invocations = [] }

  unfoldable pub invocations : FakeClusterHealthChecker S → Invocations
  unfolding copied
  invocations f = copied f.invocations

  unfoldable pub record_invocation :
      String → List Value → FakeClusterHealthChecker S → FakeClusterHealthChecker S
  unfolding recorded
  record_invocation key args f = record f { invocations = recorded key args f.invocations }

  abbrev pub healthy_cluster_slot : Slot (FakeClusterHealthChecker S) (Method S (Unit {0}) Bool)
  healthy_cluster_slot = record {
    get = λ f. f.healthy_cluster;
    put = λ m f. record f { healthy_cluster = m };
  }

  unfoldable pub healthy_cluster : Double (FakeClusterHealthChecker S) S (Unit {0}) Bool
  unfolding double record_invocation
  healthy_cluster = double healthy_cluster_slot "HealthyCluster" (λ _. []) record_invocation

-- ===== src/ClusterHealth.antt =====
-- cluster_health_checker/cluster_health_checker.go
pub mod Probing
pub mod Timeouts
use Prim.Native.Nat.{◌%◌, ◌^◌}
use Prim.Native.String
use mariadb_ctrl.Prelude.{
  ℕ, ◌*◌, String, Bool, true, false, List, [], ◌∷◌, Option, none, some, nat_eq, if◌then◌else◌,
}
use mariadb_ctrl.Go.World.{probed}
use mariadb_ctrl.Go.Action.{Go, pure, ◌>>=◌, call}
use mariadb_ctrl.Env.{Env}
use mariadb_ctrl.OsHelper.{second}

-- the interface `ClusterHealthChecker`
pub record ClusterHealthChecker : Type 0 where
  pub healthy_cluster : Go Bool

-- `"http://" + ip + ":9200/"`
unfoldable pub probe_url : String → String
probe_url ip = String.◌++◌ (String.◌++◌ "http://" ip) ":9200/"

-- `time.Duration(clusterProbeTimeout) * time.Second`, in 64 bits
unfoldable pub probe_timeout : ℕ → ℕ
probe_timeout timeout = (timeout * second) % 2 ^ 64

-- `resp != nil && resp.StatusCode == 200`
unfoldable pub is_healthy : Option ℕ → Bool
is_healthy none = false
is_healthy (some status) = nat_eq status 200

module _ (env : Env) (timeout : ℕ) where
  -- `MakeRequest`, with the error dropped
  unfoldable pub probe : String → Go (Option ℕ)
  probe ip =
      let url = probe_url ip in
      let limit = probe_timeout timeout in call (λ t. env.http_get t url limit) (probed url limit)

  -- the loop of `HealthyCluster`
  unfoldable pub any_healthy : List String → Go Bool
  unfolding probe is_healthy
  any_healthy [] = pure false
  any_healthy (ip ∷ ips) = do
    status ← probe ip
    let rest = any_healthy ips
    if is_healthy status then pure true else rest

-- `NewClusterHealthChecker`
abbrev pub new_cluster_health_checker : Env → List String → ℕ → ClusterHealthChecker
new_cluster_health_checker env ips timeout = record {
  healthy_cluster = any_healthy env timeout ips;
}

-- ===== src/ClusterHealth/Probing.antt =====
-- `HealthyCluster` of cluster_health_checker/cluster_health_checker.go: the probes and the answer.
use mariadb_ctrl.Prelude.{
  ℕ, String, ◌≡◌, ◌≢◌, refl, ap, Bool, true, false, List, [], ◌∷◌, ◌++◌, Option, none, some,
  if◌then◌else◌, arith,
}
use mariadb_ctrl.Go.World.{World, Event, Trace, probed}
use mariadb_ctrl.Go.Action.{Outcome, returned, pure, logged, ◌>>=◌}
use mariadb_ctrl.Go.Logic.{Has, on_bind, on_call, on_if, on_pure}
use mariadb_ctrl.Go.Quiet.{Quiet, Quiet-Logic}
use mariadb_ctrl.Env.{Env}
use mariadb_ctrl.ClusterHealth.{probe_url, probe_timeout, is_healthy, any_healthy}

healthy-200 : (status : Option ℕ) → is_healthy status ≡ true → status ≡ some 200
unfolding is_healthy
healthy-200 none h = cc
healthy-200 (some n) h = ground arith

not_healthy : (status : Option ℕ) → is_healthy status ≡ false → status ≢ some 200
unfolding is_healthy
not_healthy none h e = cc
not_healthy (some n) h e = ground arith

module _ (timeout : ℕ) where
  abbrev pub probe_event : String → Option ℕ → Event
  probe_event ip status = probed (probe_url ip) (probe_timeout timeout) status

  -- From the trace `t`, each node is probed once and in order, and none answers with 200.
  pub data Unhealthy : List String → Trace → Trace → Type 0 where
    none_left : {t : Trace} → Unhealthy [] t t
    unhealthy :
        {ip : String} {ips : List String} {status : Option ℕ} {t u : Trace}
        → status ≢ some 200
        → Unhealthy ips (probe_event ip status ∷ t) u
        → Unhealthy (ip ∷ ips) t u

  -- The two ways in which the check ends.
  pub data Checked (ips : List String) (w : World) : Outcome Bool → Type 0 where
    healthy :
        (before : List String) (ip : String) (after : List String) {t : Trace}
        → ips ≡ before ++ ip ∷ after
        → Unhealthy before w.trace t
        → Checked ips w (returned true (record w { trace = probe_event ip (some 200) ∷ t }))
    all_unhealthy :
        {t : Trace}
        → Unhealthy ips w.trace t
        → Checked ips w (returned false (record w { trace = t }))

  Checked-cons :
      {ip : String} {ips : List String} {status : Option ℕ} {w : World} {o : Outcome Bool}
      → status ≢ some 200
      → Checked ips (logged (probe_event ip status) w) o
      → Checked (ip ∷ ips) w o
  Checked-cons {ip} bad (healthy before found after e probes) =
      healthy (ip ∷ before) found after (ap (λ l. ip ∷ l) e) (unhealthy bad probes)
  Checked-cons bad (all_unhealthy rest) = all_unhealthy (unhealthy bad rest)

  module _ (env : Env) where
    one_probe :
        (ip : String) (ips : List String) (w : World) (status : Option ℕ) (b : Bool)
        → is_healthy status ≡ b
        → ((v : World) → Checked ips v (any_healthy env timeout ips v))
        → Checked (ip ∷ ips) w (
            (if b then pure true else any_healthy env timeout ips)
              (logged (probe_event ip status) w))
    unfolding pure
    one_probe ip ips w status true h rest =
        rw (healthy-200 status h) (healthy [] ip ips refl none_left)
    one_probe ip ips w status false h rest = Checked-cons (not_healthy status h) (rest _)

    -- The check probes the nodes in order. It answers true right after the first response with
    -- status 200, and false when it has probed every node and none has answered with 200.
    pub any_healthy-Checked :
        (ips : List String) (w : World) → Checked ips w (any_healthy env timeout ips w)
    unfolding any_healthy ◌>>=◌
    any_healthy-Checked [] w = all_unhealthy none_left
    any_healthy-Checked (ip ∷ ips) w =
        one_probe ip ips w (env.http_get w.trace (probe_url ip) (probe_timeout timeout)) _ refl
          (any_healthy-Checked ips)

    pub any_healthy-Quiet : (ips : List String) → Has Quiet (any_healthy env timeout ips)
    unfolding any_healthy
    any_healthy-Quiet [] = on_pure Quiet-Logic false
    any_healthy-Quiet (ip ∷ ips) =
        on_bind Quiet-Logic _ _ (on_call Quiet-Logic _ _ (λ _. tt))
          (λ s. on_if _ _ _ (on_pure Quiet-Logic true) (any_healthy-Quiet ips))

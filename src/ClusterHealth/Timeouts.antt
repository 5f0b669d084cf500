-- ===== src/ClusterHealth/Timeouts.antt =====
-- `HealthyCluster`: the limit of a probe, which is computed in 64 bits with a sign.

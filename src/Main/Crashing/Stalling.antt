-- ===== src/Main/Crashing/Stalling.antt =====
-- Runs on a node whose state file holds only the beginning of CLUSTERED, as a write that has broken
-- off may leave it: no mysqld is started to join, and the file stays as it is.
use mariadb_ctrl.Prelude.{ℕ, String, ◌≢◌, length}
use mariadb_ctrl.Go.World.{World}
use mariadb_ctrl.Go.Action.{Outcome}
use mariadb_ctrl.Go.Relations.{Extends}
use mariadb_ctrl.Go.Safe.{Safe}
use mariadb_ctrl.Env.{Env}
use mariadb_ctrl.Config.{Config}
use mariadb_ctrl.Text.Prefixes.{IsPrefix}
use mariadb_ctrl.Starter.{clustered}
use mariadb_ctrl.Main.Stalling.{Stalls, IsUnknown}

module _ (env : Env) (cfg : Config) (fuel : ℕ) where
  abbrev pub f : String
  f = cfg.manager.state_file_location

  module _ (many : length cfg.manager.cluster_ips ≢ 1) (s : String) (part : IsPrefix s clustered)
      (proper : s ≢ clustered) where
    abbrev m : ℕ
    m = length cfg.manager.cluster_ips

    abbrev Stuck : World → String → World → Type 0
    Stuck w state v = IsUnknown state × Extends Stalls w v

    abbrev Never : World → Outcome Unit → Type 0
    Never w o = Safe (Extends Stalls w) (λ _ _. ⊥) o

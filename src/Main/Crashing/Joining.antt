-- ===== src/Main/Crashing/Joining.antt =====
-- Runs that may break off in a write, on a node that joins: no new cluster is made.
use mariadb_ctrl.Prelude.{ℕ, String, ◌≡◌, ◌≢◌, ◌⊎◌, length}
use mariadb_ctrl.Go.World.{World}
use mariadb_ctrl.Go.Safe.{Safe}
use mariadb_ctrl.Env.{Env}
use mariadb_ctrl.Config.{Config}
use mariadb_ctrl.Starter.{clustered}
use mariadb_ctrl.Main.Recording.{Stores}
use mariadb_ctrl.Main.Rejoining.{J}
use mariadb_ctrl.Main.Tearing.{Tears, Stores-Tears}
use mariadb_ctrl.Main.Stalling.{IsUnknown}

module _ (env : Env) (cfg : Config) (fuel : ℕ) where
  abbrev pub f : String
  f = cfg.manager.state_file_location

  module _ (tears : Tears env f) (many : length cfg.manager.cluster_ips ≢ 1) where
    -- a state from which a run joins, or does nothing
    abbrev Harmless : String → Type 0
    Harmless s = (s ≡ clustered) ⊎ IsUnknown s

    abbrev n : ℕ
    n = length cfg.manager.cluster_ips

    abbrev stores : Stores env f
    stores = Stores-Tears tears

    abbrev Joined : World → World → Type 0
    Joined = J env cfg fuel stores many

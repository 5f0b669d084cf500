-- ===== src/Main/Deploying.antt =====
-- A node that is deployed without the bootstrap flag: its runs from the first on.
use mariadb_ctrl.Prelude.{ℕ, String, ◌≡◌, ◌⊎◌, false, ◌++◌, All}
use mariadb_ctrl.Go.World.{World, Trace}
use mariadb_ctrl.Go.Safe.{Safe}
use mariadb_ctrl.Env.{Env}
use mariadb_ctrl.Config.{Config}
use mariadb_ctrl.Main.Recording.{Recorded, IsKept}

-- The file is not there, and it is not until it is written.
pub record Absent (env : Env) (f : String) (t : Trace) : Type 0 where
  pub stat : (es : Trace) → All (IsKept f) es → env.stat (es ++ t) f ≡ false

-- The node has recorded CLUSTERED, or has recorded nothing yet.
abbrev pub IsMember : Env → String → Trace → Type 0
IsMember env f t = Recorded f t ⊎ Absent env f t

module _ (env : Env) (cfg : Config) (fuel : ℕ) where
  abbrev f : String
  f = cfg.manager.state_file_location

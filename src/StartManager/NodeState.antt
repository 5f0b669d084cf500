-- ===== src/StartManager/NodeState.antt =====
-- start_manager/start_manager.go, `getCurrentNodeState`: the state from which the node is started.
use mariadb_ctrl.Prelude.{
  ℕ, String, ◌==◌, ◌≡◌, refl, Bool, true, false, ◌&&◌, some, [], ◌∷◌, nat_eq, ltb, length,
  if◌then◌else◌, arith,
}
use mariadb_ctrl.Go.Error.{Result, ok, err}
use mariadb_ctrl.Go.World.{World, checked}
use mariadb_ctrl.Go.Action.{Go, ◌>>=◌}
use mariadb_ctrl.Go.Logic.{Logic, Has, logic_rules}
use mariadb_ctrl.Env.{Env}
use mariadb_ctrl.Env.Files.{File, missing, unreadable, contents, Shows, IsRead, result}
use mariadb_ctrl.Config.{StartManagerConfig}
use mariadb_ctrl.Text.{trim_space}
use mariadb_ctrl.Starter.{clustered, needs_bootstrap, single_node}
use mariadb_ctrl.OsHelper.{file_exists, read_file}
use mariadb_ctrl.StartManager.{first_time_deploy, read_state_from_file, get_current_node_state}

-- a recorded state, on a number of nodes: SINGLE_NODE on more than one is a cluster that has grown
abbrev pub recorded : ℕ → String → String
recorded n state = if state == single_node && ltb 1 n then needs_bootstrap else state

-- the state with a state file, on a number of nodes other than one
abbrev pub clustered_state : ℕ → Bool → File → Result String
clustered_state n bootstraps (missing e) = ok (if bootstraps then needs_bootstrap else clustered)
clustered_state n bootstraps (unreadable e) = err e
clustered_state n bootstraps (contents text) = ok (recorded n (trim_space text))

abbrev pub node_state : ℕ → Bool → File → Result String
node_state n bootstraps file =
    if nat_eq n 1 then ok single_node else clustered_state n bootstraps file

module _ (env : Env) (config : StartManagerConfig) (fs : String → File) (w : World)
    (shows : Shows env fs w.trace) where
  abbrev l : String
  l = config.state_file_location

  abbrev n : ℕ
  n = length config.cluster_ips

  single_cases :
      (b : Bool) (file : File)
      → nat_eq n 1 ≡ b
      → fs l ≡ file
      → result (get_current_node_state env config w)
        ≡ some (node_state n config.bootstrap_node file)
  unfolding get_current_node_state ◌>>=◌
  single_cases true file p q = rw p refl
  single_cases false (missing e) p q = ground (arith, shows.stat [] tt l)
  single_cases false (unreadable e) p q =
      ground (arith, shows.stat [] tt l, shows.read (checked l true ∷ []) (tt, tt) l)
  single_cases false (contents s) p q =
      ground (arith, shows.stat [] tt l, shows.read (checked l true ∷ []) (tt, tt) l)

  -- With files that stay as they are while they are looked at, `getCurrentNodeState` returns what
  -- `node_state` says of the number of nodes, the bootstrap flag and the state file.
  pub get_current_node_state-eq-node_state :
      result (get_current_node_state env config w)
      ≡ some (node_state n config.bootstrap_node (fs l))
  get_current_node_state-eq-node_state = single_cases _ _ refl refl

-- Only reads of files decide the state.
module _ {K : (A : Type 0) → Go A → Type 0} (L : Logic K IsRead) (env : Env)
    (config : StartManagerConfig) where
  first_time_call : Has K (first_time_deploy env config)
  unfolding first_time_deploy file_exists
  first_time_call = search (logic_rules, tt)

  state_file_call : Has K (read_state_from_file env config)
  unfolding read_state_from_file read_file
  state_file_call = search (logic_rules, tt)

  pub get_current_node_state_call : Has K (get_current_node_state env config)
  unfolding get_current_node_state
  get_current_node_state_call = search (logic_rules, first_time_call, state_file_call) depth 9

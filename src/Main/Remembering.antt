-- ===== src/Main/Remembering.antt =====
-- start_manager/start_manager.go: the state file is read as it was written.
use mariadb_ctrl.Prelude.{
  ℕ, String, ◌==◌, ◌≡◌, ◌≤◌, refl, ◌∙◌, ap, ◌⊎◌, inl, inr, Bool, true, false, none, some, [], ◌∷◌,
  nat_eq, length, if◌then◌else◌, arith,
}
use mariadb_ctrl.Go.Error.{ok}
use mariadb_ctrl.Go.World.{World, checked}
use mariadb_ctrl.Go.Action.{Go, ◌>>=◌, ◌>>◌}
use mariadb_ctrl.Env.{Env}
use mariadb_ctrl.Env.Files.{contents, result}
use mariadb_ctrl.Config.{StartManagerConfig}
use mariadb_ctrl.Text.{trim_space}
use mariadb_ctrl.Starter.{clustered, needs_bootstrap, single_node}
use mariadb_ctrl.StartManager.{get_current_node_state, write_string}
use mariadb_ctrl.StartManager.NodeState.{node_state}
use mariadb_ctrl.Main.Recording.{Stores}

-- One of the states that the program knows.
abbrev pub IsNodeState : String → Type 0
IsNodeState s = (s ≡ clustered) ⊎ ((s ≡ needs_bootstrap) ⊎ (s ≡ single_node))

-- With a single node there is but one state, and SINGLE_NODE of a deployment that has grown is a
-- cluster to be bootstrapped.
abbrev pub resumed : ℕ → String → String
resumed n s = if nat_eq n 1 then single_node else if s == single_node then needs_bootstrap else s

module _ (env : Env) (config : StartManagerConfig)
    (stores : Stores env config.state_file_location) where
  abbrev n : ℕ
  n = length config.cluster_ips

  abbrev pub remember : String → Go String
  remember s = do write_string env config s; get_current_node_state env config

  remembered :
      (s : String) (w : World) (b : Bool)
      → env.write_file w.trace config.state_file_location s 0o644 ≡ none
      → nat_eq n 1 ≡ b
      → result (remember s w) ≡ some (node_state n config.bootstrap_node (contents s))
  unfolding get_current_node_state write_string ◌>>=◌
  remembered s w true p q = rw (p, q) refl
  remembered s w false p q =
      let l = config.state_file_location in
      rw
        (
          p,
          q,
          stores.stat [] w.trace s 0o644 tt,
          stores.read (checked l true ∷ []) w.trace s 0o644 (tt, tt),
        )
        (ground arith)

  resumed_lem :
      (s : String) (m : ℕ) (bootstraps : Bool)
      → IsNodeState s
      → 1 ≤ m
      → node_state m bootstraps (contents s) ≡ ok (resumed m s)
  unfolding trim_space
  resumed_lem s m bootstraps (inl e) h = rw e (ground arith)
  resumed_lem s m bootstraps (inr (inl e)) h = rw e (ground arith)
  resumed_lem s m bootstraps (inr (inr e)) h = rw e (ground arith)

  -- With a state file that keeps what is written to it and at least one configured node: after one of
  -- the three states has been written without an error, the state that is read back is the one that
  -- was written, except that a single node always has SINGLE_NODE, and that SINGLE_NODE on more than
  -- one node is read as NEEDS_BOOTSTRAP.
  pub remember-resumed :
      (s : String) (w : World)
      → IsNodeState s
      → 1 ≤ n
      → env.write_file w.trace config.state_file_location s 0o644 ≡ none
      → result (remember s w) ≡ some (ok (resumed n s))
  remember-resumed s w known many p =
      remembered s w _ p refl ∙ ap some (resumed_lem s n config.bootstrap_node known many)

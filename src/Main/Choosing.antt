-- ===== src/Main/Choosing.antt =====
-- start_manager/start_manager.go: the decision on the node state with more than one node.
use mariadb_ctrl.Prelude.{
  ℕ, String, ◌==◌, ◌≡◌, ◌<◌, refl, Bool, true, false, ◌&&◌, ◌∷◌, nat_eq, ltb, length, if◌then◌else◌,
  arith,
}
use mariadb_ctrl.Go.Error.{Result, ok, err}
use mariadb_ctrl.Go.World.{World, checked}
use mariadb_ctrl.Go.Action.{Outcome, returned, failed, panicked, blocked, pure, ◌>>=◌}
use mariadb_ctrl.Go.Relations.{Extends}
use mariadb_ctrl.Go.Safe.{ExtendsOnly, Safe, Safe-of_Extends}
use mariadb_ctrl.Env.{Env}
use mariadb_ctrl.Config.{Config, StartManagerConfig}
use mariadb_ctrl.Text.{trim_space}
use mariadb_ctrl.OsHelper.{file_exists, read_file}
use mariadb_ctrl.DbHelper.Operations.{Others}
use mariadb_ctrl.Starter.{clustered, needs_bootstrap, single_node}
use mariadb_ctrl.StartManager.{first_time_deploy, read_state_from_file, get_current_node_state}
use mariadb_ctrl.StartManager.NodeState.{get_current_node_state_call}
use mariadb_ctrl.Main.Extending.{reads, new_db_helper-Extends}
use mariadb_ctrl.Main.Recording.{joining_args, upgrading_args}
use mariadb_ctrl.Main.Preparing.{db, preparing, prepare_Safe}
use mariadb_ctrl.Main.Probed.{Old, Old-plain}

one_is_below : (n : ℕ) → 1 < n → ltb 1 n ≡ true
one_is_below n h = ground arith

not_one : (n : ℕ) → 1 < n → nat_eq n 1 ≡ false
not_one n h = ground arith

Safe-and :
    {A : Type 0} (I : World → Type 0) (Q : A → World → Type 0) (o : Outcome A)
    → Safe I (λ _ v. I v) o
    → Safe (λ _. Unit) Q o
    → Safe I (λ a v. Q a v × I v) o
Safe-and I Q (returned a v) h k = (k, h)
Safe-and I Q (failed e v) h k = h
Safe-and I Q (panicked e v) h k = h
Safe-and I Q (blocked v) h k = h

-- SINGLE_NODE is no state of a deployment with more than one node.
module _ (env : Env) (config : StartManagerConfig) (many : 1 < length config.cluster_ips) where
  abbrev IsOther : String → World → Type 0
  IsOther state w = (state == single_node) ≡ false

  -- what is returned for the contents of the state file
  kept_cases :
      (state : String) (w : World) (b : Bool)
      → (state == single_node) ≡ b
      → Safe
          (λ _. Unit)
          IsOther
          ((if state == single_node && ltb 1 (length config.cluster_ips)
              then pure needs_bootstrap
              else pure state)
            w)
  unfolding pure
  kept_cases state w true p = rw (p, one_is_below _ many) refl
  kept_cases state w false p = rw p p

  first_state : (b : Bool) → ((if b then needs_bootstrap else clustered) == single_node) ≡ false
  first_state true = refl
  first_state false = refl

  file_cases :
      (w : World) (r : Result String) (b : Bool)
      → env.stat w.trace config.state_file_location ≡ b
      → env.read_file (checked config.state_file_location true ∷ w.trace) config.state_file_location
        ≡ r
      → Safe (λ _. Unit) IsOther (get_current_node_state env config w)
  unfolding get_current_node_state first_time_deploy read_state_from_file file_exists read_file
      trim_space ◌>>=◌
  file_cases w r false p q = rw (not_one _ many, p) (first_state config.bootstrap_node)
  file_cases w (err e) true p q = rw (not_one _ many, p, q) tt
  file_cases w (ok text) true p q =
      rw (not_one _ many, p, q) (kept_cases (trim_space text) _ _ refl)

  pub state-IsOther : (w : World) → Safe (λ _. Unit) IsOther (get_current_node_state env config w)
  state-IsOther w = file_cases w _ _ refl refl

module _ (env : Env) (cfg : Config) (fuel : ℕ) (many : 1 < length cfg.manager.cluster_ips) where
  others : Others (ExtendsOnly Old) (db env cfg fuel)
  others =
      new_db_helper-Extends Old-plain env (λ r. upgrading_args) (λ r. joining_args) cfg.db
        cfg.log_file_location

  abbrev pub IsChosen : World → String → World → Type 0
  IsChosen w state v = ((state == single_node) ≡ false) × Extends Old w v

  IsState-Safe :
      (w u : World)
      → Extends Old w u
      → Safe (Extends Old w) (IsChosen w) (get_current_node_state env cfg.manager u)
  IsState-Safe w u x =
      Safe-and (Extends Old w) (λ state _. (state == single_node) ≡ false) _
        (Safe-of_Extends w _ (get_current_node_state_call (reads Old-plain) env cfg.manager) u x)
        (state-IsOther env cfg.manager many u)

  pub choose_Safe : (w : World) → Safe (Extends Old w) (IsChosen w) (preparing env cfg fuel w)
  choose_Safe w = prepare_Safe env cfg fuel Old-plain others.alone w (IsChosen w) (IsState-Safe w)

-- ===== src/Starter/Calls.antt =====
-- start_manager/node_starter/starter.go and start_manager/start_manager.go: the calls before a mysqld is
-- launched and after. What has the rules of `Logic` for reads and writes of files and for probes holds
-- of them.
use mariadb_ctrl.Prelude.{ℕ, String, List, [], ◌∷◌, true, false}
use mariadb_ctrl.Go.Error.{Result, ok, err}
use mariadb_ctrl.Go.World.{Event, read, wrote, probed}
use mariadb_ctrl.Go.Action.{Go}
use mariadb_ctrl.Go.Logic.{Logic, Has, on_bind, on_call, on_check, on_if, on_lift, on_pure}
use mariadb_ctrl.Env.{Env}
use mariadb_ctrl.Config.{StartManagerConfig}
use mariadb_ctrl.OsHelper.{read_file, write_file, write_string_to_file}
use mariadb_ctrl.ClusterHealth.{ClusterHealthChecker, any_healthy}
use mariadb_ctrl.DbHelper.{DbHelper}
use mariadb_ctrl.Starter.{update_grastate}
use mariadb_ctrl.StartManager.{write_string}

abbrev pub IsLaunchCall : Event → Type 0
IsLaunchCall (read f r) = Unit
IsLaunchCall (wrote f c m e) = Unit
IsLaunchCall (probed url limit status) = Unit
IsLaunchCall _ = ⊥

module _ {K : (A : Type 0) → Go A → Type 0} (L : Logic K IsLaunchCall) (env : Env) where
  pub read_file_call : (f : String) → Has K (read_file env f)
  unfolding read_file
  read_file_call f = on_bind L _ _ (on_call L _ _ (λ _. tt)) (on_lift L)

  write_file_call : (f c : String) (m : ℕ) → Has K (write_file env f c m)
  unfolding write_file
  write_file_call f c m = on_bind L _ _ (on_call L _ _ (λ _. tt)) (on_check L)

  pub any_healthy_call : (timeout : ℕ) (ips : List String) → Has K (any_healthy env timeout ips)
  unfolding any_healthy
  any_healthy_call timeout [] = on_pure L false
  any_healthy_call timeout (ip ∷ ips) =
      on_bind L _ _ (on_call L _ _ (λ _. tt))
        (λ status. on_if _ _ _ (on_pure L true) (any_healthy_call timeout ips))

  module _ (config : StartManagerConfig) where
    pub update_grastate_call :
        (db : DbHelper) (checker : ClusterHealthChecker) (r : Result String)
        → Has K (update_grastate env config db checker r)
    update_grastate_call db checker (ok text) = write_file_call _ _ _
    update_grastate_call db checker (err e) = on_pure L tt

    pub write_string_call : (contents : String) → Has K (write_string env config contents)
    unfolding write_string write_string_to_file
    write_string_call contents = write_file_call _ _ _

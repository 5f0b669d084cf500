-- ===== src/Starter/Grastate.antt =====
-- `bootstrapNode` of start_manager/node_starter/starter.go and the file grastate.dat, which Galera reads
-- when a new cluster is started.
use mariadb_ctrl.Prelude.{String, ◌≡◌, refl, false, Option, none, some, ◌∷◌}
use mariadb_ctrl.Go.Error.{Error, Result, ok, err}
use mariadb_ctrl.Go.World.{World, Chan, read, wrote}
use mariadb_ctrl.Go.Action.{Outcome, failed, Go, logged, pure, ◌>>=◌, ◌>>◌}
use mariadb_ctrl.Env.{Env}
use mariadb_ctrl.Config.{StartManagerConfig}
use mariadb_ctrl.Text.{begins_with, occurs, replace_all}
use mariadb_ctrl.Text.Replaced.{clashes, tails_clash, occurs-replace_all}
use mariadb_ctrl.OsHelper.{read_file, write_file, wait_for_command}
use mariadb_ctrl.ClusterHealth.{ClusterHealthChecker}
use mariadb_ctrl.DbHelper.{DbHelper}
use mariadb_ctrl.Starter.{unsafe_flag, safe_flag, set_mysql_cmd, bootstrap_node}

abbrev pub rewritten : String → String
rewritten text = replace_all text unsafe_flag safe_flag

rewritten_safe : (text : String) → occurs unsafe_flag (rewritten text) ≡ false
unfolding clashes tails_clash begins_with
rewritten_safe = occurs-replace_all unsafe_flag safe_flag refl refl refl

module _ (env : Env) (config : StartManagerConfig) (db : DbHelper)
    (checker : ClusterHealthChecker) where
  abbrev g : String
  g = config.grastate_file_location

  -- the start of mysqld as a new cluster, with its command kept
  abbrev pub launching : Go (Option Chan)
  launching = do
    cmd ← db.start_mysqld_in_bootstrap
    set_mysql_cmd cmd
    ch ← wait_for_command cmd
    pure (some ch)

  -- How `bootstrapNode` ends.
  pub data Bootstrapped (w : World) : Outcome (Option Chan) → Type 0 where
    unread : (e : Error) → Bootstrapped w (launching (logged (read g (err e)) w))
    unwritten :
        (text : String) (e : Error)
        → Bootstrapped w (
            failed e
              (logged (wrote g (rewritten text) 0o777 (some e)) (logged (read g (ok text)) w)))
    made_safe :
        (text : String)
        → occurs unsafe_flag (rewritten text) ≡ false
        → Bootstrapped w
            (launching (logged (wrote g (rewritten text) 0o777 none) (logged (read g (ok text)) w)))

  write_cases :
      (w : World) (text : String) (r : Option Error)
      → env.write_file (read g (ok text) ∷ w.trace) g (rewritten text) 0o777 ≡ r
      → env.read_file w.trace g ≡ ok text
      → Bootstrapped w (bootstrap_node env config db checker w)
  unfolding bootstrap_node read_file write_file ◌>>=◌
  write_cases w text none p q = rw (q, p) (made_safe text (rewritten_safe text))
  write_cases w text (some e) p q = rw (q, p) (unwritten text e)

  read_cases :
      (w : World) (r : Result String)
      → env.read_file w.trace g ≡ r
      → Bootstrapped w (bootstrap_node env config db checker w)
  unfolding bootstrap_node read_file write_file ◌>>=◌
  read_cases w (ok text) q = write_cases w text _ refl q
  read_cases w (err e) q = rw q (unread e)

  -- `bootstrapNode` starts mysqld as a new cluster at once when it cannot read grastate.dat. Otherwise
  -- it first writes the file with each `safe_to_bootstrap: 0` turned into `safe_to_bootstrap: 1`, so
  -- that the former no longer occurs, and starts nothing when that write fails.
  pub bootstrap_node-Bootstrapped :
      (w : World) → Bootstrapped w (bootstrap_node env config db checker w)
  bootstrap_node-Bootstrapped w = read_cases w _ refl

-- ===== src/StartManager/Ending.antt =====
-- start_manager/start_manager.go: the ways in which `Execute` ends.
use mariadb_ctrl.Prelude.{
  String, ℕ, ◌≡◌, refl, subst, ap, ◌∙◌, Bool, true, false, Option, none, some, ◌∷◌, if◌then◌else◌,
}
use mariadb_ctrl.Go.Error.{Error}
use mariadb_ctrl.Go.World.{World, Trace, Chan, wrote}
use mariadb_ctrl.Go.Action.{returned, Go, pure, ◌>>=◌, ◌>>◌}
use mariadb_ctrl.Go.Logic.{Logic, Logic-restrict, Has}
use mariadb_ctrl.Go.Total.{
  Total, Total-bind, Total-bind_from, Total-map, Total-pure, IsSound, Answers,
}
use mariadb_ctrl.Go.Quiet.{
  Quiet, Quiet-Logic, Quiet-IsSound, Frame-logged, ProcessesEnd, sound_then,
}
use mariadb_ctrl.Env.{Env}
use mariadb_ctrl.Env.Files.{IsRead}
use mariadb_ctrl.Config.{StartManagerConfig, UpgraderConfig}
use mariadb_ctrl.OsHelper.{write_string_to_file, write_file}
use mariadb_ctrl.ClusterHealth.{ClusterHealthChecker}
use mariadb_ctrl.DbHelper.{DbHelper}
use mariadb_ctrl.DbHelper.Confined.{IsQuiet}
use mariadb_ctrl.Upgrader.{new_upgrader}
use mariadb_ctrl.Upgrader.Versions.{needs_upgrade_call}
use mariadb_ctrl.Upgrader.Ending.{upgrade-Total}
use mariadb_ctrl.StatusServer.{new_galera_init_status_server}
use mariadb_ctrl.Starter.{Starter, new_starter, start_node_from_state}
use mariadb_ctrl.Starter.Settling.{Settles}
use mariadb_ctrl.Starter.Running.{
  IsRunning, IsRunning-Frame, IsReady, Launches, next_state, start_node_from_state-Total,
}
use mariadb_ctrl.StartManager.{write_string, shutdown, supervise, prepare, execute}
use mariadb_ctrl.StartManager.NodeState.{get_current_node_state_call}
use mariadb_ctrl.StartManager.Supervision.{Supervised, Wakes, supervise-Total}

-- A run of `Execute` from `w` to `v` has decided on the node state `from`, has started the node from that
-- state, has written the state that follows to the state file, and has supervised the mysqld of that node
-- until it has exited.
pub record Executed (env : Env) (config : StartManagerConfig) (db : DbHelper)
    (checker : ClusterHealthChecker) (upgrader : UpgraderConfig) (fuel : ℕ) (w v : World)
    : Type 0 where
  pub from : String
  pub u : World
  pub decided :
      prepare env config db
        (new_upgrader env upgrader db)
        (new_starter env config db checker fuel)
        new_galera_init_status_server
        w
      ≡ returned from u
  pub ch : Chan
  pub x : World
  pub launched :
      start_node_from_state env config db checker fuel from u ≡ returned (next_state from, ch) x
  pub ended :
      Supervised ch
        (wrote config.state_file_location (next_state from) 0o644 none ∷ x.trace)
        v.trace

reads : Logic Quiet IsRead
reads = Logic-restrict Quiet-Logic (λ e h. tt)

module _ (env : Env) (config : StartManagerConfig) where
  abbrev Written : Chan → String → Trace → World → Type 0
  Written ch state t v =
      (v.trace ≡ wrote config.state_file_location state 0o644 none ∷ t) × IsRunning ch v

  write_cases :
      (ch : Chan) (state : String) (w : World) (e : Option Error)
      → env.write_file w.trace config.state_file_location state 0o644 ≡ e
      → IsRunning ch w
      → Total (λ _ v. Written ch state w.trace v) (write_string env config state w)
  unfolding write_string write_string_to_file write_file ◌>>=◌
  write_cases ch state w none p h = rw p (refl, IsRunning-Frame (Frame-logged _ w) h)
  write_cases ch state w (some e) p h = rw p tt

  -- what `Execute` does once the state is known
  module _ (db : DbHelper) (quiet : IsQuiet db) (launches : Launches db)
      (checker : ClusterHealthChecker) (q : Has Quiet checker.healthy_cluster)
      (exits : ProcessesEnd env) (wakes : Wakes env) (fuel : ℕ)
      (answers : Answers db.is_database_reachable) (settles : Settles env db fuel)
      (upgrader : UpgraderConfig) where
    abbrev starter : Starter
    starter = new_starter env config db checker fuel

    abbrev supervising : Chan → Go Unit
    supervising =
        supervise env config db (new_upgrader env upgrader db) starter new_galera_init_status_server

    abbrev afterwards : String → Go Unit
    afterwards state = do
      (new_node_state, ch) ← start_node_from_state env config db checker fuel state
      write_string env config new_node_state
      supervising ch

    abbrev preparing : Go String
    preparing =
        prepare env config db (new_upgrader env upgrader db) starter new_galera_init_status_server

    abbrev IsExecuted : World → World → Type 0
    IsExecuted w v = Executed env config db checker upgrader fuel w v

    after_write :
        (w u : World) (state n : String) (ch : Chan) (x v : World)
        → preparing w ≡ returned state u
        → start_node_from_state env config db checker fuel state u ≡ returned (n, ch) x
        → n ≡ next_state state
        → Written ch n x.trace v
        → Total (λ _ y. IsExecuted w y) (supervising ch v)
    after_write w u state n ch x v decided launched e (p, r) =
        Total-map (λ _ y. Supervised ch v.trace y.trace) (λ _ y. IsExecuted w y) (supervising ch v)
          (λ _ y s. record {
            from = state;
            u = u;
            decided = decided;
            ch = ch;
            x = x;
            launched =
                subst
                  (λ m.
                    start_node_from_state env config db checker fuel state u ≡ returned (m, ch) x)
                  e launched;
            ended =
                subst (λ t. Supervised ch t y.trace)
                  (p ∙ ap (λ m. wrote config.state_file_location m 0o644 none ∷ x.trace) e) s;
          })
          (supervise-Total env config db (new_upgrader env upgrader db) checker fuel exits wakes ch
            v r)

    afterwards-Total :
        (w u : World) (state : String)
        → preparing w ≡ returned state u
        → IsSound u
        → Total (λ _ v. IsExecuted w v) (afterwards state u)
    afterwards-Total w u state decided h =
        Total-bind_from (IsReady state) (λ _ v. IsExecuted w v) _ _ u
          (start_node_from_state-Total env config db checker quiet launches q fuel answers settles
            state u h)
          λ r x launched (e, k).
            Total-bind (λ _ v. Written r.1 r.0 x.trace v) (λ _ v. IsExecuted w v) _ _ x
              (write_cases r.1 r.0 x _ refl k)
              λ _ v l. after_write w u state r.0 r.1 x v decided launched e l

    IsSound-if :
        (b : Bool) (m : Go Unit) (w : World)
        → Total (λ _ v. IsSound v) (m w)
        → IsSound w
        → Total (λ _ v. IsSound v) ((if b then m else pure tt) w)
    IsSound-if true m w h k = h
    IsSound-if false m w h k = Total-pure (λ _ v. IsSound v) tt w k

    prepare-Total : (w : World) → IsSound w → Total (λ _ v. IsSound v) (preparing w)
    unfolding prepare shutdown new_upgrader
    prepare-Total w h = sound_then _ _ _ quiet.is_process_running w h λ running w1 h1.
        Total-bind (λ _ v. IsSound v) (λ _ v. IsSound v) _ _ w1
          (IsSound-if running _ w1 (Quiet-IsSound _ quiet.stop_mysqld w1 h1) h1)
          λ _ w2 h2. sound_then _ _ _ (needs_upgrade_call reads env upgrader) w2 h2 λ needed w3 h3.
            Total-bind (λ _ v. IsSound v) (λ _ v. IsSound v) _ _ w3
              (IsSound-if needed _ w3 (upgrade-Total env db quiet exits w3 h3) h3)
              λ _ w4 h4. Quiet-IsSound _ (get_current_node_state_call reads env config) w4 h4

    pub execute-Total :
        (w : World)
        → IsSound w
        → Total
            (λ _ v. IsExecuted w v)
            (execute env config db
              (new_upgrader env upgrader db)
              starter
              new_galera_init_status_server
              w)
    unfolding execute new_starter
    execute-Total w h =
        Total-bind_from (λ _ v. IsSound v) (λ _ v. IsExecuted w v) preparing afterwards w
          (prepare-Total w h) (λ state u decided k. afterwards-Total w u state decided k)

-- ===== src/Main/Signalling/Ending.antt =====
-- start_manager/start_manager.go: what the end of `Execute` does to mysqld, and when.
use mariadb_ctrl.Prelude.{
  ℕ, String, ◌≡◌, refl, ap, ◌∙◌, Bool, true, false, Option, none, some, ◌∷◌, ◌++◌, [],
}
use mariadb_ctrl.Go.Error.{Error, wrap}
use mariadb_ctrl.Go.World.{World, Trace, Chan, received, wrote, served, cancelled, signalled}
use mariadb_ctrl.Go.Action.{final, ◌>>=◌, check}
use mariadb_ctrl.Go.Channel.{receive, receive_or_done, is_drained}
use mariadb_ctrl.Go.Relations.{Extends}
use mariadb_ctrl.Go.Safe.{
  ExtendsOnly, Safe, Safe-bind, Safe-map, Safe-of_final, final_of_Safe, Safe-of_Extends,
}
use mariadb_ctrl.Env.{Env, Wake, exit, done}
use mariadb_ctrl.Config.{Config}
use mariadb_ctrl.OsHelper.{sigterm, kill_command, write_string_to_file, write_file}
use mariadb_ctrl.DbHelper.Operations.{StandAlone}
use mariadb_ctrl.StatusServer.{new_galera_init_status_server, start}
use mariadb_ctrl.Starter.{new_starter, get_mysql_cmd}
use mariadb_ctrl.StartManager.{write_string, supervise, execute}
use mariadb_ctrl.StartManager.NodeState.{get_current_node_state_call}
use mariadb_ctrl.Main.{execute_configured}
use mariadb_ctrl.Main.Extending.{reads, new_db_helper-StandAlone-Extends}
use mariadb_ctrl.Main.Preparing.{db, starter, upgrader, preparing, prepare_Safe}
use mariadb_ctrl.Main.Stalling.{restarting}
use mariadb_ctrl.Main.Signalling.{
  IsEarly, IsEarly-plain, Attended, waits, exits, signals, ends, Attends, unattended, attended,
  Live,
}
use mariadb_ctrl.Main.Signalling.Starting.{Early-step}
use mariadb_ctrl.Main.Signalling.Waiting.{Ready, start_node_Safe}

module _ (env : Env) (cfg : Config) (fuel : ℕ) (w : World) where
  abbrev f : String
  f = cfg.manager.state_file_location

  abbrev I : World → Type 0
  I v = Extends IsEarly w v

  -- The state has been written, without an error, with mysqld alive.
  record Written (ch : Chan) (v : World) : Type 0 where
    pub before : World
    pub state : String
    pub live : Live w ch before
    pub grown : v.trace ≡ wrote f state 0o644 none ∷ before.trace
    pub kept : v.mysql_cmd ≡ some ch.cmd

  write_cases :
      (ch : Chan) (state : String) (u : World) (r : Option Error)
      → env.write_file u.trace f state 0o644 ≡ r
      → Live w ch u
      → Safe I (λ _ v. Written ch v) (write_string env cfg.manager state u)
  unfolding write_string write_string_to_file write_file ◌>>=◌ check
  write_cases ch state u none p h =
      rw p (record { before = u; state = state; live = h; grown = refl; kept = h.kept })
  write_cases ch state u (some e) p h = rw p (
      Early-step w u _ (wrote f state 0o644 (some e)) tt refl
        (record { added = h.added; grown = h.grown; all = h.early }))

  module _ (ch : Chan) (u : World) (h : Written ch u) where
    ending :
        (tail : Trace) (v : World)
        → Attended h.live.pid tail
        → v.trace ≡ tail ++ u.trace
        → Attends f w v
    ending tail v a p =
        let all_grown : u.trace ≡ wrote f h.state 0o644 none ∷ (h.live.added ++ w.trace) =
          h.grown ∙ ap (λ t. wrote f h.state 0o644 none ∷ t) h.live.grown in
        attended h.live.added tail h.live.pid h.state h.live.early h.live.lives a
          (p ∙ ap (λ t. tail ++ t) all_grown)

    after_signal :
        (c : Chan) (v : World) (d : Bool) (x : Option (Option Error))
        → v.trace ≡ signalled h.live.pid sigterm none ∷ cancelled ∷ served ∷ u.trace
        → is_drained c v ≡ d
        → env.wait_exit v.trace c.cmd ≡ x
        → Attends f w (final ((do e ← receive env c; check e) v))
    unfolding receive ◌>>=◌ check
    after_signal c v true x g p q = rw p (ending _ v (signals none) g)
    after_signal c v false none g p q = rw (p, q) (ending _ v (signals none) g)
    after_signal c v false (some none) g p q =
        rw (p, q) (ending _ _ (ends c.ref none) (ap (λ t. received c.ref none ∷ t) g))
    after_signal c v false (some (some e)) g p q =
        rw (p, q) (ending _ _ (ends c.ref (some e)) (ap (λ t. received c.ref (some e) ∷ t) g))

    supervise_cases :
        (d : Bool) (wake : Option Wake) (s : Option Error)
        → is_drained ch u ≡ d
        → env.select_exit (served ∷ u.trace) ch.cmd ≡ wake
        → env.signal (cancelled ∷ served ∷ u.trace) h.live.pid sigterm ≡ s
        → Attends f w (
            final (
              supervise env cfg.manager
                (db env cfg fuel)
                (upgrader env cfg fuel)
                (starter env cfg fuel)
                new_galera_init_status_server
                ch
                u))
    unfolding supervise start new_starter kill_command receive_or_done ◌>>=◌ wrap check
        get_mysql_cmd
    supervise_cases true none s p q r = rw (p, q) (ending (served ∷ []) _ waits refl)
    supervise_cases true (some (exit e)) s p q r = rw (p, q) (ending (served ∷ []) _ waits refl)
    supervise_cases false none s p q r = rw (p, q) (ending (served ∷ []) _ waits refl)
    supervise_cases false (some (exit none)) s p q r =
        rw (p, q) (ending _ _ (exits ch.ref none) refl)
    supervise_cases false (some (exit (some e))) s p q r =
        rw (p, q) (ending _ _ (exits ch.ref (some e)) refl)
    supervise_cases true (some done) (some e) p q r =
        rw (p, q, h.kept, h.live.process, r) (ending _ _ (signals (some e)) refl)
    supervise_cases false (some done) (some e) p q r =
        rw (p, q, h.kept, h.live.process, r) (ending _ _ (signals (some e)) refl)
    supervise_cases true (some done) none p q r =
        rw (p, q, h.kept, h.live.process, r) (after_signal _ _ _ _ refl refl refl)
    supervise_cases false (some done) none p q r =
        rw (p, q, h.kept, h.live.process, r) (after_signal _ _ _ _ refl refl refl)

  alone : StandAlone (ExtendsOnly IsEarly) (db env cfg fuel)
  alone = new_db_helper-StandAlone-Extends IsEarly-plain env (λ r. tt) cfg.db cfg.log_file_location

  preparing_Safe : Safe I (λ _ v. I v) (preparing env cfg fuel w)
  preparing_Safe =
      prepare_Safe env cfg fuel IsEarly-plain alone w (λ _ v. I v)
        λ v x.
          Safe-of_Extends w _ (get_current_node_state_call (reads IsEarly-plain) env cfg.manager) v
            x

  abbrev IsAttending : {A : Type 0} → A → World → Type 0
  IsAttending a v = Attends f w v

  restarting_Safe :
      (state : String) (u : World)
      → I u
      → Safe (Attends f w) IsAttending (restarting env cfg fuel state u)
  restarting_Safe state u x =
      Safe-bind (Attends f w) (Ready env cfg fuel w) IsAttending _ _ u
        (Safe-map I (Attends f w) (Ready env cfg fuel w) (Ready env cfg fuel w) _
          (λ v y. unattended y) (λ r v h. h) (start_node_Safe env cfg fuel w state u x))
        λ r u1 h1.
          Safe-bind (Attends f w) (λ _ v. Written r.1 v) IsAttending _ _ u1
            (Safe-map I (Attends f w) (λ _ v. Written r.1 v) (λ _ v. Written r.1 v) _
              (λ v y. unattended y) (λ _ v h. h) (write_cases r.1 r.0 u1 _ refl h1))
            λ _ u2 h2.
              Safe-of_final (Attends f w) _ (supervise_cases r.1 u2 h2 _ _ _ refl refl refl)

  -- SIGTERM comes last. However a run of `Execute` ends: either it has not started the status server,
  -- looked at the context, or sent a signal; or it has written the new state to the state file, without
  -- an error, after it has started a mysqld whose exit it has not received, and since then it has only
  -- started the status server and waited: then it has received an exit, or the end of the context, and
  -- in that case it has sent SIGTERM to the process of that mysqld, once, and, unless that failed, may
  -- have received an exit. Before the state is written it has done none of these three.
  pub execute_configured-Attends : Attends f w (final (execute_configured env cfg fuel w))
  unfolding execute_configured execute new_starter
  execute_configured-Attends = final_of_Safe (Attends f w) _ (
      Safe-bind (Attends f w) (λ _ v. I v) IsAttending (preparing env cfg fuel)
        (restarting env cfg fuel) w
        (Safe-map I (Attends f w) (λ _ v. I v) (λ _ v. I v) _ (λ v y. unattended y) (λ _ v h. h)
          preparing_Safe)
        restarting_Safe)

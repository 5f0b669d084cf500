-- ===== src/StartManager/Supervision.antt =====
-- start_manager/start_manager.go, the end of `Execute`: the wait for mysqld or for the context.
use mariadb_ctrl.Prelude.{ℕ, ◌≡◌, ◌≢◌, refl, Option, none, some, ◌∷◌}
use mariadb_ctrl.Go.Error.{Error, wrap}
use mariadb_ctrl.Go.World.{World, Trace, Cmd, Chan, served, cancelled, signalled, received}
use mariadb_ctrl.Go.Action.{returned, logged, ◌>>=◌, check}
use mariadb_ctrl.Go.Total.{Total, Total-bind}
use mariadb_ctrl.Go.Quiet.{IsOpen, IsOpen-Frame, Frame-logged, ProcessesEnd}
use mariadb_ctrl.Go.Channel.{receive, receive_or_done}
use mariadb_ctrl.Env.{Env, Wake, exit, done}
use mariadb_ctrl.Config.{StartManagerConfig}
use mariadb_ctrl.OsHelper.{sigterm, kill_command, send_signal}
use mariadb_ctrl.ClusterHealth.{ClusterHealthChecker}
use mariadb_ctrl.DbHelper.{DbHelper}
use mariadb_ctrl.Upgrader.{Upgrader}
use mariadb_ctrl.StatusServer.{new_galera_init_status_server, start}
use mariadb_ctrl.Starter.{Starter, new_starter, get_mysql_cmd}
use mariadb_ctrl.Starter.Running.{IsRunning, IsRunning-Frame}
use mariadb_ctrl.StartManager.{terminate, supervise}

-- How the supervision of the channel's command ends without an error, after the trace `t`: the
-- command exits by itself, or the context ends and SIGTERM is delivered to its process first.
pub data Supervised (ch : Chan) (t : Trace) : Trace → Type 0 where
  exited_itself : Supervised ch t (received ch.ref none ∷ served ∷ t)
  terminated :
      (pid : ℕ)
      → ch.cmd.process ≡ some pid
      → Supervised ch t (received ch.ref none ∷ signalled pid sigterm none ∷ cancelled ∷ served ∷ t)

-- Either the process exits or the context ends.
abbrev pub Wakes : Env → Type 0
Wakes env = (t : Trace) (cmd : Cmd) → env.select_exit t cmd ≢ none

-- what is known after the `select`
abbrev Woken : Chan → Trace → Wake → World → Type 0
Woken ch t (exit e) v = v.trace ≡ received ch.ref e ∷ t
Woken ch t done v = (v.trace ≡ cancelled ∷ t) × IsRunning ch v

-- what is known after the signal
abbrev Signalled : Chan → Trace → World → Type 0
Signalled ch t v =
    (pid : ℕ) × (ch.cmd.process ≡ some pid)
    × (v.trace ≡ signalled pid sigterm none ∷ t)
    × IsOpen ch v

module _ (env : Env) (ch : Chan) where
  wake_cases :
      (w : World) (r : Option Wake)
      → env.select_exit w.trace ch.cmd ≡ r
      → r ≢ none
      → IsRunning ch w
      → Total (Woken ch w.trace) (receive_or_done env ch w)
  unfolding receive_or_done
  wake_cases w none p some_wake h = absurd (some_wake refl)
  wake_cases w (some (exit e)) p some_wake h = rw (h.is_open.undrained, p) refl
  wake_cases w (some done) p some_wake h =
      rw (h.is_open.undrained, p) (refl, IsRunning-Frame (Frame-logged cancelled w) h)

  signal_cases :
      (pid : ℕ) (w : World) (e : Option Error)
      → ch.cmd.process ≡ some pid
      → env.signal w.trace pid sigterm ≡ e
      → IsOpen ch w
      → Total (λ _ v. Signalled ch w.trace v) (send_signal env (some pid) sigterm w)
  unfolding ◌>>=◌ wrap
  signal_cases pid w none q p h =
      rw p (pid, q, refl, IsOpen-Frame (Frame-logged (signalled pid sigterm none) w) h)
  signal_cases pid w (some e) q p h = rw p tt

  kill_cases :
      (process : Option ℕ) (w : World)
      → ch.cmd.process ≡ process
      → IsOpen ch w
      → Total (λ _ v. Signalled ch w.trace v) (send_signal env process sigterm w)
  unfolding ◌>>=◌
  kill_cases none w q h = tt
  kill_cases (some pid) w q h = signal_cases pid w _ q refl h

  kill-Total :
      (w : World)
      → IsOpen ch w
      → Total (λ _ v. Signalled ch w.trace v) (kill_command env (some ch.cmd) sigterm w)
  unfolding kill_command
  kill-Total w h = kill_cases ch.cmd.process w refl h

  exit_cases :
      (w : World) (r : Option (Option Error))
      → env.wait_exit w.trace ch.cmd ≡ r
      → r ≢ none
      → IsOpen ch w
      → Total (λ e v. v.trace ≡ received ch.ref e ∷ w.trace) (receive env ch w)
  unfolding receive
  exit_cases w none p some_exit h = absurd (some_exit refl)
  exit_cases w (some e) p some_exit h = rw (h.undrained, p) refl

-- what an action knows when it has received the error `e` after the trace `t`, and checks it
checked_exit :
    (ch : Chan) (t : Trace) (u : Trace) (e : Option Error) (v : World)
    → v.trace ≡ received ch.ref e ∷ u
    → Supervised ch t (received ch.ref none ∷ u)
    → Total (λ _ x. Supervised ch t x.trace) (check e v)
unfolding check ◌>>=◌
checked_exit ch t u none v p s = rw p s
checked_exit ch t u (some e) v p s = tt

module _ (env : Env) (config : StartManagerConfig) (db : DbHelper) (upgrader : Upgrader)
    (checker : ClusterHealthChecker) (fuel : ℕ) (exits : ProcessesEnd env) (wakes : Wakes env) where
  abbrev starter : Starter
  starter = new_starter env config db checker fuel

  got_cmd :
      (w : World) (ch : Chan)
      → w.mysql_cmd ≡ some ch.cmd
      → get_mysql_cmd w ≡ returned (some ch.cmd) w
  unfolding get_mysql_cmd
  got_cmd w ch p = rw p refl

  terminate_done :
      (ch : Chan) (t : Trace) (w : World)
      → w.trace ≡ cancelled ∷ served ∷ t
      → IsRunning ch w
      → Total
          (λ _ v. Supervised ch t v.trace)
          (terminate env config db upgrader starter new_galera_init_status_server ch done w)
  unfolding new_starter ◌>>=◌
  terminate_done ch t w p h = rw (got_cmd w ch h.kept) (
      Total-bind (λ _ v. Signalled ch w.trace v) (λ _ v. Supervised ch t v.trace)
        (kill_command env (some ch.cmd) sigterm) _ w (kill-Total env ch w h.is_open)
        λ _ v (pid, q, r, o).
          Total-bind (λ e x. x.trace ≡ received ch.ref e ∷ v.trace) (λ _ x. Supervised ch t x.trace)
            (receive env ch) check v (exit_cases env ch v _ refl (exits v.trace ch.cmd) o)
            λ e x s. checked_exit ch t v.trace e x s (rw (r, p) (terminated pid q)))

  after_wake :
      (ch : Chan) (t : Trace) (wake : Wake) (w : World)
      → Woken ch (served ∷ t) wake w
      → Total
          (λ _ v. Supervised ch t v.trace)
          (terminate env config db upgrader starter new_galera_init_status_server ch wake w)
  after_wake ch t (exit e) w h = checked_exit ch t (served ∷ t) e w h exited_itself
  after_wake ch t done w h = terminate_done ch t w h.0 h.1

  -- The supervision of a mysqld whose command is kept and whose channel is open comes to an end when
  -- every process ends and either the exit of mysqld or the end of the context wakes it. It ends without an error only when mysqld has exited with none, either by itself
  -- or after SIGTERM was delivered to the process of the channel's command.
  pub supervise-Total :
      (ch : Chan) (w : World)
      → IsRunning ch w
      → Total
          (λ _ v. Supervised ch w.trace v.trace)
          (supervise env config db upgrader starter new_galera_init_status_server ch w)
  unfolding supervise ◌>>=◌ start
  supervise-Total ch w h =
      Total-bind (Woken ch (served ∷ w.trace)) (λ _ v. Supervised ch w.trace v.trace)
        (receive_or_done env ch) _ (logged served w)
        (wake_cases env ch (logged served w) _ refl (wakes _ ch.cmd)
          (IsRunning-Frame (Frame-logged served w) h))
        (λ wake v k. after_wake ch w.trace wake v k)

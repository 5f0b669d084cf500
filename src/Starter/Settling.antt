-- ===== src/Starter/Settling.antt =====
-- `waitForDatabaseToAcceptConnections` of start_manager/node_starter/starter.go: the end of the wait,
-- and the channel after it.
use mariadb_ctrl.Prelude.{ℕ, ◌≡◌, refl, Bool, true, false, Option, none, some, ◌∷◌, arith}
use mariadb_ctrl.Go.Error.{Error, ok}
use mariadb_ctrl.Go.World.{World, Trace, Cmd, Chan, started, polled, slept}
use mariadb_ctrl.Go.Action.{Outcome, Go, returned, logged}
use mariadb_ctrl.Go.Channel.{poll, is_drained}
use mariadb_ctrl.Go.Relations.{Frame, Frame-IsPreorder}
use mariadb_ctrl.Go.Total.{Answers, Total}
use mariadb_ctrl.Go.Quiet.{IsOpen, Frame-logged, Frame-of_returned}
use mariadb_ctrl.Env.{Env}
use mariadb_ctrl.Config.{StartManagerConfig}
use mariadb_ctrl.ClusterHealth.{ClusterHealthChecker}
use mariadb_ctrl.DbHelper.{DbHelper}
use mariadb_ctrl.DbHelper.Confined.{IsQuiet}
use mariadb_ctrl.Starter.{wait_for_database}
use mariadb_ctrl.Starter.Waiting.{
  Rounds, start, again, Waited, reachable, exited, unfinished, wait_for_database_iff,
}

-- The command has just been started: its process is there, and nothing has been done since.
pub record IsStarted (cmd : Cmd) (w : World) : Type 0 where
  pub pid : ℕ
  pub process : cmd.process ≡ some pid
  pub earlier : Trace
  pub newest : w.trace ≡ started cmd.executable cmd.args (ok pid) ∷ earlier

-- When it returns, it has just started the command that it returns.
abbrev pub Starts : Go Cmd → Type 0
Starts m = (w : World) → Total IsStarted (m w)

-- In `fuel` rounds of polling from the start of a mysqld on, whose exit can be received, it has exited or
-- the database is reachable.
abbrev pub Settles : Env → DbHelper → ℕ → Type 0
Settles env db fuel =
    (ch : Chan) (w u : World) → IsStarted ch.cmd w → IsOpen ch w → ¬ (Rounds env db ch fuel w u)

poll-false_cases :
    (env : Env) (ch : Chan) (w x : World) (drained : Bool) (r : Option (Option Error))
    → is_drained ch w ≡ drained
    → env.poll_exit w.trace ch.cmd ≡ r
    → poll env ch w ≡ returned false x
    → x ≡ logged (polled ch.ref) w
unfolding poll
poll-false_cases env ch w x true r p q e = ground arith
poll-false_cases env ch w x false none p q e = ground arith
poll-false_cases env ch w x false (some y) p q e = ground arith

-- A poll that finds no exit does nothing else.
pub poll-false :
    (env : Env) (ch : Chan) (w x : World)
    → poll env ch w ≡ returned false x
    → x ≡ logged (polled ch.ref) w
poll-false env ch w x e = poll-false_cases env ch w x _ _ refl refl e

poll-Frame : (env : Env) (ch : Chan) (w x : World) → poll env ch w ≡ returned false x → Frame w x
poll-Frame env ch w x e = rw (poll-false env ch w x e) (Frame-logged _ w)

module _ (env : Env) (db : DbHelper) (quiet : IsQuiet db) (ch : Chan) where
  then_Frame : (u v w : World) → Frame u v → Frame v w → Frame u w
  then_Frame = Frame-IsPreorder.transitive

  Rounds-Frame : {n : ℕ} {w u : World} → Rounds env db ch n w u → Frame w u
  Rounds-Frame {w} start = Frame-IsPreorder.reflexive w
  Rounds-Frame {w} {u} (again {x = x} {v = v} p q rounds) =
      then_Frame w x u (poll-Frame env ch w x p) (
        then_Frame x v u (Frame-of_returned _ x v false quiet.is_database_reachable q)
          (then_Frame v (logged (slept _) v) u (Frame-logged _ v) (Rounds-Frame rounds)))

  Waited-Total :
      (fuel : ℕ) (w : World) {o : Outcome Unit}
      → Settles env db fuel
      → IsStarted ch.cmd w
      → IsOpen ch w
      → Waited env db ch fuel w o
      → Total (λ _ v. Frame w v) o
  Waited-Total fuel w settles begun opened (reachable {u = u} {x = x} {v = v} below rounds p q) =
      then_Frame w u v (Rounds-Frame rounds) (
        then_Frame u x v (poll-Frame env ch u x p)
          (Frame-of_returned _ x v true quiet.is_database_reachable q))
  Waited-Total fuel w settles begun opened (exited below rounds p) = tt
  Waited-Total fuel w settles begun opened (unfinished {u = u} rounds) =
      settles ch w u begun opened rounds

  pub wait_for_database-Total :
      (config : StartManagerConfig) (checker : ClusterHealthChecker) (fuel : ℕ) (w : World)
      → Answers db.is_database_reachable
      → Settles env db fuel
      → IsStarted ch.cmd w
      → IsOpen ch w
      → Total (λ _ v. Frame w v) (wait_for_database env config db checker fuel ch w)
  wait_for_database-Total config checker fuel w answers settles begun opened =
      Waited-Total fuel w settles begun opened
        ((wait_for_database_iff env config db checker ch answers fuel w _).0 refl)

-- ===== src/StartManager/Concurrent/Replayed.antt =====
-- The supervision of StartManager, which the environment drives, against the interleavings.
use mariadb_ctrl.Prelude.{ℕ, ◌≡◌, refl, inl, inr, true, subst, Option, none, some}
use mariadb_ctrl.Go.Error.{Error, Result, wrap}
use mariadb_ctrl.Go.World.{World, Chan}
use mariadb_ctrl.Go.Action.{Go, ◌>>=◌, check}
use mariadb_ctrl.Go.Channel.{receive, receive_or_done}
use mariadb_ctrl.Env.{Env, exit, done}
use mariadb_ctrl.Env.Files.{result}
use mariadb_ctrl.Config.{StartManagerConfig}
use mariadb_ctrl.OsHelper.{kill_command}
use mariadb_ctrl.ClusterHealth.{ClusterHealthChecker}
use mariadb_ctrl.DbHelper.{DbHelper}
use mariadb_ctrl.Upgrader.{Upgrader}
use mariadb_ctrl.StatusServer.{new_galera_init_status_server, start}
use mariadb_ctrl.Starter.{new_starter, get_mysql_cmd}
use mariadb_ctrl.Starter.Running.{IsRunning}
use mariadb_ctrl.StartManager.{supervise}
use mariadb_ctrl.StartManager.Concurrent.{
  Child, ended, Waiter, waiting, reaped, sent, Doing, returned_exit, refused, returned_late, System,
  Reachable, result_of,
}
use mariadb_ctrl.StartManager.Concurrent.Invariant.{Flows, Follows, IsSound, Reachable-IsSound}

-- The environment that gives the answers of the interleaving which has led `Execute` to this end.
abbrev pub replayed : Env → Doing → Env
replayed env (returned_exit e) = record env { select_exit = λ t c. some (exit e) }
replayed env (refused x) = record env {
  select_exit = λ t c. some done;
  signal = λ t pid signal. some x;
}
replayed env (returned_late e) = record env {
  select_exit = λ t c. some done;
  signal = λ t pid signal. none;
  wait_exit = λ t c. some e;
}
replayed env d = env

-- What the end of `Execute` says of mysqld and of the context.
abbrev pub Accounted : System → Doing → Type 0
Accounted s (returned_exit e) = s.child ≡ ended e
Accounted s (refused x) = s.cancelled ≡ true
Accounted s (returned_late e) = (s.child ≡ ended e) × (s.cancelled ≡ true)
Accounted s _ = Unit

got_child :
    (c : Child) (w : Waiter) (b got : Option (Option Error)) (e : Option Error)
    → Flows c w b got
    → got ≡ some e
    → c ≡ ended e
got_child c waiting b got e h p = cc h.1
got_child c (reaped x) b got e h p = cc h.2
got_child c sent b got e (x, q, inl (b', g)) p = cc
got_child c sent b got e (x, q, inr (b', g)) p = cc

pub accounted : (s : System) (d : Doing) → IsSound s → s.doing ≡ d → Accounted s d
accounted s (returned_exit e) v p = got_child s.child s.waiter s.buffer _ e v.flows (rw p)
accounted s (refused x) v p = subst (λ d. Follows d s.cancelled) p v.follows
accounted s (returned_late e) v p = (
  got_child s.child s.waiter s.buffer _ e v.flows (rw p),
  subst (λ d. Follows d s.cancelled) p v.follows,
)
accounted s d v p = tt

module _ (env : Env) (config : StartManagerConfig) (db : DbHelper) (upgrader : Upgrader)
    (checker : ClusterHealthChecker) (fuel : ℕ) where
  -- The supervision in the environment that answers as the interleaving did.
  abbrev pub supervised : Doing → Chan → Go Unit
  supervised d =
      supervise (replayed env d) config db upgrader
        (new_starter (replayed env d) config db checker fuel) new_galera_init_status_server

  supervised-result :
      (d : Doing) (ch : Chan) (w : World) (pid : ℕ) (r : Result (Unit {0}))
      → IsRunning ch w
      → ch.cmd.process ≡ some pid
      → result_of d ≡ some r
      → result (supervised d ch w) ≡ some r
  unfolding supervise start new_starter kill_command receive receive_or_done ◌>>=◌ wrap check
      get_mysql_cmd
  supervised-result (returned_exit none) ch w pid r h p q = rw (h.is_open.undrained) q
  supervised-result (returned_exit (some e)) ch w pid r h p q = rw (h.is_open.undrained) q
  supervised-result (refused x) ch w pid r h p q = rw (h.is_open.undrained, h.kept, p) q
  supervised-result (returned_late none) ch w pid r h p q =
      rw (h.is_open.undrained, h.kept, p, h.is_open.undrained) q
  supervised-result (returned_late (some e)) ch w pid r h p q =
      rw (h.is_open.undrained, h.kept, p, h.is_open.undrained) q
  supervised-result d ch w pid r h p q = cc q

  -- Every interleaving of the goroutines that makes `Execute` return is one of the behaviours of the
  -- sequential supervision: in the environment that answers as the interleaving did, the supervision
  -- of a mysqld whose command is kept, with its process, and whose channel is open returns the same
  -- result. In that state mysqld has ended, with the exit that was returned, unless it is the error
  -- of the signal that was returned; and the context was cancelled unless the exit came from the
  -- `select`.
  pub supervised-Reachable :
      (s : System) (ch : Chan) (w : World) (pid : ℕ) (r : Result (Unit {0}))
      → Reachable s
      → result_of s.doing ≡ some r
      → IsRunning ch w
      → ch.cmd.process ≡ some pid
      → (result (supervised s.doing ch w) ≡ some r) × Accounted s s.doing
  supervised-Reachable s ch w pid r reach q h p = (
    supervised-result s.doing ch w pid r h p q,
    accounted s s.doing (Reachable-IsSound reach) refl,
  )

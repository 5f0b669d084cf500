-- ===== src/StartManager/Concurrent.antt =====
-- The goroutines that run from the `select` of `Execute` on: `Execute` itself (start_manager), the
-- goroutine of `WaitForCommand` (os_helper), the handler of SIGTERM (cmd/start/main.go) and the status
-- server, beside mysqld. Every step is one that the scheduler may choose next. Steps that the other
-- goroutines would take after the end of `Execute` or of the process are not excluded.
pub mod Invariant
pub mod Settling
pub mod Replayed
pub mod Racing
use mariadb_ctrl.Prelude.{◌≡◌, Bool, true, false, [], Option, none, some}
use mariadb_ctrl.Go.Error.{Error, Result, ok, err, wrapped}

-- mysqld, with the result that `cmd.Wait` gives once it has ended
pub data Child : Type 0 where
  running : Child
  ended : Option Error → Child

-- The goroutine of `WaitForCommand`: in `cmd.Wait`, after it, and after `ch <- err`.
pub data Waiter : Type 0 where
  waiting : Waiter
  reaped : Option Error → Waiter
  sent : Waiter

-- `Execute`: in the `select`; after `ctx.Done()`; after `KillCommand`, in `<-mysqldChan`; and its
-- ends: the exit of mysqld from the `select`, the error of the signal in `KillCommand`, and the exit
-- after the signal. `died` is the end of the whole process by `log.Fatal` of the status server.
pub data Doing : Type 0 where
  selecting : Doing
  shutting_down : Doing
  terminating : Doing
  returned_exit : Option Error → Doing
  refused : Error → Doing
  returned_late : Option Error → Doing
  died : Doing

abbrev pub IsActive : Doing → Type 0
IsActive selecting = Unit
IsActive shutting_down = Unit
IsActive terminating = Unit
IsActive _ = ⊥

-- `buffer` is the buffered channel of `WaitForCommand`, `pending` the buffered channel of
-- `setupSignals`, and `cancelled` says whether the context is.
pub record System : Type 0 where
  pub child : Child
  pub waiter : Waiter
  pub buffer : Option (Option Error)
  pub pending : Bool
  pub cancelled : Bool
  pub doing : Doing

-- mysqld runs, and nothing has happened.
abbrev pub initial : System
initial = record {
  child = running;
  waiter = waiting;
  buffer = none;
  pending = false;
  cancelled = false;
  doing = selecting;
}

-- The goroutine of `WaitForCommand`.
pub data WaiterStep (s : System) : System → Type 0 where
  -- `err := cmd.Wait()` returns.
  reaps :
      (e : Option Error)
      → s.child ≡ ended e
      → s.waiter ≡ waiting
      → WaiterStep s (record s { waiter = reaped e })
  -- `ch <- err`, for which the buffer must have room.
  sends :
      (e : Option Error)
      → s.waiter ≡ reaped e
      → s.buffer ≡ none
      → WaiterStep s (record s { waiter = sent; buffer = some e })

-- `setupSignals`: the body of `for sig := range sigCh`, where `shutdownMySQL` cancels the context
pub data HandlerStep (s : System) : System → Type 0 where
  cancels : s.pending ≡ true → HandlerStep s (record s { pending = false; cancelled = true })

-- `Execute` from the `select` on
pub data ExecuteStep (s : System) : System → Type 0 where
  -- `case err := <-mysqldChan`
  takes_exit :
      (e : Option Error)
      → s.doing ≡ selecting
      → s.buffer ≡ some e
      → ExecuteStep s (record s { buffer = none; doing = returned_exit e })
  -- `case <-ctx.Done()`
  takes_done :
      s.doing ≡ selecting → s.cancelled ≡ true → ExecuteStep s (record s { doing = shutting_down })
  -- `KillCommand` returns nil: only a process that has not been waited for can be signalled.
  delivers :
      s.doing ≡ shutting_down
      → s.waiter ≡ waiting
      → ExecuteStep s (record s { doing = terminating })
  -- `KillCommand` returns an error, and so does `Execute`.
  refuses : (x : Error) → s.doing ≡ shutting_down → ExecuteStep s (record s { doing = refused x })
  -- `err = <-mysqldChan`
  receives :
      (e : Option Error)
      → s.doing ≡ terminating
      → s.buffer ≡ some e
      → ExecuteStep s (record s { buffer = none; doing = returned_late e })

-- The goroutine of `Start` of the status server.
pub data ServerStep (s : System) : System → Type 0 where
  -- `log.Fatal(server.Serve(s.listener))`
  serving_fails : IsActive s.doing → ServerStep s (record s { doing = died })

-- What the goroutines of the program do.
pub data Own (s : System) : System → Type 0 where
  of_waiter : {s' : System} → WaiterStep s s' → Own s s'
  of_handler : {s' : System} → HandlerStep s s' → Own s s'
  of_execute : {s' : System} → ExecuteStep s s' → Own s s'
  of_server : {s' : System} → ServerStep s s' → Own s s'

-- A step of the program, the end of mysqld, or a SIGTERM, which is dropped when one is pending.
pub data Step (s : System) : System → Type 0 where
  own : {s' : System} → Own s s' → Step s s'
  exits : (e : Option Error) → s.child ≡ running → Step s (record s { child = ended e })
  sigterm_arrives : Step s (record s { pending = true })

pub data Reachable : System → Type 0 where
  start : Reachable initial
  next : {s s' : System} → Reachable s → Step s s' → Reachable s'

-- The result of `Execute`, once it has returned.
abbrev pub exit_result : Option Error → Result (Unit {0})
exit_result none = ok tt
exit_result (some e) = err e

abbrev pub result_of : Doing → Option (Result (Unit {0}))
result_of (returned_exit e) = some (exit_result e)
result_of (refused x) = some (err (wrapped "unable-to-kill-process" [] x))
result_of (returned_late e) = some (exit_result e)
result_of _ = none

-- ===== src/StartManager/Concurrent/Racing.antt =====
-- A SIGTERM that meets an exit of mysqld.
use mariadb_ctrl.Prelude.{◌≡◌, refl, subst, true, [], Option, some}
use mariadb_ctrl.Go.Error.{Error, no_rows, Result, err, wrapped}
use mariadb_ctrl.StartManager.Concurrent.{
  Child, Waiter, waiting, reaped, sent, Doing, selecting, shutting_down, refused, died, System, Own,
  of_waiter, of_handler, of_execute, of_server, reaps, sends, cancels, takes_exit, takes_done,
  delivers, refuses, receives, serving_fails, Step, own, exits, sigterm_arrives, Reachable,
  result_of,
}
use mariadb_ctrl.StartManager.Concurrent.Invariant.{Flows, Reachable-IsSound}

pub data Steps : System → System → Type 0 where
  here : {s : System} → Steps s s
  then : {s u v : System} → Steps s u → Step u v → Steps s v

-- mysqld has been waited for.
abbrev IsLate : Waiter → Type 0
IsLate waiting = ⊥
IsLate _ = Unit

abbrev IsLost : Doing → Type 0
IsLost shutting_down = Unit
IsLost (refused x) = Unit
IsLost died = Unit
IsLost _ = ⊥

abbrev Lost : System → Type 0
Lost s = IsLate s.waiter × IsLost s.doing

Own-Lost : {s s' : System} → Own s s' → Lost s → Lost s'
Own-Lost (of_waiter (reaps e p q)) (l, d) = (tt, d)
Own-Lost (of_waiter (sends e p q)) (l, d) = (tt, d)
Own-Lost (of_handler (cancels p)) h = h
Own-Lost (of_execute (takes_exit e p q)) (l, d) = absurd (subst IsLost p d)
Own-Lost (of_execute (takes_done p q)) (l, d) = (l, tt)
Own-Lost (of_execute (delivers p q)) (l, d) = absurd (subst IsLate q l)
Own-Lost (of_execute (refuses x p)) (l, d) = (l, tt)
Own-Lost (of_execute (receives e p q)) (l, d) = absurd (subst IsLost p d)
Own-Lost (of_server (serving_fails h)) (l, d) = (l, tt)

Step-Lost : {s s' : System} → Step s s' → Lost s → Lost s'
Step-Lost (own o) h = Own-Lost o h
Step-Lost (exits e p) h = h
Step-Lost sigterm_arrives h = h

Steps-Lost : {s s' : System} → Steps s s' → Lost s → Lost s'
Steps-Lost here h = h
Steps-Lost (then before o) h = Step-Lost o (Steps-Lost before h)

-- an error of the signal
abbrev pub IsRefusal : Result (Unit {0}) → Type 0
IsRefusal r = (x : Error) × (r ≡ err (wrapped "unable-to-kill-process" [] x))

Lost-IsRefusal : (d : Doing) (r : Result (Unit {0})) → IsLost d → result_of d ≡ some r → IsRefusal r
Lost-IsRefusal shutting_down r l q = cc
Lost-IsRefusal (refused x) r l q = (x, cc)
Lost-IsRefusal died r l q = cc
Lost-IsRefusal d r l q = absurd l

late :
    (c : Child) (w : Waiter) (b got : Option (Option Error)) (e : Option Error)
    → Flows c w b got
    → b ≡ some e
    → IsLate w
late c waiting b got e h p = cc h.0
late c (reaped x) b got e h p = tt
late c sent b got e h p = tt

-- The exit of mysqld waits in the channel, whichever it is, and a SIGTERM has cancelled the context:
-- then the `select` may still choose the context, and from there on `Execute`, if it returns, returns
-- the error of signalling a process that is gone, and not the exit of mysqld; and it can return so.
pub select-IsRefusal :
    (s : System) (e : Option Error)
    → Reachable s
    → s.doing ≡ selecting
    → s.buffer ≡ some e
    → s.cancelled ≡ true
    → (u : System) × Own s u
      × ((v : System) (r : Result (Unit {0}))
          → Steps u v
          → result_of v.doing ≡ some r
          → IsRefusal r)
      × (v : System) × (r : Result (Unit {0})) × Own u v
      × (result_of v.doing ≡ some r)
select-IsRefusal s e reach p q c =
    let u = record s { doing = shutting_down } in
    let lost = late s.child s.waiter s.buffer _ e (Reachable-IsSound reach).flows q in
    (
      u,
      of_execute (takes_done p c),
      λ v r steps z. Lost-IsRefusal v.doing r (Steps-Lost steps (lost, tt)).1 z,
      record u { doing = refused no_rows },
      _,
      of_execute (refuses no_rows refl),
      refl,
    )

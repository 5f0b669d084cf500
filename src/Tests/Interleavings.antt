-- ===== src/Tests/Interleavings.antt =====
-- The theorems on goroutines, restarts and the configuration at concrete inputs.
use mariadb_ctrl.Prelude.{◌↔◌, ◌≡◌, refl, true, inl, inr, [], ◌∷◌, Option, none, some, arith}
use mariadb_ctrl.Go.Error.{Error, Result, ok}
use mariadb_ctrl.Env.Files.{result}
use mariadb_ctrl.Config.Reading.{ServiceConfig}
use mariadb_ctrl.StartManager.Concurrent.{
  ended, reaped, sent, shutting_down, terminating, returned_late, System, initial, reaps, sends,
  cancels, takes_done, delivers, receives, Own, of_waiter, of_handler, of_execute, own, exits,
  sigterm_arrives, Reachable, start, next, result_of,
}
use mariadb_ctrl.StartManager.Concurrent.Invariant.{received, IsSound, Reachable-IsSound}
use mariadb_ctrl.StartManager.Concurrent.Settling.{
  Settles, HasReturned, IsTerminating, Asked, Reachable-Settles,
}
use mariadb_ctrl.StartManager.Concurrent.Replayed.{supervised, Accounted, supervised-Reachable}
use mariadb_ctrl.StartManager.Concurrent.Racing.{Steps, IsRefusal, select-IsRefusal}
use mariadb_ctrl.Main.{program, exit_status}
use mariadb_ctrl.Main.Statuses.{exit_status-zero_iff}
use mariadb_ctrl.Main.Configuring.{Begins, program-Begins}
use mariadb_ctrl.Main.Remembering.{remember, resumed, remember-resumed}
use mariadb_ctrl.Tests.{calm, disk, sample, fresh, mysqld_chan, running}
use mariadb_ctrl.Tests.Settings.{disk-Stores, running-IsRunning}
use mariadb_ctrl.Tests.Parts.{db, checker, sample_upgrader}

-- after a SIGTERM, with mysqld signalled and then ended
abbrev asked : System
asked = record initial { cancelled = true }

abbrev signalled : System
signalled = record asked { doing = terminating }

abbrev gone : System
gone = record signalled { child = ended none; waiter = sent; buffer = some none }

abbrev over : System
over = record gone { buffer = none; doing = returned_late none }

asked-Reachable : Reachable asked
asked-Reachable =
    next {s = record initial { pending = true }} (next start sigterm_arrives)
      (own (of_handler (cancels refl)))

gone-Reachable : Reachable gone
gone-Reachable =
    next {s = record signalled { child = ended none; waiter = reaped none }}
      (next {s = record signalled { child = ended none }}
        (next {s = signalled}
          (next {s = record asked { doing = shutting_down }}
            (next asked-Reachable (own (of_execute (takes_done refl refl))))
            (own (of_execute (delivers refl refl))))
          (exits none refl))
        (own (of_waiter (reaps none refl refl))))
      (own (of_waiter (sends none refl refl)))

over-Reachable : Reachable over
over-Reachable = next gone-Reachable (own (of_execute (receives none refl refl)))

supervised-Reachable_example :
    (result
        (supervised calm sample.manager db sample_upgrader checker 9 over.doing mysqld_chan running)
      ≡ some (ok tt))
    × Accounted over over.doing
supervised-Reachable_example =
    supervised-Reachable calm sample.manager db sample_upgrader checker 9 over mysqld_chan running 7
      (ok tt) over-Reachable refl running-IsRunning refl

Reachable-Settles_example :
    ((e : Option Error) → gone.child ≡ ended e → Settles HasReturned gone)
    × (Asked gone → Settles IsTerminating gone)
Reachable-Settles_example = Reachable-Settles gone-Reachable

Reachable-IsSound_example : IsSound over
Reachable-IsSound_example = Reachable-IsSound over-Reachable

-- mysqld has ended with no error, and then a SIGTERM comes.
abbrev ended_first : System
ended_first = record initial { child = ended none; waiter = sent; buffer = some none }

abbrev met : System
met = record ended_first { cancelled = true }

met-Reachable : Reachable met
met-Reachable =
    next {s = record ended_first { pending = true }}
      (next {s = ended_first}
        (next {s = record initial { child = ended none; waiter = reaped none }}
          (next {s = record initial { child = ended none }} (next start (exits none refl))
            (own (of_waiter (reaps none refl refl))))
          (own (of_waiter (sends none refl refl))))
        sigterm_arrives)
      (own (of_handler (cancels refl)))

select-IsRefusal_example :
    (u : System) × Own met u
    × ((v : System) (r : Result (Unit {0})) → Steps u v → result_of v.doing ≡ some r → IsRefusal r)
    × (v : System) × (r : Result (Unit {0})) × Own u v
    × (result_of v.doing ≡ some r)
select-IsRefusal_example = select-IsRefusal met none met-Reachable refl refl refl

-- A file that holds the sample configuration.
abbrev reader : ServiceConfig Unit
reader = record { parse = λ name options. inr tt; read = λ parsed defaults c. (sample, none) }

program-Begins_example :
    Begins calm 9
      (λ _. [])
      reader
      fresh
      ("galera-init" ∷ [])
      (program calm 9 (λ _. []) reader ("galera-init" ∷ []) fresh)
program-Begins_example = program-Begins calm 9 (λ _. []) reader fresh ("galera-init" ∷ [])

remember-resumed_example :
    result (remember disk sample.manager disk-Stores "CLUSTERED" fresh)
    ≡ some (ok (resumed 3 "CLUSTERED"))
remember-resumed_example =
    remember-resumed disk sample.manager disk-Stores "CLUSTERED" fresh (inl refl) (omega arith) refl

exit_status-zero_iff_example :
    (exit_status (ok tt) ≡ 0) ↔ ((over.child ≡ ended none) × (received over.doing ≡ some none))
exit_status-zero_iff_example = exit_status-zero_iff over (ok tt) over-Reachable refl (λ e h. cc h)

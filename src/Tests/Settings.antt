-- ===== src/Tests/Settings.antt =====
-- Facts on the sample environments.
use mariadb_ctrl.Prelude.{
  ℕ, String, ◌≡◌, ◌≢◌, refl, ap, ◌∙◌, true, false, none, some, [], ◌∷◌, ◌++◌, All, arith, eq_iff,
}
use mariadb_ctrl.Go.Error.{ok}
use mariadb_ctrl.Go.World.{World, Event, Trace, wrote}
use mariadb_ctrl.Go.Action.{returned, ◌>>=◌}
use mariadb_ctrl.Go.Quiet.{ProcessesEnd}
use mariadb_ctrl.Env.Files.{Shows}
use mariadb_ctrl.DbHelper.Galera.{new_db_helper}
use mariadb_ctrl.DbHelper.Sql.{with_connection, query_row}
use mariadb_ctrl.DbHelper.Mysqld.{is_database_reachable, reachable_over}
use mariadb_ctrl.Starter.Waiting.{again}
use mariadb_ctrl.Starter.Settling.{Settles, poll-false}
use mariadb_ctrl.Starter.Running.{IsRunning}
use mariadb_ctrl.StartManager.Supervision.{Wakes}
use mariadb_ctrl.Main.{db_helper}
use mariadb_ctrl.Main.Recording.{IsKept, Stores, Recorded}
use mariadb_ctrl.Tests.{
  calm, warm, has_start, sample, write_of, or_else, last_written, is_some, or_empty, disk,
  recorded_before, files, still, mysqld_chan, running,
}

pub calm-ProcessesEnd : ProcessesEnd calm
calm-ProcessesEnd t cmd e = cc

pub warm-ProcessesEnd : ProcessesEnd warm
warm-ProcessesEnd t cmd e = cc

pub warm-Wakes : Wakes warm
warm-Wakes t cmd e = cc

-- Once a command has been started, the database is reachable.
reachable_warm :
    (w v : World)
    → has_start w.trace ≡ true
    → is_database_reachable warm sample.db w ≢ returned false v
unfolding is_database_reachable reachable_over with_connection query_row ◌>>=◌
reachable_warm w v h e = let e' = rw h at e in cc

pub warm-Settles : Settles warm (db_helper warm sample 9) 9
unfolding new_db_helper
warm-Settles ch w u begun opened (again {x = x} {v = v} p q rounds) =
    reachable_warm x v (rw (poll-false warm ch w x p, begun.newest) refl) q

pub write-kept : (f : String) (e : Event) → IsKept f e → write_of f e ≡ none
write-kept f (wrote g c m none) h = ground (arith, eq_iff g f)
write-kept f (wrote g c m (some x)) h = refl
write-kept f _ h = refl

last_written-kept :
    (f c : String) (m : ℕ) (es t : Trace)
    → All (IsKept f) es
    → last_written f (es ++ wrote f c m none ∷ t) ≡ some c
last_written-kept f c m [] t h = ground (arith, eq_iff f f)
last_written-kept f c m (e ∷ es) t (p, h) =
    ap (λ o. or_else o (last_written f (es ++ wrote f c m none ∷ t))) (write-kept f e p)
    ∙ last_written-kept f c m es t h

pub disk-Stores : Stores disk "state"
disk-Stores = record {
  stat = λ es t c m h. ap is_some (last_written-kept "state" c m es t h);
  read = λ es t c m h. ap (λ o. ok (or_empty o)) (last_written-kept "state" c m es t h);
}

pub before-Recorded : Recorded "state" recorded_before.trace
before-Recorded = record { later = []; earlier = []; mode = 0o644; split = refl; kept = tt }

pub still-Shows : Shows still files []
still-Shows = record { stat = λ es h f. refl; read = λ es h f. refl }

pub running-IsRunning : IsRunning mysqld_chan running
running-IsRunning = record {
  is_open = record { sound = tt; below = omega arith; undrained = refl };
  kept = refl;
}

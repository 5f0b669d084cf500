-- ===== src/Starter/Waiting.antt =====
-- `waitForDatabaseToAcceptConnections` of start_manager/node_starter/starter.go, by its rounds.
use mariadb_ctrl.Prelude.{
  ℕ, zero, suc, ◌*◌, ◌<◌, ◌≡◌, refl, ◌↔◌, Bool, true, false, Option, none, some, subst, arith,
}
use mariadb_ctrl.Go.Error.{Error}
use mariadb_ctrl.Go.World.{World, Chan, slept, polled}
use mariadb_ctrl.Go.Action.{Outcome, returned, failed, blocked, logged, ◌>>=◌}
use mariadb_ctrl.Go.Channel.{poll, drain, is_drained}
use mariadb_ctrl.Go.Total.{Answers}
use mariadb_ctrl.Env.{Env}
use mariadb_ctrl.Config.{StartManagerConfig}
use mariadb_ctrl.OsHelper.{second, sleep}
use mariadb_ctrl.ClusterHealth.{ClusterHealthChecker}
use mariadb_ctrl.DbHelper.{DbHelper}
use mariadb_ctrl.Starter.{wait_for_database, startup_polling_frequency_in_seconds, mysqld_exited}

poll_cases :
    (env : Env) (ch : Chan) (w : World) (drained : Bool) (r : Option (Option Error))
    → is_drained ch w ≡ drained
    → env.poll_exit w.trace ch.cmd ≡ r
    → (b : Bool) × (x : World) × (poll env ch w ≡ returned b x)
unfolding poll
poll_cases env ch w true r p q = (false, logged (polled ch.ref) w, ground arith)
poll_cases env ch w false none p q = (false, logged (polled ch.ref) w, ground arith)
poll_cases env ch w false (some e) p q = (true, drain ch e w, ground arith)

poll-Answers : (env : Env) (ch : Chan) → Answers (poll env ch)
poll-Answers env ch w = poll_cases env ch w _ _ refl refl

module _ (env : Env) (db : DbHelper) (ch : Chan) where
  -- So many times mysqld has not exited, the database is not reachable, and the program sleeps.
  pub data Rounds : ℕ → World → World → Type 0 where
    start : {w : World} → Rounds zero w w
    again :
        {n : ℕ} {w x v u : World}
        → poll env ch w ≡ returned false x
        → db.is_database_reachable x ≡ returned false v
        → Rounds n (logged (slept (startup_polling_frequency_in_seconds * second)) v) u
        → Rounds (suc n) w u

  -- How the wait ends when it may make `fuel` rounds.
  pub data Waited (fuel : ℕ) (w : World) : Outcome Unit → Type 0 where
    reachable :
        {n : ℕ} {u x v : World}
        → n < fuel
        → Rounds n w u
        → poll env ch u ≡ returned false x
        → db.is_database_reachable x ≡ returned true v
        → Waited fuel w (returned tt v)
    exited :
        {n : ℕ} {u x : World}
        → n < fuel
        → Rounds n w u
        → poll env ch u ≡ returned true x
        → Waited fuel w (failed mysqld_exited x)
    unfinished : {u : World} → Rounds fuel w u → Waited fuel w (blocked u)

  Waited-again :
      {fuel : ℕ} {w x v : World} {o : Outcome Unit}
      → poll env ch w ≡ returned false x
      → db.is_database_reachable x ≡ returned false v
      → Waited fuel (logged (slept (startup_polling_frequency_in_seconds * second)) v) o
      → Waited (suc fuel) w o
  Waited-again p q (reachable below rounds a b) = reachable (omega arith) (again p q rounds) a b
  Waited-again p q (exited below rounds a) = exited (omega arith) (again p q rounds) a
  Waited-again p q (unfinished rounds) = unfinished (again p q rounds)

module _ (env : Env) (config : StartManagerConfig) (db : DbHelper) (checker : ClusterHealthChecker)
    (ch : Chan) where
  abbrev loop : ℕ → World → Outcome Unit
  loop fuel w = wait_for_database env config db checker fuel ch w

  by_answer :
      (fuel : ℕ) (w x : World)
      → poll env ch w ≡ returned false x
      → ((v : World) → Waited env db ch fuel v (loop fuel v))
      → (b : Bool) × (v : World) × (db.is_database_reachable x ≡ returned b v)
      → Waited env db ch (suc fuel) w (loop (suc fuel) w)
  unfolding wait_for_database sleep ◌>>=◌
  by_answer fuel w x p rest (true, v, q) = rw (p, q) (reachable (omega arith) start p q)
  by_answer fuel w x p rest (false, v, q) = rw (p, q) (Waited-again env db ch p q (rest _))

  by_poll :
      (fuel : ℕ) (w : World)
      → Answers db.is_database_reachable
      → ((v : World) → Waited env db ch fuel v (loop fuel v))
      → (b : Bool) × (x : World) × (poll env ch w ≡ returned b x)
      → Waited env db ch (suc fuel) w (loop (suc fuel) w)
  by_poll fuel w answers rest (true, x, p) =
      unfold wait_for_database ◌>>=◌ in rw p (exited (omega arith) start p)
  by_poll fuel w answers rest (false, x, p) = by_answer fuel w x p rest (answers x)

  waits :
      Answers db.is_database_reachable
      → (fuel : ℕ) (w : World) → Waited env db ch fuel w (loop fuel w)
  waits answers zero w = unfold wait_for_database in unfinished start
  waits answers (suc fuel) w = by_poll fuel w answers (waits answers fuel) (poll-Answers env ch w)

  wait-reachable :
      {n : ℕ} {w u x v : World} (fuel : ℕ)
      → n < fuel
      → Rounds env db ch n w u
      → poll env ch u ≡ returned false x
      → db.is_database_reachable x ≡ returned true v
      → loop fuel w ≡ returned tt v
  unfolding wait_for_database sleep ◌>>=◌
  wait-reachable zero below rounds p q = absurd (omega arith)
  wait-reachable (suc fuel) below start p q = rw (p, q)
  wait-reachable (suc fuel) below (again a b rounds) p q =
      rw (a, b) (wait-reachable fuel (omega arith) rounds p q)

  wait-exited :
      {n : ℕ} {w u x : World} (fuel : ℕ)
      → n < fuel
      → Rounds env db ch n w u
      → poll env ch u ≡ returned true x
      → loop fuel w ≡ failed mysqld_exited x
  unfolding wait_for_database sleep ◌>>=◌
  wait-exited zero below rounds p = absurd (omega arith)
  wait-exited (suc fuel) below start p = rw p
  wait-exited (suc fuel) below (again a b rounds) p =
      rw (a, b) (wait-exited fuel (omega arith) rounds p)

  wait-unfinished : {fuel : ℕ} {w u : World} → Rounds env db ch fuel w u → loop fuel w ≡ blocked u
  unfolding wait_for_database sleep ◌>>=◌
  wait-unfinished start = refl
  wait-unfinished (again a b rounds) = rw (a, b) (wait-unfinished rounds)

  wait_of_Waited :
      {fuel : ℕ} {w : World} {o : Outcome Unit} → Waited env db ch fuel w o → loop fuel w ≡ o
  wait_of_Waited (reachable below rounds p q) = wait-reachable _ below rounds p q
  wait_of_Waited (exited below rounds p) = wait-exited _ below rounds p
  wait_of_Waited (unfinished rounds) = wait-unfinished rounds

  -- For a helper that answers, the wait with fuel has an outcome exactly when it is this. After fewer
  -- rounds than the fuel (a round: mysqld has not exited, the database is not reachable, a sleep of
  -- five seconds) the database is reachable and the wait returns, or mysqld has exited and it fails;
  -- or the fuel is used up by such rounds.
  pub wait_for_database_iff :
      Answers db.is_database_reachable
      → (fuel : ℕ) (w : World) (o : Outcome Unit)
      → (wait_for_database env config db checker fuel ch w ≡ o) ↔ Waited env db ch fuel w o
  wait_for_database_iff answers fuel w o =
      (λ e. subst (Waited env db ch fuel w) e (waits answers fuel w), wait_of_Waited)

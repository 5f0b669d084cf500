-- ===== src/Upgrader/Waiting.antt =====
-- `waitUntilMySQLReachable` of upgrader/upgrader.go, by its rounds.
use mariadb_ctrl.Prelude.{ℕ, zero, suc, ◌<◌, ◌≡◌, refl, ◌↔◌, Bool, true, false, subst, arith}
use mariadb_ctrl.Go.Error.{message}
use mariadb_ctrl.Go.World.{World, slept}
use mariadb_ctrl.Go.Action.{Outcome, returned, failed, logged, ◌>>=◌}
use mariadb_ctrl.Go.Total.{Answers}
use mariadb_ctrl.Env.{Env}
use mariadb_ctrl.DbHelper.{DbHelper}
use mariadb_ctrl.Upgrader.{
  wait_for_tries, wait_until_mysql_reachable, db_reachable_polling_attempts,
  db_reachable_polling_delay,
}

-- So many times the database is not reachable, and the program sleeps for the delay.
pub data Rounds (db : DbHelper) : ℕ → World → World → Type 0 where
  start : {w : World} → Rounds db zero w w
  again :
      {n : ℕ} {w v u : World}
      → db.is_database_reachable w ≡ returned false v
      → Rounds db n (logged (slept db_reachable_polling_delay) v) u
      → Rounds db (suc n) w u

-- How the wait ends with at most `tries` questions.
pub data Waited (db : DbHelper) (tries : ℕ) (w : World) : Outcome Unit → Type 0 where
  ready :
      {n : ℕ} {u v : World}
      → n < tries
      → Rounds db n w u
      → db.is_database_reachable u ≡ returned true v
      → Waited db tries w (returned tt v)
  timed_out :
      {u : World}
      → Rounds db tries w u
      → Waited db tries w (failed (message "Database is not reachable after 30 tries.") u)

module _ (env : Env) (db : DbHelper) where
  Waited-again :
      {tries : ℕ} {w v : World} {o : Outcome Unit}
      → db.is_database_reachable w ≡ returned false v
      → Waited db tries (logged (slept db_reachable_polling_delay) v) o
      → Waited db (suc tries) w o
  Waited-again p (ready below rounds q) = ready (omega arith) (again p rounds) q
  Waited-again p (timed_out rounds) = timed_out (again p rounds)

  one_round :
      (tries : ℕ) (w : World)
      → ((v : World) → Waited db tries v (wait_for_tries env db tries v))
      → (b : Bool) × (v : World) × (db.is_database_reachable w ≡ returned b v)
      → Waited db (suc tries) w (wait_for_tries env db (suc tries) w)
  unfolding wait_for_tries ◌>>=◌
  one_round tries w rest (true, v, p) = rw p (ready (omega arith) start p)
  one_round tries w rest (false, v, p) = rw p (Waited-again p (rest _))

  waits :
      Answers db.is_database_reachable
      → (tries : ℕ) (w : World) → Waited db tries w (wait_for_tries env db tries w)
  waits answers zero w = unfold wait_for_tries ◌>>=◌ in timed_out start
  waits answers (suc tries) w = one_round tries w (waits answers tries) (answers w)

  wait-ready :
      {n : ℕ} {w u v : World} (tries : ℕ)
      → n < tries
      → Rounds db n w u
      → db.is_database_reachable u ≡ returned true v
      → wait_for_tries env db tries w ≡ returned tt v
  unfolding wait_for_tries ◌>>=◌
  wait-ready zero below rounds q = absurd (omega arith)
  wait-ready (suc tries) below start q = rw q
  wait-ready (suc tries) below (again p rounds) q = rw p (wait-ready tries (omega arith) rounds q)

  pub wait-timed_out :
      {tries : ℕ} {w u : World}
      → Rounds db tries w u
      → wait_for_tries env db tries w
        ≡ failed (message "Database is not reachable after 30 tries.") u
  unfolding wait_for_tries ◌>>=◌
  wait-timed_out start = refl
  wait-timed_out (again p rounds) = rw p (wait-timed_out rounds)

  wait_of_Waited :
      {tries : ℕ} {w : World} {o : Outcome Unit}
      → Waited db tries w o
      → wait_for_tries env db tries w ≡ o
  wait_of_Waited (ready below rounds q) = wait-ready _ below rounds q
  wait_of_Waited (timed_out rounds) = wait-timed_out rounds

  -- For a helper that answers, the wait has an outcome exactly when it is this: either the database
  -- is reachable after fewer than 30 rounds, each an answer "no" and a sleep of ten seconds, and the
  -- wait returns; or 30 such rounds have passed, and it fails.
  pub wait_until_mysql_reachable_iff :
      Answers db.is_database_reachable
      → (w : World) (o : Outcome Unit)
      → (wait_until_mysql_reachable env db w ≡ o) ↔ Waited db db_reachable_polling_attempts w o
  wait_until_mysql_reachable_iff answers w o =
      unfold wait_until_mysql_reachable in
      (λ e. subst (Waited db db_reachable_polling_attempts w) e (waits answers _ w), wait_of_Waited)

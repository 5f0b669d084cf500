-- ===== src/Upgrader/Resting.antt =====
-- `Upgrade` of upgrader/upgrader.go: how long it sleeps, and what it does when mysqld stays unreachable.
use mariadb_ctrl.Prelude.{
  ℕ, zero, suc, ◌+◌, ◌*◌, ◌≤◌, ◌≡◌, refl, ap, subst, Bool, true, false, [], ◌∷◌, ◌++◌, All, Option,
  none, some, if◌then◌else◌, arith,
}
use mariadb_ctrl.Go.Error.{Error, message, wrap}
use mariadb_ctrl.Go.World.{World, Event, Trace, Cmd, Chan, slept}
use mariadb_ctrl.Go.Action.{
  Go, Outcome, returned, failed, panicked, blocked, final, ◌>>=◌, continue, check, fail, pure,
}
use mariadb_ctrl.Go.Logic.{Has}
use mariadb_ctrl.Go.Adds.{AddsOnly}
use mariadb_ctrl.Env.{Env}
use mariadb_ctrl.OsHelper.{second, wait_for_command, sleep}
use mariadb_ctrl.DbHelper.{DbHelper}
use mariadb_ctrl.DbHelper.Calls.{IsDbCall}
use mariadb_ctrl.DbHelper.Confined.{IsConfined}
use mariadb_ctrl.Go.Channel.{receive}
use mariadb_ctrl.Upgrader.{
  upgrade, wait_for_tries, wait_until_mysql_reachable, db_reachable_polling_attempts,
  db_reachable_polling_delay,
}
use mariadb_ctrl.Upgrader.Waiting.{Rounds, wait-timed_out}

-- the time that was slept, in nanoseconds
abbrev pub rest_of : Event → ℕ
rest_of (slept d) = d
rest_of _ = 0

abbrev pub rested : Trace → ℕ
rested [] = 0
rested (e ∷ t) = rest_of e + rested t

rest_of_call : (e : Event) → IsDbCall e → rest_of e ≡ 0
rest_of_call (slept d) h = absurd h
rest_of_call _ h = refl

rested-append : (es t : Trace) → All IsDbCall es → rested (es ++ t) ≡ rested t
rested-append [] t h = refl
rested-append (e ∷ es) t (p, h) = omega (arith, rest_of_call e p, rested-append es t h)

-- The action sleeps no longer than this.
pub record RestsFor {A : Type 0} (n : ℕ) (m : Go A) : Type 0 where
  pub at : (w : World) → rested (final (m w)).trace ≤ n + rested w.trace

RestsFor-of_call : {A : Type 0} (m : Go A) → Has (AddsOnly IsDbCall) m → RestsFor 0 m
RestsFor-of_call m p = record {
  at = λ w.
      let x = p.holds.at w in
      omega
        (arith, ap (λ (v : World). rested v.trace) x.grown, rested-append x.added w.trace x.all);
}

continued :
    {A B : Type 0} (a b : ℕ) (o : Outcome A) (f : A → Go B) (t : Trace)
    → rested (final o).trace ≤ a + rested t
    → ((x : A) → RestsFor b (f x))
    → rested (final (continue o f)).trace ≤ a + b + rested t
continued a b (returned x v) f t h k = omega (arith, (k x).at v)
continued a b (failed e v) f t h k = omega arith
continued a b (panicked e v) f t h k = omega arith
continued a b (blocked v) f t h k = omega arith

RestsFor-bind :
    {A B : Type 0} (a b : ℕ) (m : Go A) (f : A → Go B)
    → RestsFor a m
    → ((x : A) → RestsFor b (f x))
    → RestsFor (a + b) (m >>= f)
unfolding ◌>>=◌
RestsFor-bind a b m f p k = record { at = λ w. continued a b (m w) f w.trace (p.at w) k }

RestsFor-if :
    {A : Type 0} (n : ℕ) (b : Bool) (m k : Go A)
    → RestsFor n m
    → RestsFor n k
    → RestsFor n (if b then m else k)
RestsFor-if n true m k p q = p
RestsFor-if n false m k p q = q

module _ (env : Env) (db : DbHelper) where
  -- When mysqld has been started for the upgrade and stays unreachable for thirty rounds, each an
  -- answer "no" and a sleep of ten seconds, `Upgrade` fails in the very state in which the last round
  -- has left it: it does not stop that mysqld, nor receive its exit.
  pub upgrade-timed_out :
      (w w1 u : World) (cmd : Cmd)
      → db.start_mysqld_for_upgrade w ≡ returned cmd w1
      → Rounds db db_reachable_polling_attempts (record w1 { next_chan = w1.next_chan + 1 }) u
      → upgrade env db w ≡ failed (message "Database is not reachable after 30 tries.") u
  unfolding upgrade wait_for_command wait_until_mysql_reachable ◌>>=◌
  upgrade-timed_out w w1 u cmd p rounds = rw (p, wait-timed_out env db rounds) refl

  module _ (confined : IsConfined db) where
    sleep-RestsFor : (d : ℕ) → RestsFor d (sleep d)
    unfolding sleep
    sleep-RestsFor d = record { at = λ w. omega arith }

    pure-RestsFor : {A : Type 0} (a : A) (n : ℕ) → RestsFor n (pure a)
    unfolding pure
    pure-RestsFor a n = record { at = λ w. omega arith }

    fail-RestsFor : {A : Type 0} (e : Error) → RestsFor {A = A} 0 (fail e)
    unfolding fail
    fail-RestsFor e = record { at = λ w. omega arith }

    tries-RestsFor :
        (tries : ℕ) → RestsFor (tries * db_reachable_polling_delay) (wait_for_tries env db tries)
    unfolding wait_for_tries
    tries-RestsFor zero = fail-RestsFor _
    tries-RestsFor (suc tries) =
        let delay : ℕ = db_reachable_polling_delay in
        subst (λ n. RestsFor n (wait_for_tries env db (suc tries))) (omega arith)
          (RestsFor-bind 0 (delay + tries * delay) _ _
            (RestsFor-of_call _ confined.is_database_reachable)
            λ b. RestsFor-if _ b _ _ (pure-RestsFor tt _) (
              RestsFor-bind delay (tries * delay) _ _ (sleep-RestsFor delay)
                λ _. tries-RestsFor tries))

    receive-RestsFor : (ch : Chan) → RestsFor 0 (receive env ch)
    unfolding receive
    receive-RestsFor ch = record { at = λ w. ground arith }

    check-RestsFor : (e : Option Error) → RestsFor 0 (check e)
    unfolding check pure fail
    check-RestsFor none = record { at = λ w. omega arith }
    check-RestsFor (some e) = record { at = λ w. omega arith }

    chan-RestsFor : (cmd : Cmd) → RestsFor 0 (wait_for_command cmd)
    unfolding wait_for_command
    chan-RestsFor cmd = record { at = λ w. omega arith }

    -- `Upgrade` of a helper whose operations only run commands, start mysqld, read files and talk to the
    -- database sleeps for 300 seconds at most, however it ends.
    pub upgrade-RestsFor : RestsFor (300 * second) (upgrade env db)
    unfolding upgrade wait_until_mysql_reachable
    upgrade-RestsFor =
        RestsFor-bind 0 (300 * second) _ _ (RestsFor-of_call _ confined.start_mysqld_for_upgrade)
          λ cmd. RestsFor-bind 0 (300 * second) _ _ (chan-RestsFor cmd) λ ch.
            RestsFor-bind (300 * second) 0 _ _ (tries-RestsFor 30) λ _.
              RestsFor-bind 0 0 _ _ (RestsFor-of_call _ confined.upgrade) λ r.
                RestsFor-bind 0 0 _ _ (RestsFor-of_call _ confined.stop_mysqld) λ _.
                  RestsFor-bind 0 0 _ _ (receive-RestsFor ch) λ e.
                    RestsFor-bind 0 0 _ _ (check-RestsFor (wrap e "mysqld failed during upgrade"))
                      λ _. check-RestsFor _

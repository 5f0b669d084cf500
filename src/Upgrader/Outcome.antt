-- ===== src/Upgrader/Outcome.antt =====
-- `Upgrade` of upgrader/upgrader.go: each way in which it ends, and what it returns then.
use mariadb_ctrl.Prelude.{
  ◌+◌, String, ◌≡◌, refl, ◌↔◌, ◌⊎◌, true, false, Bool, [], Option, none, some, arith,
}
use mariadb_ctrl.Go.Error.{Error, wrapped, wrap}
use mariadb_ctrl.Go.World.{World, Cmd, Chan}
use mariadb_ctrl.Go.Action.{
  Outcome, returned, failed, panicked, blocked, Go, ◌>>=◌, ◌>>◌, continue, check,
}
use mariadb_ctrl.Go.Channel.{receive}
use mariadb_ctrl.Env.{Env}
use mariadb_ctrl.OsHelper.{wait_for_command}
use mariadb_ctrl.Text.{matches_any}
use mariadb_ctrl.Text.Occurs.{HasPart, matches_any_iff}
use mariadb_ctrl.DbHelper.{DbHelper}
use mariadb_ctrl.Upgrader.{upgrade, upgrade_error, wait_until_mysql_reachable, acceptable_errors}

-- An action that does not return stops the actions after it, which then end as it does.
pub data StopsAs {A B : Type 0} : Outcome A → Outcome B → Type 0 where
  fails : (e : Error) (v : World) → StopsAs (failed e v) (failed e v)
  panics : (e : Error) (v : World) → StopsAs (panicked e v) (panicked e v)
  blocks : (v : World) → StopsAs (blocked v) (blocked v)

-- The output of mysql_upgrade has one of the three texts that are no errors as a part.
abbrev pub IsAccepted : String → Type 0
IsAccepted output =
    HasPart "already upgraded" output
    ⊎ (HasPart "Unknown command" output ⊎ HasPart "WSREP has not yet prepared node" output)

-- The channel that `WaitForCommand` makes.
abbrev pub made : Cmd → World → Chan
made cmd w = record { ref = w.next_chan; cmd = cmd }

module _ (env : Env) (db : DbHelper) (w : World) where
  -- Up to the stop of mysqld everything has returned: mysqld is started with the command `cmd`, it is
  -- reachable, mysql_upgrade gives the output and the error `r`, and mysqld is told to stop.
  pub record Stopped (cmd : Cmd) (w1 w2 w3 w4 : World) (r : String × Option Error) : Type 0 where
    pub started : db.start_mysqld_for_upgrade w ≡ returned cmd w1
    pub reached :
        wait_until_mysql_reachable env db (record w1 { next_chan = w1.next_chan + 1 })
        ≡ returned tt w2
    pub ran : db.upgrade w2 ≡ returned r w3
    pub told : db.stop_mysqld w3 ≡ returned tt w4

  pub data UpgradeEnd : Outcome Unit → Type 0 where
    not_started : (o : Outcome Unit) → StopsAs (db.start_mysqld_for_upgrade w) o → UpgradeEnd o
    not_reachable :
        (cmd : Cmd) (w1 : World) (o : Outcome Unit)
        → db.start_mysqld_for_upgrade w ≡ returned cmd w1
        → StopsAs (wait_until_mysql_reachable env db (record w1 { next_chan = w1.next_chan + 1 })) o
        → UpgradeEnd o
    not_run :
        (cmd : Cmd) (w1 w2 : World) (o : Outcome Unit)
        → db.start_mysqld_for_upgrade w ≡ returned cmd w1
        → wait_until_mysql_reachable env db (record w1 { next_chan = w1.next_chan + 1 })
          ≡ returned tt w2
        → StopsAs (db.upgrade w2) o
        → UpgradeEnd o
    not_stopped :
        (cmd : Cmd) (w1 w2 w3 : World) (r : String × Option Error) (o : Outcome Unit)
        → db.start_mysqld_for_upgrade w ≡ returned cmd w1
        → wait_until_mysql_reachable env db (record w1 { next_chan = w1.next_chan + 1 })
          ≡ returned tt w2
        → db.upgrade w2 ≡ returned r w3
        → StopsAs (db.stop_mysqld w3) o
        → UpgradeEnd o
    not_exited :
        (cmd : Cmd) (w1 w2 w3 w4 : World) (r : String × Option Error) (o : Outcome Unit)
        → Stopped cmd w1 w2 w3 w4 r
        → StopsAs (receive env (made cmd w1) w4) o
        → UpgradeEnd o
    mysqld_failed :
        (cmd : Cmd) (w1 w2 w3 w4 w5 : World) (r : String × Option Error) (e : Error)
        → Stopped cmd w1 w2 w3 w4 r
        → receive env (made cmd w1) w4 ≡ returned (some e) w5
        → UpgradeEnd (failed (wrapped "mysqld failed during upgrade" [] e) w5)
    upgrade_failed :
        (cmd : Cmd) (w1 w2 w3 w4 w5 : World) (output : String) (e : Error)
        → Stopped cmd w1 w2 w3 w4 (output, some e)
        → receive env (made cmd w1) w4 ≡ returned none w5
        → ¬ IsAccepted output
        → UpgradeEnd (failed e w5)
    upgrade_accepted :
        (cmd : Cmd) (w1 w2 w3 w4 w5 : World) (output : String) (e : Error)
        → Stopped cmd w1 w2 w3 w4 (output, some e)
        → receive env (made cmd w1) w4 ≡ returned none w5
        → IsAccepted output
        → UpgradeEnd (returned tt w5)
    upgraded :
        (cmd : Cmd) (w1 w2 w3 w4 w5 : World) (output : String)
        → Stopped cmd w1 w2 w3 w4 (output, none)
        → receive env (made cmd w1) w4 ≡ returned none w5
        → UpgradeEnd (returned tt w5)

continue_cases :
    {A B : Type 0} (o : Outcome A) (f : A → Go B) (P : Outcome B → Type 0)
    → ((r : Outcome B) → StopsAs o r → P r)
    → ((a : A) (v : World) → o ≡ returned a v → P (f a v))
    → P (continue o f)
continue_cases (returned a v) f P stop go = go a v refl
continue_cases (failed e v) f P stop go = stop _ (fails e v)
continue_cases (panicked e v) f P stop go = stop _ (panics e v)
continue_cases (blocked v) f P stop go = stop _ (blocks v)

-- An action stops what comes after it, or it returns and the rest goes on.
bind_cases :
    {A B : Type 0} (m : Go A) (f : A → Go B) (w : World) (P : Outcome B → Type 0)
    → ((r : Outcome B) → StopsAs (m w) r → P r)
    → ((a : A) (v : World) → m w ≡ returned a v → P (f a v))
    → P ((m >>= f) w)
unfolding ◌>>=◌
bind_cases m f w P stop go = continue_cases (m w) f P stop go

IsAccepted-iff :
    (output : String) → (matches_any acceptable_errors output ≡ true) ↔ IsAccepted output
IsAccepted-iff output = ground (arith, matches_any_iff acceptable_errors output)

module _ (env : Env) (db : DbHelper) (w : World) where
  concluded_cases :
      (cmd : Cmd) (w1 w2 w3 w4 w5 : World) (x : Option Error) (output : String) (y : Option Error)
      (matched : Bool)
      → matches_any acceptable_errors output ≡ matched
      → Stopped env db w cmd w1 w2 w3 w4 (output, y)
      → receive env (made cmd w1) w4 ≡ returned x w5
      → UpgradeEnd env db w
          ((do check (wrap x "mysqld failed during upgrade"); check (upgrade_error (output, y))) w5)
  unfolding ◌>>=◌ wrap upgrade_error check
  concluded_cases cmd w1 w2 w3 w4 w5 (some e) output y m q s p =
      mysqld_failed cmd w1 w2 w3 w4 w5 (output, y) e s p
  concluded_cases cmd w1 w2 w3 w4 w5 none output none m q s p =
      upgraded cmd w1 w2 w3 w4 w5 output s p
  concluded_cases cmd w1 w2 w3 w4 w5 none output (some e) true q s p =
      rw q (upgrade_accepted cmd w1 w2 w3 w4 w5 output e s p ((IsAccepted-iff output).0 q))
  concluded_cases cmd w1 w2 w3 w4 w5 none output (some e) false q s p =
      rw q (
        upgrade_failed cmd w1 w2 w3 w4 w5 output e s p (λ a. ground (arith, IsAccepted-iff output)))

  -- from the wait for mysqld on
  abbrev rest : Chan → Go Unit
  rest ch = do
    wait_until_mysql_reachable env db
    r ← db.upgrade
    db.stop_mysqld
    e ← receive env ch
    check (wrap e "mysqld failed during upgrade")
    check (upgrade_error r)

  after_start :
      (cmd : Cmd) (w1 : World)
      → db.start_mysqld_for_upgrade w ≡ returned cmd w1
      → UpgradeEnd env db w (rest (made cmd w1) (record w1 { next_chan = w1.next_chan + 1 }))
  after_start cmd w1 p =
      bind_cases _ _ _ (UpgradeEnd env db w) (λ o h. not_reachable cmd w1 o p h)
        λ _ w2 q.
          bind_cases _ _ _ (UpgradeEnd env db w) (λ o h. not_run cmd w1 w2 o p q h)
            λ r w3 x.
              bind_cases _ _ _ (UpgradeEnd env db w) (λ o h. not_stopped cmd w1 w2 w3 r o p q x h)
                λ _ w4 y.
                  let s : Stopped env db w cmd w1 w2 w3 w4 r = record {
                    started = p;
                    reached = q;
                    ran = x;
                    told = y;
                  } in
                  bind_cases _ _ _ (UpgradeEnd env db w) (λ o h. not_exited cmd w1 w2 w3 w4 r o s h)
                    λ e w5 z. concluded_cases cmd w1 w2 w3 w4 w5 e r.0 r.1 _ refl s z

  waited :
      (cmd : Cmd) (w1 : World)
      → db.start_mysqld_for_upgrade w ≡ returned cmd w1
      → UpgradeEnd env db w ((do ch ← wait_for_command cmd; rest ch) w1)
  unfolding wait_for_command ◌>>=◌
  waited cmd w1 p = after_start cmd w1 p

  -- How `Upgrade` ends. It starts mysqld for the upgrade, waits until it is reachable, runs
  -- mysql_upgrade, tells mysqld to stop, and receives the exit of that mysqld, in this order, and ends
  -- as the first of these that does not return. Otherwise it fails with the exit of mysqld if that is
  -- an error; else with the very error of mysql_upgrade, if there is one and the output has none of the
  -- texts "already upgraded", "Unknown command" and "WSREP has not yet prepared node" as a part; and
  -- else it returns nil.
  pub upgrade-UpgradeEnd : UpgradeEnd env db w (upgrade env db w)
  unfolding upgrade
  upgrade-UpgradeEnd = bind_cases _ _ w (UpgradeEnd env db w) not_started waited

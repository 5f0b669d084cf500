-- ===== src/Main/Exclusive/Starting.antt =====
-- The starts of mysqld in upgrader/upgrader.go and start_manager/node_starter/starter.go: each is made
-- when no mysqld is there.
use mariadb_ctrl.Prelude.{
  ℕ, zero, suc, String, ◌≡◌, refl, Bool, true, false, Option, none, some, List, [], ◌∷◌,
}
use mariadb_ctrl.Go.Error.{Error, Result, ok, err, wrap}
use mariadb_ctrl.Go.World.{World, Event, Cmd, Chan, slept, opened_log, started, received}
use mariadb_ctrl.Go.Action.{
  Outcome, returned, failed, panicked, blocked, logged, pure, fail, caught, continue, check, ◌>>=◌,
}
use mariadb_ctrl.Go.Channel.{receive, is_drained, drain}
use mariadb_ctrl.Go.Logic.{Has, on_bind, on_if, on_pure, on_fail}
use mariadb_ctrl.Go.Safe.{ExtendsOnly, ExtendsOnly-Logic, Extends-logged, Safe, Safe-bind}
use mariadb_ctrl.Env.{Env}
use mariadb_ctrl.Config.{Config}
use mariadb_ctrl.OsHelper.{start_command, wait_for_command, sleep}
use mariadb_ctrl.DbHelper.{DbHelper}
use mariadb_ctrl.DbHelper.Mysqld.{start_mysqld_for_upgrade, wrapping, upgrade_args}
use mariadb_ctrl.DbHelper.Galera.{new_db_helper}
use mariadb_ctrl.DbHelper.Operations.{Passive}
use mariadb_ctrl.Upgrader.{
  upgrade, wait_for_tries, wait_until_mysql_reachable, db_reachable_polling_attempts, upgrade_error,
}
use mariadb_ctrl.Main.Extending.{IsQuietCall, new_db_helper-Passive-Extends}
use mariadb_ctrl.Main.Exclusive.{
  free, taken, Ordered, Follows, Ordered-Follows, Follows-step, IsHeld, held_then,
}

-- Calls of `GaleraDBHelper` that start nothing are held.
IsHeld-quiet : (e : Event) → IsQuietCall e → IsHeld e
IsHeld-quiet (started exe args r) h = h
IsHeld-quiet (received ref x) h = h
IsHeld-quiet _ h = tt

module _ (env : Env) (w : World) where
  abbrev I : World → Type 0
  I v = Ordered w v

  abbrev Taken : {A : Type 0} → A → World → Type 0
  Taken a v = Follows w taken v

  opened :
      (u : World) (o : Option Error) (log : String)
      → Follows w free u
      → Follows w free (logged (opened_log log o) u)
  opened u o log h = Follows-step w free u _ (opened_log log o) free refl h tt refl

  started_cases :
      (exe : String) (args : List String) (log : String) (u : World) (o : Option Error)
      (r : Result ℕ)
      → env.open_log u.trace log ≡ o
      → env.start (opened_log log o ∷ u.trace) exe args ≡ r
      → Follows w free u
      → Safe I Taken (start_command env log exe args u)
  unfolding start_command ◌>>=◌
  started_cases exe args log u (some e) r p q h =
      rw p (Ordered-Follows w free _ (opened u (some e) log h))
  started_cases exe args log u none (ok pid) p q h =
      rw (p, q)
        (Follows-step w free (logged (opened_log log none) u) _ (started exe args (ok pid)) taken
          refl (opened u none log h) refl refl)
  started_cases exe args log u none (err e) p q h =
      rw (p, q)
        (Ordered-Follows w free _ (
          Follows-step w free (logged (opened_log log none) u) _ (started exe args (err e)) free
            refl (opened u none log h) tt refl))

  pub start_command_Safe :
      (exe : String) (args : List String) (log : String) (u : World)
      → Follows w free u
      → Safe I Taken (start_command env log exe args u)
  start_command_Safe exe args log u h = started_cases exe args log u _ _ refl refl h

  wrapped_cases :
      (msg : String) (o : Outcome Cmd)
      → Safe I Taken o
      → Safe I Taken (continue (caught o) (wrapping msg))
  unfolding pure fail
  wrapped_cases msg (returned cmd v) h = h
  wrapped_cases msg (failed e v) h = h
  wrapped_cases msg (panicked e v) h = h
  wrapped_cases msg (blocked v) h = h

  start_for_upgrade_Safe :
      (log : String) (u : World)
      → Follows w free u
      → Safe I Taken (start_mysqld_for_upgrade env log u)
  unfolding start_mysqld_for_upgrade ◌>>=◌
  start_for_upgrade_Safe log u h =
      wrapped_cases "Error starting mysqld in stand-alone" _
        (start_command_Safe "mysqld" upgrade_args log u h)

  receive_cases :
      (ch : Chan) (u : World) (d : Bool) (r : Option (Option Error))
      → is_drained ch u ≡ d
      → env.wait_exit u.trace ch.cmd ≡ r
      → Follows w taken u
      → Safe I (λ _ v. Follows w free v) (receive env ch u)
  unfolding receive
  receive_cases ch u true r p q h = rw p (Ordered-Follows w taken u h)
  receive_cases ch u false none p q h = rw (p, q) (Ordered-Follows w taken u h)
  receive_cases ch u false (some e) p q h =
      rw (p, q) (Follows-step w taken u (drain ch e u) (received ch.ref e) free refl h tt refl)

  module _ (config : Config) where
    abbrev db : DbHelper
    db = new_db_helper env config.db config.log_file_location

    pub passive : Passive (ExtendsOnly IsHeld) db
    passive = new_db_helper-Passive-Extends IsHeld-quiet env config.db config.log_file_location

    sleep-Held : (d : ℕ) → Has (ExtendsOnly IsHeld) (sleep d)
    unfolding sleep
    sleep-Held d = record { holds = record { at = λ u. Extends-logged (slept d) tt u } }

    pub wait_for_command-Held : (cmd : Cmd) → Has (ExtendsOnly IsHeld) (wait_for_command cmd)
    unfolding wait_for_command
    wait_for_command-Held cmd = record {
      holds = record { at = λ u. record { added = []; grown = refl; all = tt } };
    }

    tries-Held : (tries : ℕ) → Has (ExtendsOnly IsHeld) (wait_for_tries env db tries)
    unfolding wait_for_tries
    tries-Held zero = on_fail ExtendsOnly-Logic _
    tries-Held (suc tries) = on_bind ExtendsOnly-Logic _ _ passive.is_database_reachable λ b.
        on_if b _ _ (on_pure ExtendsOnly-Logic tt)
          (on_bind ExtendsOnly-Logic _ _ (sleep-Held _) (λ _. tries-Held tries))

    wait-Held : Has (ExtendsOnly IsHeld) (wait_until_mysql_reachable env db)
    unfolding wait_until_mysql_reachable
    wait-Held = tries-Held db_reachable_polling_attempts

    checked_free :
        (e : Option Error) (u : World)
        → Follows w free u
        → Safe I (λ _ v. Follows w free v) (check e u)
    unfolding check
    checked_free none u h = unfold pure in h
    checked_free (some e) u h = unfold fail in (Ordered-Follows w free u h)

    -- `Upgrade` starts its mysqld when none is there, and receives its exit before it returns.
    pub upgrade_Safe :
        (u : World) → Follows w free u → Safe I (λ _ v. Follows w free v) (upgrade env db u)
    unfolding upgrade new_db_helper
    upgrade_Safe u h =
        Safe-bind I Taken (λ _ v. Follows w free v) _ _ u
          (start_for_upgrade_Safe config.log_file_location u h)
          λ cmd u1 h1. held_then w taken _ _ _ tt (wait_for_command-Held cmd) u1 h1 λ ch u2 h2.
            held_then w taken _ _ _ tt wait-Held u2 h2 λ _ u3 h3.
              held_then w taken _ _ _ tt passive.upgrade u3 h3 λ r u4 h4.
                held_then w taken _ _ _ tt passive.stop_mysqld u4 h4 λ _ u5 h5.
                  Safe-bind I (λ _ v. Follows w free v) (λ _ v. Follows w free v) _ _ u5
                    (receive_cases ch u5 _ _ refl refl h5)
                    λ e u6 h6.
                      Safe-bind I (λ _ v. Follows w free v) (λ _ v. Follows w free v) _ _ u6
                        (checked_free (wrap e "mysqld failed during upgrade") u6 h6)
                        λ _ u7 h7. checked_free (upgrade_error r) u7 h7

-- ===== src/Main/Extending.antt =====
-- What the parts of the program add to the trace, for a property of events that holds of plain events
-- and of the starts of mysqld for the upgrade and for joining.
use mariadb_ctrl.Prelude.{refl, ℕ, zero, suc, String, some, [], ◌∷◌}
use mariadb_ctrl.Go.Error.{Result}
use mariadb_ctrl.Go.World.{
  Event, Cmd, Chan, started, wrote, opened_db, closed_db, served, cancelled, signalled,
}
use mariadb_ctrl.Go.Action.{Go}
use mariadb_ctrl.Go.Rules.{Moves-deferring}
use mariadb_ctrl.Go.Logic.{
  Logic, Logic-restrict, Has, on_bind, on_call, on_check, on_if, on_pure, on_fail,
}
use mariadb_ctrl.Go.Relations.{Extends-IsPreorder}
use mariadb_ctrl.Go.Safe.{ExtendsOnly, ExtendsOnly-Logic, Extends-logged}
use mariadb_ctrl.Go.Plain.{
  IsPlain, IsClosing, wait_for_command-Extends, sleep-Extends, poll-Extends, receive-Extends,
  receive_or_done-Extends, kill_command-Extends,
}
use mariadb_ctrl.Env.{Env, Wake, exit, done}
use mariadb_ctrl.Env.Files.{IsRead}
use mariadb_ctrl.Config.{DbHelperConfig, StartManagerConfig}
use mariadb_ctrl.ClusterHealth.{ClusterHealthChecker}
use mariadb_ctrl.DbHelper.{DbHelper}
use mariadb_ctrl.DbHelper.Sql.{with_connection}
use mariadb_ctrl.DbHelper.Mysqld.{my_cnf, upgrade_args}
use mariadb_ctrl.DbHelper.Calls.{IsInnerCall}
use mariadb_ctrl.DbHelper.Galera.{new_db_helper}
use mariadb_ctrl.DbHelper.Operations.{
  Passive, StandAlone, Others, new_db_helper-Passive, new_db_helper-StandAlone,
  new_db_helper-Others,
}
use mariadb_ctrl.Upgrader.{
  Upgrader, upgrade, wait_for_tries, wait_until_mysql_reachable, db_reachable_polling_attempts,
}
use mariadb_ctrl.StatusServer.{new_galera_init_status_server, start}
use mariadb_ctrl.Starter.{
  Starter, set_mysql_cmd, get_mysql_cmd, wait_for_database, join_cluster, new_starter,
}
use mariadb_ctrl.StartManager.{supervise, terminate}

-- a call of `GaleraDBHelper` that starts nothing
abbrev pub IsQuietCall : Event → Type 0
IsQuietCall (opened_db dsn e) = Unit
IsQuietCall closed_db = Unit
IsQuietCall e = IsInnerCall e

IsQuietCall-of_inner : (e : Event) → IsInnerCall e → IsQuietCall e
IsQuietCall-of_inner (opened_db dsn x) h = absurd h
IsQuietCall-of_inner closed_db h = absurd h
IsQuietCall-of_inner _ h = h

IsPlain-of_quiet : (e : Event) → IsQuietCall e → IsPlain e
IsPlain-of_quiet (started exe args r) h = h
IsPlain-of_quiet (wrote f c m e) h = h
IsPlain-of_quiet served h = h
IsPlain-of_quiet cancelled h = h
IsPlain-of_quiet (signalled pid s e) h = h
IsPlain-of_quiet _ h = tt

IsPlain-of_read : (e : Event) → IsRead e → IsPlain e
IsPlain-of_read (started exe args r) h = h
IsPlain-of_read (wrote f c m e) h = h
IsPlain-of_read served h = h
IsPlain-of_read cancelled h = h
IsPlain-of_read (signalled pid s e) h = h
IsPlain-of_read _ h = tt

module _ {P : Event → Type 0} (quiet : (e : Event) → IsQuietCall e → P e) where
  inner : Logic (ExtendsOnly P) IsInnerCall
  inner = Logic-restrict ExtendsOnly-Logic (λ e h. quiet e (IsQuietCall-of_inner e h))

  module _ (env : Env) where
    connected :
        (A : Type 0) (config : DbHelperConfig) (m : Go A)
        → Has (ExtendsOnly P) m
        → Has (ExtendsOnly P) (with_connection env config m)
    unfolding with_connection
    connected A config m p =
        on_bind ExtendsOnly-Logic _ _
          (on_bind ExtendsOnly-Logic _ _ (on_call ExtendsOnly-Logic _ _ (λ _. quiet _ tt))
            (on_check ExtendsOnly-Logic))
          λ _. record {
            holds =
                Moves-deferring (Extends-IsPreorder P) closed_db m
                  (Extends-logged closed_db (quiet closed_db tt)) p.holds;
          }

    -- The operations of the helper that start no mysqld.
    pub new_db_helper-Passive-Extends :
        (config : DbHelperConfig) (log : String)
        → Passive (ExtendsOnly P) (new_db_helper env config log)
    new_db_helper-Passive-Extends = new_db_helper-Passive inner env connected

module _ {P : Event → Type 0} (plain : (e : Event) → IsPlain e → P e) where
  abbrev E : (A : Type 0) → Go A → Type 0
  E = ExtendsOnly P

  abbrev quiet_of : (e : Event) → IsQuietCall e → P e
  quiet_of e h = plain e (IsPlain-of_quiet e h)

  pub reads : Logic E IsRead
  reads = Logic-restrict ExtendsOnly-Logic (λ e h. plain e (IsPlain-of_read e h))

  module _ (env : Env) where
    -- The helper before the node state is known.
    pub new_db_helper-StandAlone-Extends :
        ((r : Result ℕ) → P (started "mysqld" upgrade_args r))
        → (config : DbHelperConfig) (log : String) → StandAlone E (new_db_helper env config log)
    new_db_helper-StandAlone-Extends upgrades =
        new_db_helper-StandAlone (inner quiet_of) env (connected quiet_of env)
          (on_call ExtendsOnly-Logic _ _ upgrades)

    -- The helper, but for the start of a new cluster.
    pub new_db_helper-Extends :
        ((r : Result ℕ) → P (started "mysqld" upgrade_args r))
        → ((r : Result ℕ) → P (started "mysqld" (my_cnf ∷ []) r))
        → (config : DbHelperConfig) (log : String) → Others E (new_db_helper env config log)
    new_db_helper-Extends upgrades joins =
        new_db_helper-Others (inner quiet_of) env (connected quiet_of env)
          (on_call ExtendsOnly-Logic _ _ upgrades) (on_call ExtendsOnly-Logic _ _ joins)

    module _ (db : DbHelper) (alone : StandAlone E db) where
      tries-Extends : (tries : ℕ) → Has E (wait_for_tries env db tries)
      unfolding wait_for_tries
      tries-Extends zero = on_fail ExtendsOnly-Logic _
      tries-Extends (suc tries) = on_bind ExtendsOnly-Logic _ _ alone.is_database_reachable (λ b.
          on_if b _ _ (on_pure ExtendsOnly-Logic tt)
            (on_bind ExtendsOnly-Logic _ _ (sleep-Extends plain env _) (λ _. tries-Extends tries)))

      wait-Extends : Has E (wait_until_mysql_reachable env db)
      unfolding wait_until_mysql_reachable
      wait-Extends = tries-Extends db_reachable_polling_attempts

      pub upgrade-Extends : Has E (upgrade env db)
      unfolding upgrade
      upgrade-Extends = on_bind ExtendsOnly-Logic _ _ alone.start_mysqld_for_upgrade λ cmd.
          on_bind ExtendsOnly-Logic _ _ (wait_for_command-Extends plain env cmd) λ ch.
            on_bind ExtendsOnly-Logic _ _ wait-Extends λ _.
              on_bind ExtendsOnly-Logic _ _ alone.upgrade λ r.
                on_bind ExtendsOnly-Logic _ _ alone.stop_mysqld λ _.
                  on_bind ExtendsOnly-Logic _ _ (receive-Extends plain env ch) λ e.
                    on_bind ExtendsOnly-Logic _ _ (on_check ExtendsOnly-Logic _)
                      λ _. on_check ExtendsOnly-Logic _

    module _ (db : DbHelper) (passive : Passive E db) where
      module _ (config : StartManagerConfig) (checker : ClusterHealthChecker) where
        pub wait-for-database-Extends :
            (fuel : ℕ) (ch : Chan) → Has E (wait_for_database env config db checker fuel ch)
        unfolding wait_for_database
        wait-for-database-Extends zero ch = record {
          holds = record { at = λ w. record { added = []; grown = refl; all = tt } };
        }
        wait-for-database-Extends (suc fuel) ch =
            on_bind ExtendsOnly-Logic _ _ (poll-Extends plain env ch) λ exited.
              on_if exited _ _ (on_fail ExtendsOnly-Logic _) (
                on_bind ExtendsOnly-Logic _ _ passive.is_database_reachable λ b.
                  on_if b _ _ (on_pure ExtendsOnly-Logic tt) (
                    on_bind ExtendsOnly-Logic _ _ (sleep-Extends plain env _)
                      λ _. wait-for-database-Extends fuel ch))

        set-Extends : (cmd : Cmd) → Has E (set_mysql_cmd cmd)
        unfolding set_mysql_cmd
        set-Extends cmd = record {
          holds = record { at = λ w. record { added = []; grown = refl; all = tt } };
        }

        pub join_cluster-Extends :
            Has E db.start_mysqld_in_join → Has E (join_cluster env config db checker)
        unfolding join_cluster
        join_cluster-Extends joins = on_bind ExtendsOnly-Logic _ _ joins λ cmd.
            on_bind ExtendsOnly-Logic _ _ (set-Extends cmd) λ _.
              on_bind ExtendsOnly-Logic _ _ (wait_for_command-Extends plain env cmd)
                λ ch. on_pure ExtendsOnly-Logic (some ch)

        module _ (closing : (e : Event) → IsClosing e → P e) (upgrader : Upgrader) (fuel : ℕ) where
          abbrev starter : Starter
          starter = new_starter env config db checker fuel

          get-Extends : Has E get_mysql_cmd
          unfolding get_mysql_cmd
          get-Extends = record {
            holds = record { at = λ w. record { added = []; grown = refl; all = tt } };
          }

          serve-Extends : Has E start
          unfolding start
          serve-Extends = record {
            holds = record { at = λ w. Extends-logged served (closing served tt) w };
          }

          terminate-Extends :
              (ch : Chan) (wake : Wake)
              → Has E
                  (terminate env config db upgrader starter new_galera_init_status_server ch wake)
          unfolding new_starter
          terminate-Extends ch (exit e) = on_check ExtendsOnly-Logic e
          terminate-Extends ch done = on_bind ExtendsOnly-Logic _ _ get-Extends λ cmd.
              on_bind ExtendsOnly-Logic _ _ (kill_command-Extends plain env closing cmd _) λ _.
                on_bind ExtendsOnly-Logic _ _ (receive-Extends plain env ch)
                  λ e. on_check ExtendsOnly-Logic e

          pub supervise-Extends :
              (ch : Chan)
              → Has E (supervise env config db upgrader starter new_galera_init_status_server ch)
          unfolding supervise
          supervise-Extends ch = on_bind ExtendsOnly-Logic _ _ serve-Extends λ _.
              on_bind ExtendsOnly-Logic _ _ (receive_or_done-Extends plain env closing ch)
                λ wake. terminate-Extends ch wake

-- ===== src/DbHelper/Operations.antt =====
-- `GaleraDBHelper` of db_helper/db_helper.go: a property of actions for all of its operations, from the
-- rules of `Logic` and from the property for a block with a connection.
use mariadb_ctrl.Prelude.{String, Bool, List, [], ◌∷◌}
use mariadb_ctrl.Go.Error.{Result, ok, err, no_rows, message, wrapped, exit_error}
use mariadb_ctrl.Go.World.{Cmd}
use mariadb_ctrl.Go.Action.{Go}
use mariadb_ctrl.Go.Logic.{Logic, Has, logic_rules, on_bind, on_attempt}
use mariadb_ctrl.Env.{Env}
use mariadb_ctrl.Config.{DbHelperConfig, PreseededDatabase, SeededUser}
use mariadb_ctrl.DbHelper.{DbHelper}
use mariadb_ctrl.DbHelper.Calls.{
  IsInnerCall, exec_call, query_row_call, query_any_call, run_command_call, read_file_call,
  start_command_call, StartsWith,
}
use mariadb_ctrl.DbHelper.Sql.{with_connection}
use mariadb_ctrl.DbHelper.Seeder.{
  create_db_if_needed, is_existing_user, create_user, update_user, grant_user_privileges,
}
use mariadb_ctrl.DbHelper.UserSeeder.{seed_user}
use mariadb_ctrl.DbHelper.Mysqld.{
  my_cnf, new_cluster, upgrade_args, is_process_running, stop_mysqld, start_mysqld_for_upgrade,
  start_mysqld_in_join, start_mysqld_in_bootstrap, upgrade, wrapping, by_provider, or_false,
  reachable_over, is_database_reachable,
}
use mariadb_ctrl.DbHelper.Seeding.{
  flush_privileges, seed_database, seed_databases, seed_all, seed, seed_each_user, seed_all_users,
  seed_users, run_contents, run_files, run_post_start_sql,
}
use mariadb_ctrl.DbHelper.Galera.{new_db_helper}

-- `K` holds of each operation that starts no mysqld.
pub record Passive (K : (A : Type 0) → Go A → Type 0) (db : DbHelper) : Type 0 where
  pub stop_mysqld : Has K db.stop_mysqld
  pub upgrade : Has K db.upgrade
  pub is_database_reachable : Has K db.is_database_reachable
  pub is_process_running : Has K db.is_process_running
  pub seed : Has K db.seed
  pub seed_users : Has K db.seed_users
  pub run_post_start_sql : Has K db.run_post_start_sql

-- `K` holds of each operation that a run may need before its node state is known.
pub record StandAlone (K : (A : Type 0) → Go A → Type 0) (db : DbHelper) : Type 0 where
  pub passive : Passive K db
  pub open passive use *
  pub start_mysqld_for_upgrade : Has K db.start_mysqld_for_upgrade

-- `K` holds of each operation but the start of a new cluster.
pub record Others (K : (A : Type 0) → Go A → Type 0) (db : DbHelper) : Type 0 where
  pub alone : StandAlone K db
  pub open alone use *
  pub start_mysqld_in_join : Has K db.start_mysqld_in_join

-- `K` holds of each operation.
pub record Every (K : (A : Type 0) → Go A → Type 0) (db : DbHelper) : Type 0 where
  pub others : Others K db
  pub open others use *
  pub start_mysqld_in_bootstrap : Has K db.start_mysqld_in_bootstrap

-- Two properties that give a third give it of each operation.
pub Every-map2 :
    {K L N : (A : Type 0) → Go A → Type 0} {db : DbHelper}
    → ((A : Type 0) (m : Go A) → K A m → L A m → N A m)
    → Every K db
    → Every L db
    → Every N db
Every-map2 {K} {L} {N} f p q = record {
  others = record {
    alone = record {
      passive = record {
        stop_mysqld = both p.stop_mysqld q.stop_mysqld;
        upgrade = both p.upgrade q.upgrade;
        is_database_reachable = both p.is_database_reachable q.is_database_reachable;
        is_process_running = both p.is_process_running q.is_process_running;
        seed = both p.seed q.seed;
        seed_users = both p.seed_users q.seed_users;
        run_post_start_sql = both p.run_post_start_sql q.run_post_start_sql;
      };
      start_mysqld_for_upgrade = both p.start_mysqld_for_upgrade q.start_mysqld_for_upgrade;
    };
    start_mysqld_in_join = both p.start_mysqld_in_join q.start_mysqld_in_join;
  };
  start_mysqld_in_bootstrap = both p.start_mysqld_in_bootstrap q.start_mysqld_in_bootstrap;
}
  where
    both : {A : Type 0} {m : Go A} → Has K m → Has L m → Has N m
    both {A} {m} a b = record { holds = f A m a.holds b.holds }

abbrev pub OnConnection : ((A : Type 0) → Go A → Type 0) → Env → Type 1
OnConnection K env =
    (A : Type 0) (config : DbHelperConfig) (m : Go A)
    → Has K m
    → Has K (with_connection env config m)

module _ {K : (A : Type 0) → Go A → Type 0} (L : Logic K IsInnerCall) (env : Env)
    (connected : OnConnection K env) where
  wrapping_call : (msg : String) (r : Result Cmd) → Has K (wrapping msg r)
  wrapping_call msg (ok cmd) = search logic_rules
  wrapping_call msg (err e) = search logic_rules

  by_provider_call : (r : Result (String × String)) → Has K (by_provider env r)
  by_provider_call (ok (unused, value)) = search (logic_rules, query_row_call)
  by_provider_call (err no_rows) = search logic_rules
  by_provider_call (err (message m)) = search logic_rules
  by_provider_call (err (exit_error s)) = search logic_rules
  by_provider_call (err (wrapped m args e)) = search logic_rules

  or_false_call : (r : Result Bool) → Has K (or_false env r)
  or_false_call (ok b) = search logic_rules
  or_false_call (err e) = search logic_rules

  reachable_over_call : Has K (reachable_over env)
  unfolding reachable_over
  reachable_over_call = search (logic_rules, query_row_call, by_provider_call)

  seed_database_call : (d : PreseededDatabase) → Has K (seed_database env d)
  unfolding seed_database create_db_if_needed is_existing_user create_user update_user
      grant_user_privileges
  seed_database_call d = search (logic_rules, exec_call, query_any_call)

  seed_databases_call : (ds : List PreseededDatabase) → Has K (seed_databases env ds)
  unfolding seed_databases
  seed_databases_call [] = search logic_rules
  seed_databases_call (d ∷ ds) = on_bind L _ _ (seed_database_call d) (λ _. seed_databases_call ds)

  seed_all_call :
      (config : DbHelperConfig) (ds : List PreseededDatabase) → Has K (seed_all env config ds)
  unfolding flush_privileges
  seed_all_call config [] = search logic_rules
  seed_all_call config (d ∷ ds) = search (logic_rules, connected, seed_databases_call, exec_call)

  seed_user_call : (u : SeededUser) → Has K (seed_user env u)
  unfolding seed_user
  seed_user_call u = search (logic_rules, exec_call)

  seed_each_user_call : (us : List SeededUser) → Has K (seed_each_user env us)
  unfolding seed_each_user
  seed_each_user_call [] = search logic_rules
  seed_each_user_call (u ∷ us) = on_bind L _ _ (seed_user_call u) (λ _. seed_each_user_call us)

  seed_all_users_call :
      (config : DbHelperConfig) (us : List SeededUser) → Has K (seed_all_users env config us)
  seed_all_users_call config [] = search logic_rules
  seed_all_users_call config (u ∷ us) = search (logic_rules, connected, seed_each_user_call)

  run_contents_call : (r : Result String) → Has K (run_contents env r)
  run_contents_call (ok sql) = search (logic_rules, exec_call)
  run_contents_call (err e) = search logic_rules

  run_files_call : (files : List String) → Has K (run_files env files)
  unfolding run_files
  run_files_call [] = search logic_rules
  run_files_call (f ∷ files) =
      on_bind L _ _ (on_attempt L _ (read_file_call L env f))
        (λ r. on_bind L _ _ (run_contents_call r) (λ _. run_files_call files))

  pub new_db_helper-Passive :
      (config : DbHelperConfig) (log : String) → Passive K (new_db_helper env config log)
  unfolding new_db_helper is_process_running stop_mysqld upgrade is_database_reachable seed
      seed_users run_post_start_sql
  new_db_helper-Passive config log = record {
    stop_mysqld = search (logic_rules, run_command_call);
    upgrade = run_command_call L env _ _;
    is_database_reachable = search (logic_rules, connected, reachable_over_call, or_false_call);
    is_process_running = search (logic_rules, run_command_call);
    seed = seed_all_call config config.preseeded_databases;
    seed_users = seed_all_users_call config config.seeded_users;
    run_post_start_sql = search (logic_rules, connected, run_files_call);
  }

  module _ (upgrades : StartsWith K env "mysqld" upgrade_args) where
    upgrade_call : (log : String) → Has K (start_mysqld_for_upgrade env log)
    unfolding start_mysqld_for_upgrade
    upgrade_call log =
        on_bind L _ _ (on_attempt L _ (start_command_call L env log _ _ upgrades))
          (wrapping_call "Error starting mysqld in stand-alone")

    pub new_db_helper-StandAlone :
        (config : DbHelperConfig) (log : String) → StandAlone K (new_db_helper env config log)
    unfolding new_db_helper
    new_db_helper-StandAlone config log = record {
      passive = new_db_helper-Passive config log;
      start_mysqld_for_upgrade = upgrade_call log;
    }

    module _ (joins : StartsWith K env "mysqld" (my_cnf ∷ [])) where
      pub new_db_helper-Others :
          (config : DbHelperConfig) (log : String) → Others K (new_db_helper env config log)
      unfolding new_db_helper start_mysqld_in_join
      new_db_helper-Others config log = record {
        alone = new_db_helper-StandAlone config log;
        start_mysqld_in_join = start_command_call L env log _ _ joins;
      }

      pub new_db_helper-Every :
          StartsWith K env "mysqld" (my_cnf ∷ new_cluster ∷ [])
          → (config : DbHelperConfig) (log : String) → Every K (new_db_helper env config log)
      unfolding new_db_helper start_mysqld_in_bootstrap
      new_db_helper-Every bootstraps config log = record {
        others = new_db_helper-Others config log;
        start_mysqld_in_bootstrap = start_command_call L env log _ _ bootstraps;
      }

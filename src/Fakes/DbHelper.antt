-- ===== src/Fakes/DbHelper.antt =====
-- db_helper/db_helperfakes/fake_dbhelper.go.
use mariadb_ctrl.Prelude.{String, Bool, false, List, [], Option, none}
use mariadb_ctrl.Go.Error.{Error}
use mariadb_ctrl.Go.World.{Cmd}
use mariadb_ctrl.Fakes.Method.{
  Value, Invocations, recorded, copied, Method, Procedure, Slot, Double, Dummy, new_method,
  new_procedure, double, dummy,
}

pub record FakeDbHelper (S : Type 0) : Type 0 where
  pub is_database_reachable : Method S (Unit {0}) Bool
  pub is_process_running : Method S (Unit {0}) Bool
  pub run_post_start_sql : Method S (Unit {0}) (Option Error)
  pub seed : Method S (Unit {0}) (Option Error)
  pub seed_users : Method S (Unit {0}) (Option Error)
  pub start_mysqld_for_upgrade : Method S (Unit {0}) (Option Cmd × Option Error)
  pub start_mysqld_in_bootstrap : Method S (Unit {0}) (Option Cmd × Option Error)
  pub start_mysqld_in_join : Method S (Unit {0}) (Option Cmd × Option Error)
  pub stop_mysqld : Procedure S (Unit {0})
  pub upgrade : Method S (Unit {0}) (String × Option Error)
  pub invocations : Invocations

module _ {S : Type 0} where
  -- `new(FakeDBHelper)`
  unfoldable pub new_fake_db_helper : FakeDbHelper S
  unfolding new_method new_procedure
  new_fake_db_helper = record {
    is_database_reachable = new_method false;
    is_process_running = new_method false;
    run_post_start_sql = new_method none;
    seed = new_method none;
    seed_users = new_method none;
    start_mysqld_for_upgrade = new_method (none, none);
    start_mysqld_in_bootstrap = new_method (none, none);
    start_mysqld_in_join = new_method (none, none);
    stop_mysqld = new_procedure;
    upgrade = new_method ("", none);
    invocations = [];
  }

  unfoldable pub invocations : FakeDbHelper S → Invocations
  unfolding copied
  invocations f = copied f.invocations

  unfoldable pub record_invocation : String → List Value → FakeDbHelper S → FakeDbHelper S
  unfolding recorded
  record_invocation key args f = record f { invocations = recorded key args f.invocations }

  abbrev pub is_database_reachable_slot : Slot (FakeDbHelper S) (Method S (Unit {0}) Bool)
  is_database_reachable_slot = record {
    get = λ f. f.is_database_reachable;
    put = λ m f. record f { is_database_reachable = m };
  }

  unfoldable pub is_database_reachable : Double (FakeDbHelper S) S (Unit {0}) Bool
  unfolding double record_invocation
  is_database_reachable =
      double is_database_reachable_slot "IsDatabaseReachable" (λ _. []) record_invocation

  abbrev pub is_process_running_slot : Slot (FakeDbHelper S) (Method S (Unit {0}) Bool)
  is_process_running_slot = record {
    get = λ f. f.is_process_running;
    put = λ m f. record f { is_process_running = m };
  }

  unfoldable pub is_process_running : Double (FakeDbHelper S) S (Unit {0}) Bool
  unfolding double record_invocation
  is_process_running = double is_process_running_slot "IsProcessRunning" (λ _. []) record_invocation

  abbrev pub run_post_start_sql_slot : Slot (FakeDbHelper S) (Method S (Unit {0}) (Option Error))
  run_post_start_sql_slot = record {
    get = λ f. f.run_post_start_sql;
    put = λ m f. record f { run_post_start_sql = m };
  }

  unfoldable pub run_post_start_sql : Double (FakeDbHelper S) S (Unit {0}) (Option Error)
  unfolding double record_invocation
  run_post_start_sql = double run_post_start_sql_slot "RunPostStartSQL" (λ _. []) record_invocation

  abbrev pub seed_slot : Slot (FakeDbHelper S) (Method S (Unit {0}) (Option Error))
  seed_slot = record { get = λ f. f.seed; put = λ m f. record f { seed = m } }

  unfoldable pub seed : Double (FakeDbHelper S) S (Unit {0}) (Option Error)
  unfolding double record_invocation
  seed = double seed_slot "Seed" (λ _. []) record_invocation

  abbrev pub seed_users_slot : Slot (FakeDbHelper S) (Method S (Unit {0}) (Option Error))
  seed_users_slot = record { get = λ f. f.seed_users; put = λ m f. record f { seed_users = m } }

  unfoldable pub seed_users : Double (FakeDbHelper S) S (Unit {0}) (Option Error)
  unfolding double record_invocation
  seed_users = double seed_users_slot "SeedUsers" (λ _. []) record_invocation

  abbrev pub start_mysqld_for_upgrade_slot :
      Slot (FakeDbHelper S) (Method S (Unit {0}) (Option Cmd × Option Error))
  start_mysqld_for_upgrade_slot = record {
    get = λ f. f.start_mysqld_for_upgrade;
    put = λ m f. record f { start_mysqld_for_upgrade = m };
  }

  unfoldable pub start_mysqld_for_upgrade :
      Double (FakeDbHelper S) S (Unit {0}) (Option Cmd × Option Error)
  unfolding double record_invocation
  start_mysqld_for_upgrade =
      double start_mysqld_for_upgrade_slot "StartMysqldForUpgrade" (λ _. []) record_invocation

  abbrev pub start_mysqld_in_bootstrap_slot :
      Slot (FakeDbHelper S) (Method S (Unit {0}) (Option Cmd × Option Error))
  start_mysqld_in_bootstrap_slot = record {
    get = λ f. f.start_mysqld_in_bootstrap;
    put = λ m f. record f { start_mysqld_in_bootstrap = m };
  }

  unfoldable pub start_mysqld_in_bootstrap :
      Double (FakeDbHelper S) S (Unit {0}) (Option Cmd × Option Error)
  unfolding double record_invocation
  start_mysqld_in_bootstrap =
      double start_mysqld_in_bootstrap_slot "StartMysqldInBootstrap" (λ _. []) record_invocation

  abbrev pub start_mysqld_in_join_slot :
      Slot (FakeDbHelper S) (Method S (Unit {0}) (Option Cmd × Option Error))
  start_mysqld_in_join_slot = record {
    get = λ f. f.start_mysqld_in_join;
    put = λ m f. record f { start_mysqld_in_join = m };
  }

  unfoldable pub start_mysqld_in_join :
      Double (FakeDbHelper S) S (Unit {0}) (Option Cmd × Option Error)
  unfolding double record_invocation
  start_mysqld_in_join =
      double start_mysqld_in_join_slot "StartMysqldInJoin" (λ _. []) record_invocation

  abbrev pub stop_mysqld_slot : Slot (FakeDbHelper S) (Procedure S (Unit {0}))
  stop_mysqld_slot = record { get = λ f. f.stop_mysqld; put = λ m f. record f { stop_mysqld = m } }

  unfoldable pub stop_mysqld : Dummy (FakeDbHelper S) S (Unit {0})
  unfolding dummy record_invocation
  stop_mysqld = dummy stop_mysqld_slot "StopMysqld" (λ _. []) record_invocation

  abbrev pub upgrade_slot : Slot (FakeDbHelper S) (Method S (Unit {0}) (String × Option Error))
  upgrade_slot = record { get = λ f. f.upgrade; put = λ m f. record f { upgrade = m } }

  unfoldable pub upgrade : Double (FakeDbHelper S) S (Unit {0}) (String × Option Error)
  unfolding double record_invocation
  upgrade = double upgrade_slot "Upgrade" (λ _. []) record_invocation

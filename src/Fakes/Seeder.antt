-- ===== src/Fakes/Seeder.antt =====
-- db_helper/seeder/seederfakes/fake_seeder.go.
use mariadb_ctrl.Prelude.{String, Bool, false, List, [], Option, none}
use mariadb_ctrl.Go.Error.{Error}
use mariadb_ctrl.Fakes.Method.{
  Value, Invocations, recorded, copied, Method, Slot, Double, new_method, new_procedure, double,
}

pub record FakeSeeder (S : Type 0) : Type 0 where
  pub create_db_if_needed : Method S (Unit {0}) (Option Error)
  pub create_user : Method S (Unit {0}) (Option Error)
  pub grant_user_privileges : Method S (Unit {0}) (Option Error)
  pub is_existing_user : Method S (Unit {0}) (Bool × Option Error)
  pub update_user : Method S (Unit {0}) (Option Error)
  pub invocations : Invocations

module _ {S : Type 0} where
  -- `new(FakeSeeder)`
  unfoldable pub new_fake_seeder : FakeSeeder S
  unfolding new_method new_procedure
  new_fake_seeder = record {
    create_db_if_needed = new_method none;
    create_user = new_method none;
    grant_user_privileges = new_method none;
    is_existing_user = new_method (false, none);
    update_user = new_method none;
    invocations = [];
  }

  unfoldable pub invocations : FakeSeeder S → Invocations
  unfolding copied
  invocations f = copied f.invocations

  unfoldable pub record_invocation : String → List Value → FakeSeeder S → FakeSeeder S
  unfolding recorded
  record_invocation key args f = record f { invocations = recorded key args f.invocations }

  abbrev pub create_db_if_needed_slot : Slot (FakeSeeder S) (Method S (Unit {0}) (Option Error))
  create_db_if_needed_slot = record {
    get = λ f. f.create_db_if_needed;
    put = λ m f. record f { create_db_if_needed = m };
  }

  unfoldable pub create_db_if_needed : Double (FakeSeeder S) S (Unit {0}) (Option Error)
  unfolding double record_invocation
  create_db_if_needed =
      double create_db_if_needed_slot "CreateDBIfNeeded" (λ _. []) record_invocation

  abbrev pub create_user_slot : Slot (FakeSeeder S) (Method S (Unit {0}) (Option Error))
  create_user_slot = record { get = λ f. f.create_user; put = λ m f. record f { create_user = m } }

  unfoldable pub create_user : Double (FakeSeeder S) S (Unit {0}) (Option Error)
  unfolding double record_invocation
  create_user = double create_user_slot "CreateUser" (λ _. []) record_invocation

  abbrev pub grant_user_privileges_slot : Slot (FakeSeeder S) (Method S (Unit {0}) (Option Error))
  grant_user_privileges_slot = record {
    get = λ f. f.grant_user_privileges;
    put = λ m f. record f { grant_user_privileges = m };
  }

  unfoldable pub grant_user_privileges : Double (FakeSeeder S) S (Unit {0}) (Option Error)
  unfolding double record_invocation
  grant_user_privileges =
      double grant_user_privileges_slot "GrantUserPrivileges" (λ _. []) record_invocation

  abbrev pub is_existing_user_slot : Slot (FakeSeeder S) (Method S (Unit {0}) (Bool × Option Error))
  is_existing_user_slot = record {
    get = λ f. f.is_existing_user;
    put = λ m f. record f { is_existing_user = m };
  }

  unfoldable pub is_existing_user : Double (FakeSeeder S) S (Unit {0}) (Bool × Option Error)
  unfolding double record_invocation
  is_existing_user = double is_existing_user_slot "IsExistingUser" (λ _. []) record_invocation

  abbrev pub update_user_slot : Slot (FakeSeeder S) (Method S (Unit {0}) (Option Error))
  update_user_slot = record { get = λ f. f.update_user; put = λ m f. record f { update_user = m } }

  unfoldable pub update_user : Double (FakeSeeder S) S (Unit {0}) (Option Error)
  unfolding double record_invocation
  update_user = double update_user_slot "UpdateUser" (λ _. []) record_invocation

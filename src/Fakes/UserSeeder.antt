-- ===== src/Fakes/UserSeeder.antt =====
-- db_helper/db_helperfakes/fake_user_seeder.go.
use mariadb_ctrl.Prelude.{ℕ, String, List, [], ◌∷◌, Option, none}
use mariadb_ctrl.Go.Error.{Error}
use mariadb_ctrl.Fakes.Method.{
  Value, text, Invocations, recorded, copied, Method, Slot, Double, new_method, new_procedure,
  double, args_for_call,
}

pub record FakeUserSeeder (S : Type 0) : Type 0 where
  pub seed_user : Method S (String × String × String × String) (Option Error)
  pub invocations : Invocations

module _ {S : Type 0} where
  -- `new(FakeUserSeeder)`
  unfoldable pub new_fake_user_seeder : FakeUserSeeder S
  unfolding new_method new_procedure
  new_fake_user_seeder = record { seed_user = new_method none; invocations = [] }

  unfoldable pub invocations : FakeUserSeeder S → Invocations
  unfolding copied
  invocations f = copied f.invocations

  unfoldable pub record_invocation : String → List Value → FakeUserSeeder S → FakeUserSeeder S
  unfolding recorded
  record_invocation key args f = record f { invocations = recorded key args f.invocations }

  abbrev pub seed_user_slot :
      Slot (FakeUserSeeder S) (Method S (String × String × String × String) (Option Error))
  seed_user_slot = record { get = λ f. f.seed_user; put = λ m f. record f { seed_user = m } }

  unfoldable pub seed_user :
      Double (FakeUserSeeder S) S (String × String × String × String) (Option Error)
  unfolding double record_invocation
  seed_user =
      double seed_user_slot "SeedUser" (λ a. text a.0 ∷ text a.1 ∷ text a.2 ∷ text a.3 ∷ [])
        record_invocation

  unfoldable pub seed_user_args_for_call :
      ℕ → FakeUserSeeder S → Option (String × String × String × String)
  unfolding args_for_call
  seed_user_args_for_call = args_for_call seed_user_slot

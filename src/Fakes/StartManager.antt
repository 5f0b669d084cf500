-- ===== src/Fakes/StartManager.antt =====
-- start_manager/start_managerfakes/fake_start_manager.go.
use mariadb_ctrl.Prelude.{ℕ, String, List, [], ◌∷◌, Option, none}
use mariadb_ctrl.Go.Error.{Error}
use mariadb_ctrl.Fakes.Method.{
  Value, context, Invocations, recorded, copied, Method, Procedure, Slot, Double, Dummy, new_method,
  new_procedure, double, dummy, args_for_call,
}

pub record FakeStartManager (S : Type 0) : Type 0 where
  pub execute : Method S ℕ (Option Error)
  pub shutdown : Procedure S (Unit {0})
  pub invocations : Invocations

module _ {S : Type 0} where
  -- `new(FakeStartManager)`
  unfoldable pub new_fake_start_manager : FakeStartManager S
  unfolding new_method new_procedure
  new_fake_start_manager = record {
    execute = new_method none;
    shutdown = new_procedure;
    invocations = [];
  }

  unfoldable pub invocations : FakeStartManager S → Invocations
  unfolding copied
  invocations f = copied f.invocations

  unfoldable pub record_invocation : String → List Value → FakeStartManager S → FakeStartManager S
  unfolding recorded
  record_invocation key args f = record f { invocations = recorded key args f.invocations }

  abbrev pub execute_slot : Slot (FakeStartManager S) (Method S ℕ (Option Error))
  execute_slot = record { get = λ f. f.execute; put = λ m f. record f { execute = m } }

  unfoldable pub execute : Double (FakeStartManager S) S ℕ (Option Error)
  unfolding double record_invocation
  execute = double execute_slot "Execute" (λ a. context a ∷ []) record_invocation

  unfoldable pub execute_args_for_call : ℕ → FakeStartManager S → Option ℕ
  unfolding args_for_call
  execute_args_for_call = args_for_call execute_slot

  abbrev pub shutdown_slot : Slot (FakeStartManager S) (Procedure S (Unit {0}))
  shutdown_slot = record { get = λ f. f.shutdown; put = λ m f. record f { shutdown = m } }

  unfoldable pub shutdown : Dummy (FakeStartManager S) S (Unit {0})
  unfolding dummy record_invocation
  shutdown = dummy shutdown_slot "Shutdown" (λ _. []) record_invocation

-- ===== src/Fakes/ServiceStatus.antt =====
-- start_manager/start_managerfakes/fake_service_status.go.
use mariadb_ctrl.Prelude.{String, List, [], Option, none}
use mariadb_ctrl.Go.Error.{Error}
use mariadb_ctrl.Fakes.Method.{
  Value, Invocations, recorded, copied, Method, Slot, Double, new_method, new_procedure, double,
}

pub record FakeServiceStatus (S : Type 0) : Type 0 where
  pub start : Method S (Unit {0}) (Option Error)
  pub invocations : Invocations

module _ {S : Type 0} where
  -- `new(FakeServiceStatus)`
  unfoldable pub new_fake_service_status : FakeServiceStatus S
  unfolding new_method new_procedure
  new_fake_service_status = record { start = new_method none; invocations = [] }

  unfoldable pub invocations : FakeServiceStatus S → Invocations
  unfolding copied
  invocations f = copied f.invocations

  unfoldable pub record_invocation : String → List Value → FakeServiceStatus S → FakeServiceStatus S
  unfolding recorded
  record_invocation key args f = record f { invocations = recorded key args f.invocations }

  abbrev pub start_slot : Slot (FakeServiceStatus S) (Method S (Unit {0}) (Option Error))
  start_slot = record { get = λ f. f.start; put = λ m f. record f { start = m } }

  unfoldable pub start : Double (FakeServiceStatus S) S (Unit {0}) (Option Error)
  unfolding double record_invocation
  start = double start_slot "Start" (λ _. []) record_invocation

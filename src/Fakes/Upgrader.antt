-- ===== src/Fakes/Upgrader.antt =====
-- upgrader/upgraderfakes/fake_upgrader.go.
use mariadb_ctrl.Prelude.{String, Bool, false, List, [], Option, none}
use mariadb_ctrl.Go.Error.{Error}
use mariadb_ctrl.Fakes.Method.{
  Value, Invocations, recorded, copied, Method, Slot, Double, new_method, new_procedure, double,
}

pub record FakeUpgrader (S : Type 0) : Type 0 where
  pub needs_upgrade : Method S (Unit {0}) (Bool × Option Error)
  pub upgrade : Method S (Unit {0}) (Option Error)
  pub invocations : Invocations

module _ {S : Type 0} where
  -- `new(FakeUpgrader)`
  unfoldable pub new_fake_upgrader : FakeUpgrader S
  unfolding new_method new_procedure
  new_fake_upgrader = record {
    needs_upgrade = new_method (false, none);
    upgrade = new_method none;
    invocations = [];
  }

  unfoldable pub invocations : FakeUpgrader S → Invocations
  unfolding copied
  invocations f = copied f.invocations

  unfoldable pub record_invocation : String → List Value → FakeUpgrader S → FakeUpgrader S
  unfolding recorded
  record_invocation key args f = record f { invocations = recorded key args f.invocations }

  abbrev pub needs_upgrade_slot : Slot (FakeUpgrader S) (Method S (Unit {0}) (Bool × Option Error))
  needs_upgrade_slot = record {
    get = λ f. f.needs_upgrade;
    put = λ m f. record f { needs_upgrade = m };
  }

  unfoldable pub needs_upgrade : Double (FakeUpgrader S) S (Unit {0}) (Bool × Option Error)
  unfolding double record_invocation
  needs_upgrade = double needs_upgrade_slot "NeedsUpgrade" (λ _. []) record_invocation

  abbrev pub upgrade_slot : Slot (FakeUpgrader S) (Method S (Unit {0}) (Option Error))
  upgrade_slot = record { get = λ f. f.upgrade; put = λ m f. record f { upgrade = m } }

  unfoldable pub upgrade : Double (FakeUpgrader S) S (Unit {0}) (Option Error)
  unfolding double record_invocation
  upgrade = double upgrade_slot "Upgrade" (λ _. []) record_invocation

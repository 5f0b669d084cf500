-- ===== src/Fakes/Starter.antt =====
-- start_manager/node_starter/node_starterfakes/fake_starter.go.
use mariadb_ctrl.Prelude.{ℕ, String, List, [], ◌∷◌, Option, none}
use mariadb_ctrl.Go.Error.{Error}
use mariadb_ctrl.Go.World.{Cmd, Chan}
use mariadb_ctrl.Fakes.Method.{
  Value, text, Invocations, recorded, copied, Method, Slot, Double, new_method, new_procedure,
  double, args_for_call,
}

pub record FakeStarter (S : Type 0) : Type 0 where
  pub get_mysql_cmd : Method S (Unit {0}) (Option Cmd)
  pub start_node_from_state : Method S String (String × Option Chan × Option Error)
  pub invocations : Invocations

module _ {S : Type 0} where
  -- `new(FakeStarter)`
  unfoldable pub new_fake_starter : FakeStarter S
  unfolding new_method new_procedure
  new_fake_starter = record {
    get_mysql_cmd = new_method none;
    start_node_from_state = new_method ("", none, none);
    invocations = [];
  }

  unfoldable pub invocations : FakeStarter S → Invocations
  unfolding copied
  invocations f = copied f.invocations

  unfoldable pub record_invocation : String → List Value → FakeStarter S → FakeStarter S
  unfolding recorded
  record_invocation key args f = record f { invocations = recorded key args f.invocations }

  abbrev pub get_mysql_cmd_slot : Slot (FakeStarter S) (Method S (Unit {0}) (Option Cmd))
  get_mysql_cmd_slot = record {
    get = λ f. f.get_mysql_cmd;
    put = λ m f. record f { get_mysql_cmd = m };
  }

  unfoldable pub get_mysql_cmd : Double (FakeStarter S) S (Unit {0}) (Option Cmd)
  unfolding double record_invocation
  get_mysql_cmd = double get_mysql_cmd_slot "GetMysqlCmd" (λ _. []) record_invocation

  abbrev pub start_node_from_state_slot :
      Slot (FakeStarter S) (Method S String (String × Option Chan × Option Error))
  start_node_from_state_slot = record {
    get = λ f. f.start_node_from_state;
    put = λ m f. record f { start_node_from_state = m };
  }

  unfoldable pub start_node_from_state :
      Double (FakeStarter S) S String (String × Option Chan × Option Error)
  unfolding double record_invocation
  start_node_from_state =
      double start_node_from_state_slot "StartNodeFromState" (λ a. text a ∷ []) record_invocation

  unfoldable pub start_node_from_state_args_for_call : ℕ → FakeStarter S → Option String
  unfolding args_for_call
  start_node_from_state_args_for_call = args_for_call start_node_from_state_slot

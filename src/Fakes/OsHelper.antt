-- ===== src/Fakes/OsHelper.antt =====
-- os_helper/os_helperfakes/fake_os_helper.go: `FakeOsHelper`.
pub mod Recording
use mariadb_ctrl.Prelude.{ℕ, String, Bool, false, List, [], ◌∷◌, Option, none}
use mariadb_ctrl.Go.Error.{Error}
use mariadb_ctrl.Go.World.{Cmd, Chan}
use mariadb_ctrl.Fakes.Method.{
  Value, text, texts, command, signal, duration, context, Invocations, recorded, copied, Method,
  Procedure, Slot, Double, Dummy, new_method, new_procedure, double, dummy, args_for_call,
  procedure_args_for_call,
}

pub record FakeOsHelper (S : Type 0) : Type 0 where
  pub file_exists : Method S String Bool
  pub kill_command : Method S (Option Cmd × ℕ) (Option Error)
  pub read_file : Method S String (String × Option Error)
  pub run_command : Method S (String × List String) (String × Option Error)
  pub sleep : Procedure S ℕ
  pub start_command : Method S (String × String × List String) (Option Cmd × Option Error)
  pub wait_for_command : Method S (Option Cmd) (Option Chan)
  pub write_string_to_file : Method S (String × String) (Option Error)
  pub invocations : Invocations

module _ {S : Type 0} where
  -- `new(FakeOsHelper)`
  unfoldable pub new_fake_os_helper : FakeOsHelper S
  unfolding new_method new_procedure
  new_fake_os_helper = record {
    file_exists = new_method false;
    kill_command = new_method none;
    read_file = new_method ("", none);
    run_command = new_method ("", none);
    sleep = new_procedure;
    start_command = new_method (none, none);
    wait_for_command = new_method none;
    write_string_to_file = new_method none;
    invocations = [];
  }

  unfoldable pub invocations : FakeOsHelper S → Invocations
  unfolding copied
  invocations f = copied f.invocations

  unfoldable pub record_invocation : String → List Value → FakeOsHelper S → FakeOsHelper S
  unfolding recorded
  record_invocation key args f = record f { invocations = recorded key args f.invocations }

  abbrev pub file_exists_slot : Slot (FakeOsHelper S) (Method S String Bool)
  file_exists_slot = record { get = λ f. f.file_exists; put = λ m f. record f { file_exists = m } }

  unfoldable pub file_exists : Double (FakeOsHelper S) S String Bool
  unfolding double record_invocation
  file_exists = double file_exists_slot "FileExists" (λ a. text a ∷ []) record_invocation

  unfoldable pub file_exists_args_for_call : ℕ → FakeOsHelper S → Option String
  unfolding args_for_call
  file_exists_args_for_call = args_for_call file_exists_slot

  abbrev pub kill_command_slot : Slot (FakeOsHelper S) (Method S (Option Cmd × ℕ) (Option Error))
  kill_command_slot = record {
    get = λ f. f.kill_command;
    put = λ m f. record f { kill_command = m };
  }

  unfoldable pub kill_command : Double (FakeOsHelper S) S (Option Cmd × ℕ) (Option Error)
  unfolding double record_invocation
  kill_command =
      double kill_command_slot "KillCommand" (λ a. command a.0 ∷ signal a.1 ∷ []) record_invocation

  unfoldable pub kill_command_args_for_call : ℕ → FakeOsHelper S → Option (Option Cmd × ℕ)
  unfolding args_for_call
  kill_command_args_for_call = args_for_call kill_command_slot

  abbrev pub read_file_slot : Slot (FakeOsHelper S) (Method S String (String × Option Error))
  read_file_slot = record { get = λ f. f.read_file; put = λ m f. record f { read_file = m } }

  unfoldable pub read_file : Double (FakeOsHelper S) S String (String × Option Error)
  unfolding double record_invocation
  read_file = double read_file_slot "ReadFile" (λ a. text a ∷ []) record_invocation

  unfoldable pub read_file_args_for_call : ℕ → FakeOsHelper S → Option String
  unfolding args_for_call
  read_file_args_for_call = args_for_call read_file_slot

  abbrev pub run_command_slot :
      Slot (FakeOsHelper S) (Method S (String × List String) (String × Option Error))
  run_command_slot = record { get = λ f. f.run_command; put = λ m f. record f { run_command = m } }

  unfoldable pub run_command :
      Double (FakeOsHelper S) S (String × List String) (String × Option Error)
  unfolding double record_invocation
  run_command =
      double run_command_slot "RunCommand" (λ a. text a.0 ∷ texts a.1 ∷ []) record_invocation

  unfoldable pub run_command_args_for_call : ℕ → FakeOsHelper S → Option (String × List String)
  unfolding args_for_call
  run_command_args_for_call = args_for_call run_command_slot

  abbrev pub sleep_slot : Slot (FakeOsHelper S) (Procedure S ℕ)
  sleep_slot = record { get = λ f. f.sleep; put = λ m f. record f { sleep = m } }

  unfoldable pub sleep : Dummy (FakeOsHelper S) S ℕ
  unfolding dummy record_invocation
  sleep = dummy sleep_slot "Sleep" (λ a. duration a ∷ []) record_invocation

  unfoldable pub sleep_args_for_call : ℕ → FakeOsHelper S → Option ℕ
  unfolding procedure_args_for_call
  sleep_args_for_call = procedure_args_for_call sleep_slot

  abbrev pub start_command_slot :
      Slot (FakeOsHelper S) (Method S (String × String × List String) (Option Cmd × Option Error))
  start_command_slot = record {
    get = λ f. f.start_command;
    put = λ m f. record f { start_command = m };
  }

  unfoldable pub start_command :
      Double (FakeOsHelper S) S (String × String × List String) (Option Cmd × Option Error)
  unfolding double record_invocation
  start_command =
      double start_command_slot "StartCommand" (λ a. text a.0 ∷ text a.1 ∷ texts a.2 ∷ [])
        record_invocation

  unfoldable pub start_command_args_for_call :
      ℕ → FakeOsHelper S → Option (String × String × List String)
  unfolding args_for_call
  start_command_args_for_call = args_for_call start_command_slot

  abbrev pub wait_for_command_slot : Slot (FakeOsHelper S) (Method S (Option Cmd) (Option Chan))
  wait_for_command_slot = record {
    get = λ f. f.wait_for_command;
    put = λ m f. record f { wait_for_command = m };
  }

  unfoldable pub wait_for_command : Double (FakeOsHelper S) S (Option Cmd) (Option Chan)
  unfolding double record_invocation
  wait_for_command =
      double wait_for_command_slot "WaitForCommand" (λ a. command a ∷ []) record_invocation

  unfoldable pub wait_for_command_args_for_call : ℕ → FakeOsHelper S → Option (Option Cmd)
  unfolding args_for_call
  wait_for_command_args_for_call = args_for_call wait_for_command_slot

  abbrev pub write_string_to_file_slot :
      Slot (FakeOsHelper S) (Method S (String × String) (Option Error))
  write_string_to_file_slot = record {
    get = λ f. f.write_string_to_file;
    put = λ m f. record f { write_string_to_file = m };
  }

  unfoldable pub write_string_to_file : Double (FakeOsHelper S) S (String × String) (Option Error)
  unfolding double record_invocation
  write_string_to_file =
      double write_string_to_file_slot "WriteStringToFile" (λ a. text a.0 ∷ text a.1 ∷ [])
        record_invocation

  unfoldable pub write_string_to_file_args_for_call : ℕ → FakeOsHelper S → Option (String × String)
  unfolding args_for_call
  write_string_to_file_args_for_call = args_for_call write_string_to_file_slot

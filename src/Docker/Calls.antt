-- ===== src/Docker/Calls.antt =====
-- integration_test/test_helpers/docker.go: the functions that call Docker. They give what Go returns,
-- a value that may be nil and an error.
use mariadb_ctrl.Prelude.{ℕ, String, true, List, [], ◌∷◌, Option, none, some}
use mariadb_ctrl.Go.Error.{Error}
use mariadb_ctrl.Text.{trim_space}
use mariadb_ctrl.Docker.{
  ExecResult, Container, Network, CreateExecOptions, RemoveError, no_such_container, other, Answer,
  given, failed, Client, ContainerOption, initial_options, apply_options, trim_left_nuls,
  trim_right_nuls,
}

module _ {D : Type 0} (client : Client D) where
  abbrev pub inspected : Container → Answer Container × D → (Option Container × Option Error) × D
  inspected container (given c, d) = ((some c, none), d)
  inspected container (failed c e, d) = ((some container, some e), d)

  abbrev pub started : Container → Option Error × D → (Option Container × Option Error) × D
  started container (some e, d) = ((some container, some e), d)
  started container (none, d) = inspected container (client.inspect_container container.id d)

  abbrev pub created : Answer Container × D → (Option Container × Option Error) × D
  created (failed c e, d) = ((c, some e), d)
  created (given container, d) = started container (client.start_container container.id d)

  unfoldable pub run_container :
      String → List ContainerOption → D → (Option Container × Option Error) × D
  run_container container_name options d =
      created (client.create_container (apply_options options (initial_options container_name)) d)

  abbrev pub exec_inspected :
      String → String → Answer ℕ × D → (Option ExecResult × Option Error) × D
  exec_inspected stdout stderr (given code, d) =
      ((some (record { exit_code = code; stdout = stdout; stderr = stderr }), none), d)
  exec_inspected stdout stderr (failed c e, d) = ((none, some e), d)

  abbrev pub exec_started :
      String → (String × String × Option Error) × D → (Option ExecResult × Option Error) × D
  exec_started id ((stdout, stderr, some e), d) = ((none, some e), d)
  exec_started id ((stdout, stderr, none), d) =
      exec_inspected stdout stderr (client.inspect_exec id d)

  unfoldable pub run_exec : String → D → (Option ExecResult × Option Error) × D
  run_exec id d = exec_started id (client.start_exec id d)

  abbrev pub kill_options : Container → CreateExecOptions
  kill_options container = record {
    container = container.id;
    cmd = "bash" ∷ "-c" ∷ "pkill --signal 9 mysqld" ∷ [];
    attach_stdout = true;
    attach_stderr = true;
  }

  abbrev pub exec_created : Answer String × D → (Option ExecResult × Option Error) × D
  exec_created (failed id e, d) = ((none, some e), d)
  exec_created (given id, d) = run_exec id d

  unfoldable pub hard_kill_mysql : Container → D → (Option ExecResult × Option Error) × D
  unfolding run_exec
  hard_kill_mysql container d = exec_created (client.create_exec (kill_options container) d)

  abbrev pub downloaded : (String × Option Error) × D → (String × Option Error) × D
  downloaded ((contents, some e), d) = (("", some e), d)
  downloaded ((contents, none), d) =
      ((trim_space (trim_right_nuls (trim_left_nuls contents)), none), d)

  unfoldable pub fetch_container_file_contents :
      Container → String → D → (String × Option Error) × D
  unfolding trim_left_nuls trim_right_nuls trim_space
  fetch_container_file_contents container file_path d =
      downloaded (client.download container.id file_path d)

  -- the `switch` on the type of the error
  abbrev pub removed : Option RemoveError × D → Option Error × D
  removed (none, d) = (none, d)
  removed (some (no_such_container e), d) = (none, d)
  removed (some (other e), d) = (some e, d)

  unfoldable pub remove_container : Container → D → Option Error × D
  remove_container container d = removed (
      client.remove_container (record { id = container.id; remove_volumes = true; force = true }) d)

  abbrev pub network_created : Answer Network × D → (Option Network × Option Error) × D
  network_created (given n, d) = ((some n, none), d)
  network_created (failed n e, d) = ((n, some e), d)

  unfoldable pub create_network : String → D → (Option Network × Option Error) × D
  create_network name d = network_created (client.create_network name d)

  unfoldable pub remove_network : Network → D → Option Error × D
  remove_network network d = client.remove_network network.id d

  unfoldable pub pull_image : String → D → Option Error × D
  pull_image repository d = client.pull_image repository d

-- ===== src/Tests/Containers.antt =====
-- A container of the integration tests.
use mathlib.Core.List.{map}
use mariadb_ctrl.Prelude.{ℕ, ◌+◌, ◌≡◌, List, [], ◌∷◌, none}
use mariadb_ctrl.Docker.{CreateContainerOptions, given, Client}
use mariadb_ctrl.Docker.Calls.{run_container}
use mariadb_ctrl.Docker.Settings.{
  Setting, binds, exposed_ports, image, entrypoint, option_of, Configured, member, exposes,
}
use mariadb_ctrl.Docker.Running.{Ran, run_container-Ran}

-- A daemon that counts the calls, all of which succeed.
abbrev daemon : Client ℕ
daemon = record {
  create_container = λ o n. (given (record { id = "c1"; ports = none }), n + 1);
  start_container = λ id n. (none, n + 1);
  inspect_container = λ id n. (given (record { id = id; ports = none }), n + 1);
  remove_container = λ o n. (none, n + 1);
  create_exec = λ o n. (given "e1", n + 1);
  start_exec = λ id n. (("", "", none), n + 1);
  inspect_exec = λ id n. (given 0, n + 1);
  create_network = λ name n. (given (record { name = name; id = "n1" }), n + 1);
  remove_network = λ id n. (none, n + 1);
  pull_image = λ repository n. (none, n + 1);
  download = λ id path n. (("", none), n + 1);
}

abbrev settings : List Setting
settings =
    image "mysql"
    ∷ entrypoint "mysqld"
    ∷ binds ("/a:/b" ∷ [])
    ∷ exposed_ports ("3306/tcp" ∷ [])
    ∷ []

run_container-Ran_example :
    (options : CreateContainerOptions) × Configured "node" settings options
    × (member "3306/tcp" options.exposed_ports ≡ exposes "3306/tcp" settings)
    × Ran daemon options 0 (run_container daemon "node" (map option_of settings) 0)
run_container-Ran_example = run_container-Ran daemon "3306/tcp" "node" settings 0

-- ===== src/Docker/Running.antt =====
-- integration_test/test_helpers/docker.go: `RunContainer`, and `HardKillMySQL` with `RunExec`.
use mathlib.Core.List.{map}
use mariadb_ctrl.Prelude.{String, ◌≡◌, refl, List, Option, none, some}
use mariadb_ctrl.Go.Error.{Error}
use mariadb_ctrl.Docker.{
  Container, CreateContainerOptions, Answer, given, failed, Client, apply_options, initial_options,
}
use mariadb_ctrl.Docker.Calls.{created, started, inspected, run_container}
use mariadb_ctrl.Docker.Settings.{
  Setting, option_of, Configured, member, exposes, apply_options-Configured,
}

module _ {D : Type 0} (client : Client D) where
  -- How a container is run, from the state `d` of the daemon, and what is returned.
  pub data Ran (options : CreateContainerOptions) (d : D)
      : (Option Container × Option Error) × D → Type 0 where
    not_created :
        (c : Option Container) (e : Error) (d1 : D)
        → client.create_container options d ≡ (failed c e, d1)
        → Ran options d ((c, some e), d1)
    not_started :
        (c : Container) (e : Error) (d1 d2 : D)
        → client.create_container options d ≡ (given c, d1)
        → client.start_container c.id d1 ≡ (some e, d2)
        → Ran options d ((some c, some e), d2)
    not_inspected :
        (c : Container) (o : Option Container) (e : Error) (d1 d2 d3 : D)
        → client.create_container options d ≡ (given c, d1)
        → client.start_container c.id d1 ≡ (none, d2)
        → client.inspect_container c.id d2 ≡ (failed o e, d3)
        → Ran options d ((some c, some e), d3)
    running :
        (c r : Container) (d1 d2 d3 : D)
        → client.create_container options d ≡ (given c, d1)
        → client.start_container c.id d1 ≡ (none, d2)
        → client.inspect_container c.id d2 ≡ (given r, d3)
        → Ran options d ((some r, none), d3)

  module _ (options : CreateContainerOptions) (d : D) where
    when_inspected :
        (c : Container) (d1 d2 : D) (a : Answer Container × D)
        → client.create_container options d ≡ (given c, d1)
        → client.start_container c.id d1 ≡ (none, d2)
        → client.inspect_container c.id d2 ≡ a
        → Ran options d (inspected client c a)
    when_inspected c d1 d2 (given r, d3) p q s = running c r d1 d2 d3 p q s
    when_inspected c d1 d2 (failed o e, d3) p q s = not_inspected c o e d1 d2 d3 p q s

    when_started :
        (c : Container) (d1 : D) (a : Option Error × D)
        → client.create_container options d ≡ (given c, d1)
        → client.start_container c.id d1 ≡ a
        → Ran options d (started client c a)
    when_started c d1 (some e, d2) p q = not_started c e d1 d2 p q
    when_started c d1 (none, d2) p q = when_inspected c d1 d2 _ p q refl

    when_created :
        (a : Answer Container × D)
        → client.create_container options d ≡ a
        → Ran options d (created client a)
    when_created (failed c e, d1) p = not_created c e d1 p
    when_created (given c, d1) p = when_started c d1 _ p refl

  -- The container is created with the options of the caller: with its name, all the binds and all the
  -- environment variables in their order, the command, the entrypoint, the image and the network that
  -- were given last (and none of them, where none was given), and every port published, where a port is
  -- exposed exactly when one of the options names it. Then it is started, then inspected, each only if
  -- the call before gave no error. What is returned is the container as it was inspected, or the error
  -- of the call that failed: with what the daemon gave if that was the creation, and with the container
  -- as it was created, which is left behind, if it was a later call.
  pub run_container-Ran :
      (port container_name : String) (ss : List Setting) (d : D)
      → (options : CreateContainerOptions) × Configured container_name ss options
        × (member port options.exposed_ports ≡ exposes port ss)
        × Ran options d (run_container client container_name (map option_of ss) d)
  unfolding run_container
  run_container-Ran port container_name ss d =
      let options = apply_options (map option_of ss) (initial_options container_name) in
      let (configured, exposed) = apply_options-Configured port container_name ss in
      (options, configured, exposed, when_created options d _ refl)

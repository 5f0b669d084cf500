-- ===== src/Docker.antt =====
-- integration_test/test_helpers/docker.go: the containers of the integration tests, over a parameter for
-- go-dockerclient. `D` is the state of the Docker daemon.
pub mod Calls
pub mod Settings
pub mod Running
use Prim.Native.Char.{Char, code}
use Prim.Native.String as Text
use mariadb_ctrl.Prelude.{
  ℕ, String, ◌==◌, Bool, true, List, [], ◌∷◌, ◌++◌, Option, none, some, nat_eq, if◌then◌else◌,
}
use mariadb_ctrl.Go.Error.{Error}
use mariadb_ctrl.Text.{sprintf, trim_space}

pub record ExecResult : Type 0 where
  pub exit_code : ℕ
  pub stdout : String
  pub stderr : String

-- The fields of `docker.Container` that are used; the ports are those of its `NetworkSettings`, which
-- may be nil, each with its bindings on the host.
pub record Container : Type 0 where
  pub id : String
  pub ports : Option (List (String × List String))

pub record Network : Type 0 where
  pub name : String
  pub id : String

-- The fields of `docker.CreateContainerOptions` that are used. `exposed_ports` lists the keys of a map,
-- and `endpoints` is the map of the `NetworkingConfig`, from the name of a network to its id.
pub record CreateContainerOptions : Type 0 where
  pub name : String
  pub env : List String
  pub cmd : List String
  pub entrypoint : List String
  pub image : String
  pub exposed_ports : List String
  pub binds : List String
  pub publish_all_ports : Bool
  pub endpoints : List (String × String)

pub record CreateExecOptions : Type 0 where
  pub container : String
  pub cmd : List String
  pub attach_stdout : Bool
  pub attach_stderr : Bool

pub record RemoveContainerOptions : Type 0 where
  pub id : String
  pub remove_volumes : Bool
  pub force : Bool

-- the error of `RemoveContainer`: `*docker.NoSuchContainer` or another
pub data RemoveError : Type 0 where
  no_such_container : Error → RemoveError
  other : Error → RemoveError

abbrev pub remove_error : RemoveError → Error
remove_error (no_such_container e) = e
remove_error (other e) = e

-- What a call gives: a value and no error, or an error, with a value that the caller may still use.
pub data Answer (A : Type 0) : Type 0 where
  given : A → Answer A
  failed : Option A → Error → Answer A

-- The calls of `*docker.Client`.
pub record Client (D : Type 0) : Type 0 where
  pub create_container : CreateContainerOptions → D → Answer Container × D
  pub start_container : String → D → Option Error × D
  pub inspect_container : String → D → Answer Container × D
  pub remove_container : RemoveContainerOptions → D → Option RemoveError × D
  -- the id of the exec
  pub create_exec : CreateExecOptions → D → Answer String × D
  -- what is written to the two streams, and the error
  pub start_exec : String → D → (String × String × Option Error) × D
  -- the exit code
  pub inspect_exec : String → D → Answer ℕ × D
  -- of a name
  pub create_network : String → D → Answer Network × D
  -- of an id
  pub remove_network : String → D → Option Error × D
  -- of a repository
  pub pull_image : String → D → Option Error × D
  -- the bytes of the file of a container, as far as they came
  pub download : String → String → D → (String × Option Error) × D

abbrev pub ContainerOption : Type 0
ContainerOption = CreateContainerOptions → CreateContainerOptions

unfoldable pub add_binds : List String → ContainerOption
add_binds binds o = record o { binds = o.binds ++ binds }

unfoldable pub add_env_vars : List String → ContainerOption
add_env_vars env_vars o = record o { env = o.env ++ env_vars }

-- `m[key] = struct{}{}` of a map whose keys are listed
unfoldable pub add_key : String → List String → List String
add_key k [] = k ∷ []
add_key k (j ∷ keys) = if j == k then j ∷ keys else j ∷ add_key k keys

unfoldable pub add_keys : List String → List String → List String
unfolding add_key
add_keys [] keys = keys
add_keys (k ∷ ks) keys = add_keys ks (add_key k keys)

unfoldable pub add_exposed_ports : List String → ContainerOption
unfolding add_keys
add_exposed_ports ports o = record o { exposed_ports = add_keys ports o.exposed_ports }

unfoldable pub with_cmd : List String → ContainerOption
with_cmd cmd o = record o { cmd = cmd }

unfoldable pub with_entrypoint : String → ContainerOption
with_entrypoint cmd o = record o { entrypoint = cmd ∷ [] }

unfoldable pub with_image : String → ContainerOption
with_image image_id o = record o { image = image_id }

unfoldable pub with_network : Network → ContainerOption
with_network network o = record o { endpoints = (network.name, network.id) ∷ [] }

-- the options before those of the caller
abbrev pub initial_options : String → CreateContainerOptions
initial_options container_name = record {
  name = container_name;
  env = [];
  cmd = [];
  entrypoint = [];
  image = "";
  exposed_ports = [];
  binds = [];
  publish_all_ports = true;
  endpoints = [];
}

-- `for _, opt := range options { opt(&createContainerOptions) }`
unfoldable pub apply_options : List ContainerOption → ContainerOption
apply_options [] o = o
apply_options (opt ∷ opts) o = apply_options opts (opt o)

-- `strings.Trim(s, "\x00")`
abbrev is_nul : Char → Bool
is_nul c = nat_eq (code c) 0

unfoldable pub trim_left_nuls : String → String
trim_left_nuls Text.[] = Text.[]
trim_left_nuls (Text.◌∷◌ c s) =
    let rest = trim_left_nuls s in if is_nul c then rest else Text.◌∷◌ c s

abbrev trim_nul_cons : Char → String → String
trim_nul_cons c Text.[] = if is_nul c then Text.[] else Text.◌∷◌ c Text.[]
trim_nul_cons c (Text.◌∷◌ d s) = Text.◌∷◌ c (Text.◌∷◌ d s)

unfoldable pub trim_right_nuls : String → String
trim_right_nuls Text.[] = Text.[]
trim_right_nuls (Text.◌∷◌ c s) = trim_nul_cons c (trim_right_nuls s)

-- `Ports[containerPort][0].HostPort`; `none` is a panic, without settings or without a binding
unfoldable pub first_binding : List (String × List String) → String → Option String
first_binding [] port = none
first_binding ((p, []) ∷ ports) port = if p == port then none else first_binding ports port
first_binding ((p, b ∷ bs) ∷ ports) port = if p == port then some b else first_binding ports port

unfoldable pub host_port : String → Container → Option String
unfolding first_binding
host_port container_port container = elim container.ports [
  | none ↦ none
  | some ports ↦ first_binding ports container_port
]

-- `ContainerDBConnection`, up to `sql.Open`: the URI
unfoldable pub container_db_uri : Container → String → Option String
unfolding host_port sprintf
container_db_uri container port = elim (host_port port container) [
  | none ↦ none
  | some p ↦ some (sprintf "root@tcp(localhost:%s)/" (p ∷ []))
]

-- ===== src/Docker/Settings.antt =====
-- integration_test/test_helpers/docker.go: what the options of a container say together.
use mariadb_ctrl.Prelude.{
  String, ◌==◌, eq_iff, ◌≡◌, refl, sym, ◌∙◌, Bool, true, false, ◌||◌, List, [], ◌∷◌, ◌++◌,
  append_assoc, append-nil, arith,
}
use mathlib.Core.List.{map}
use mariadb_ctrl.Docker.{
  Network, CreateContainerOptions, ContainerOption, add_binds, add_env_vars, add_key, add_keys,
  add_exposed_ports, with_cmd, with_entrypoint, with_image, with_network, apply_options,
  initial_options,
}

-- One option, as a caller of `RunContainer` writes it.
pub data Setting : Type 0 where
  binds : List String → Setting
  env_vars : List String → Setting
  exposed_ports : List String → Setting
  cmd : List String → Setting
  entrypoint : String → Setting
  image : String → Setting
  network : Network → Setting

abbrev pub option_of : Setting → ContainerOption
option_of (binds bs) = add_binds bs
option_of (env_vars vs) = add_env_vars vs
option_of (exposed_ports ps) = add_exposed_ports ps
option_of (cmd c) = with_cmd c
option_of (entrypoint c) = with_entrypoint c
option_of (image i) = with_image i
option_of (network n) = with_network n

abbrev pub member : String → List String → Bool
member k [] = false
member k (j ∷ ks) = (j == k) || member k ks

abbrev pub all_binds : List Setting → List String
all_binds [] = []
all_binds (binds bs ∷ ss) = bs ++ all_binds ss
all_binds (_ ∷ ss) = all_binds ss

abbrev pub all_env : List Setting → List String
all_env [] = []
all_env (env_vars vs ∷ ss) = vs ++ all_env ss
all_env (_ ∷ ss) = all_env ss

abbrev pub exposes : String → List Setting → Bool
exposes p [] = false
exposes p (exposed_ports ps ∷ ss) = member p ps || exposes p ss
exposes p (_ ∷ ss) = exposes p ss

-- The image is that of the last option, or the one before.
abbrev pub last_image : String → List Setting → String
last_image i [] = i
last_image i (image j ∷ ss) = last_image j ss
last_image i (_ ∷ ss) = last_image i ss

abbrev pub last_cmd : List String → List Setting → List String
last_cmd c [] = c
last_cmd c (cmd d ∷ ss) = last_cmd d ss
last_cmd c (_ ∷ ss) = last_cmd c ss

abbrev pub last_entrypoint : List String → List Setting → List String
last_entrypoint e [] = e
last_entrypoint e (entrypoint c ∷ ss) = last_entrypoint (c ∷ []) ss
last_entrypoint e (_ ∷ ss) = last_entrypoint e ss

-- The container joins the network of the last option only, under its name and with its id.
abbrev pub last_network : List (String × String) → List Setting → List (String × String)
last_network e [] = e
last_network e (network n ∷ ss) = last_network ((n.name, n.id) ∷ []) ss
last_network e (_ ∷ ss) = last_network e ss

member-add_key :
    (p k : String) (ks : List String) → member p (add_key k ks) ≡ ((k == p) || member p ks)
unfolding add_key
member-add_key p k [] = refl
member-add_key p k (j ∷ ks) =
    ground (arith, member-add_key p k ks, eq_iff j k, eq_iff k p, eq_iff j p)

member-add_keys :
    (p : String) (ks keys : List String)
    → member p (add_keys ks keys) ≡ (member p keys || member p ks)
unfolding add_keys
member-add_keys p [] keys = ground arith
member-add_keys p (k ∷ ks) keys =
    ground (arith, member-add_keys p ks (add_key k keys), member-add_key p k keys)

-- What the options `o` have become after the settings.
record Applied (ss : List Setting) (o r : CreateContainerOptions) : Type 0 where
  pub name : r.name ≡ o.name
  pub binds : r.binds ≡ o.binds ++ all_binds ss
  pub env : r.env ≡ o.env ++ all_env ss
  pub image : r.image ≡ last_image o.image ss
  pub cmd : r.cmd ≡ last_cmd o.cmd ss
  pub entrypoint : r.entrypoint ≡ last_entrypoint o.entrypoint ss
  pub endpoints : r.endpoints ≡ last_network o.endpoints ss
  pub publish_all_ports : r.publish_all_ports ≡ o.publish_all_ports

Applied-cons :
    (s : Setting) (ss : List Setting) (o r : CreateContainerOptions)
    → Applied ss (option_of s o) r
    → Applied (s ∷ ss) o r
unfolding add_binds add_env_vars add_exposed_ports with_cmd with_entrypoint with_image with_network
Applied-cons (binds bs) ss o r c = ground (arith, append_assoc o.binds bs (all_binds ss))
Applied-cons (env_vars vs) ss o r c = ground (arith, append_assoc o.env vs (all_env ss))
Applied-cons s ss o r c = ground arith

ports-cons :
    (p : String) (s : Setting) (ss : List Setting) (o : CreateContainerOptions)
    → (member p (option_of s o).exposed_ports || exposes p ss)
      ≡ (member p o.exposed_ports || exposes p (s ∷ ss))
unfolding add_binds add_env_vars add_exposed_ports with_cmd with_entrypoint with_image with_network
ports-cons p (exposed_ports ps) ss o = ground (arith, member-add_keys p ps o.exposed_ports)
ports-cons p s ss o = ground arith

-- What a container of this name is created with, by the settings.
pub record Configured (container_name : String) (ss : List Setting) (r : CreateContainerOptions)
    : Type 0 where
  pub name : r.name ≡ container_name
  pub binds : r.binds ≡ all_binds ss
  pub env : r.env ≡ all_env ss
  pub image : r.image ≡ last_image "" ss
  pub cmd : r.cmd ≡ last_cmd [] ss
  pub entrypoint : r.entrypoint ≡ last_entrypoint [] ss
  pub endpoints : r.endpoints ≡ last_network [] ss
  pub publish_all_ports : r.publish_all_ports ≡ true

module _ (p : String) where
  apply_lem :
      (ss : List Setting) (o : CreateContainerOptions)
      → let r = apply_options (map option_of ss) o in
        Applied ss o r × (member p r.exposed_ports ≡ (member p o.exposed_ports || exposes p ss))
  unfolding apply_options
  apply_lem [] o = (
    record {
      name = refl;
      binds = sym (append-nil o.binds);
      env = sym (append-nil o.env);
      image = refl;
      cmd = refl;
      entrypoint = refl;
      endpoints = refl;
      publish_all_ports = refl;
    },
    ground arith,
  )
  apply_lem (s ∷ ss) o =
      let (c, e) = apply_lem ss (option_of s o) in
      (Applied-cons s ss o _ c, e ∙ ports-cons p s ss o)

  -- With the options of the caller, in their order, the container is created with its name, with all
  -- the binds and all the environment variables in that order, with the command, the entrypoint, the
  -- image and the network that were given last, and with its ports published; and a port is exposed
  -- exactly when one of the options names it.
  pub apply_options-Configured :
      (container_name : String) (ss : List Setting)
      → let r = apply_options (map option_of ss) (initial_options container_name) in
        Configured container_name ss r × (member p r.exposed_ports ≡ exposes p ss)
  apply_options-Configured container_name ss =
      let (c, e) = apply_lem ss (initial_options container_name) in
      (
        record {
          name = c.name;
          binds = c.binds;
          env = c.env;
          image = c.image;
          cmd = c.cmd;
          entrypoint = c.entrypoint;
          endpoints = c.endpoints;
          publish_all_ports = c.publish_all_ports;
        },
        e,
      )

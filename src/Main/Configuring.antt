-- ===== src/Main/Configuring.antt =====
-- cmd/start/main.go: what must hold of the configuration before the program does anything.
use mariadb_ctrl.Prelude.{ℕ, String, ◌≡◌, refl, ◌⊎◌, inl, inr, List, [], ◌∷◌, Option, none, some}
use mariadb_ctrl.Go.Error.{Error}
use mariadb_ctrl.Go.World.{World}
use mariadb_ctrl.Go.Action.{Outcome, returned, panicked, attempt, pure, panic, ◌>>=◌}
use mariadb_ctrl.Env.{Env}
use mariadb_ctrl.Config.{Config}
use mariadb_ctrl.Config.Reading.{ServiceConfig, default_config, zero_config, read_parsed}
use mariadb_ctrl.Config.Validate.{Fields, ErrorMap, validate, config_fields}
use mariadb_ctrl.Config.Verdict.{AreValid, validate-none_iff}
use mariadb_ctrl.Main.{main, main_loaded, after_setup, manager_setup, index_out_of_range, program}

module _ (env : Env) (fuel : ℕ) (validator : Fields → ErrorMap) {Parsed : Type 0}
    (library : ServiceConfig Parsed) (w : World) where
  -- How the program begins, and the outcome that follows.
  pub data Begins : List String → Outcome ℕ → Type 0 where
    unnamed : Begins [] (panicked index_out_of_range w)
    misused :
        {name : String} {options : List String} (status : ℕ)
        → library.parse name options ≡ inl status
        → Begins (name ∷ options) (returned status w)
    unread :
        {name : String} {options : List String} (parsed : Parsed) (e : Error)
        → library.parse name options ≡ inr parsed
        → (library.read parsed default_config zero_config).1 ≡ some e
        → Begins (name ∷ options) (panicked e w)
    invalid :
        {name : String} {options : List String} (parsed : Parsed) (cfg : Config) (e : Error)
        → library.parse name options ≡ inr parsed
        → library.read parsed default_config zero_config ≡ (cfg, none)
        → validate validator cfg ≡ some e
        → Begins (name ∷ options) (panicked e w)
    configured :
        {name : String} {options : List String} (parsed : Parsed) (cfg : Config)
        → library.parse name options ≡ inr parsed
        → library.read parsed default_config zero_config ≡ (cfg, none)
        → validator (config_fields cfg) ≡ []
        → AreValid validator cfg.db.preseeded_databases
        → Begins
            (name ∷ options)
            ((do r ← attempt (manager_setup env cfg fuel); after_setup env cfg fuel r) w)

  module _ (name : String) (options : List String) where
    validated :
        (parsed : Parsed) (cfg : Config) (o : Option Error)
        → library.parse name options ≡ inr parsed
        → library.read parsed default_config zero_config ≡ (cfg, none)
        → validate validator cfg ≡ o
        → Begins (name ∷ options) (main env cfg fuel validator none w)
    unfolding main ◌>>=◌
    validated parsed cfg none p q r =
        let valid = (validate-none_iff validator cfg).0 r in
        rw r (configured parsed cfg p q valid.0 valid.1)
    validated parsed cfg (some e) p q r = rw r (invalid parsed cfg e p q r)

    was_read :
        (parsed : Parsed) (c : Config × Option Error)
        → library.parse name options ≡ inr parsed
        → library.read parsed default_config zero_config ≡ c
        → Begins (name ∷ options) (main env c.0 fuel validator c.1 w)
    unfolding main ◌>>=◌
    was_read parsed (cfg, some e) p q = unread parsed e p (rw q)
    was_read parsed (cfg, none) p q = validated parsed cfg _ p q refl

    was_parsed :
        (r : ℕ ⊎ Parsed)
        → library.parse name options ≡ r
        → Begins (name ∷ options) (main_loaded env fuel validator (read_parsed library r) w)
    unfolding pure
    was_parsed (inl status) p = misused status p
    was_parsed (inr parsed) p = was_read parsed _ p refl

  -- The program does nothing at all until its configuration is accepted: it panics without a name in
  -- its arguments, exits with the status of the flag package when that does not accept the options,
  -- and panics with the error when the configuration cannot be read or is not valid, all without any
  -- call of the environment. Otherwise `managerSetup` and the rest run with the configuration that
  -- was read over the defaults, which the validator accepts, with every preseeded database.
  pub program-Begins :
      (args : List String) → Begins args (program env fuel validator library args w)
  unfolding program panic
  program-Begins [] = unnamed
  program-Begins (name ∷ options) = was_parsed name options _ refl

-- ===== src/Config/Validate.antt =====
-- `Validate` of config/config.go. validator.v2 is the parameter `validator`, from the fields of a
-- struct with their tags to an `ErrorMap` in the order of iteration, where `[]` is no error.
use Prim.Native.String
use mariadb_ctrl.Prelude.{
  ℕ, ◌+◌, String, ◌==◌, Bool, not, List, [], ◌∷◌, Option, none, some, nat_eq, if◌then◌else◌,
}
use mariadb_ctrl.Go.Error.{Error, message}
use mariadb_ctrl.Text.{sprintf, decimal}
use mariadb_ctrl.Config.{
  PreseededDatabase, DbHelperConfig, StartManagerConfig, UpgraderConfig, Config,
}

-- What reflection shows of a struct: each field with its name, its `validate` tag, and its value,
-- a struct or anything else. Of the latter only matters whether it is the zero value or is empty.
mutual
  pub data Value : Type 0 where
    plain : Bool → Value
    struct : Fields → Value

  pub data Fields : Type 0 where
    end : Fields
    field : String → String → Value → Fields → Fields

abbrev pub text_value : String → Value
text_value s = plain (s == "")

abbrev pub is_empty {ℓ} : {A : Type ℓ} → List A → Bool
is_empty [] = Bool.true
is_empty (x ∷ xs) = Bool.false

unfoldable pub preseeded_fields : PreseededDatabase → Fields
preseeded_fields d =
    field "DBName" "nonzero" (text_value d.db_name)
      (field "User" "nonzero" (text_value d.user) (field "Password" "" (text_value d.password) end))

unfoldable pub db_fields : DbHelperConfig → Fields
db_fields c = field "Password" "" (text_value c.password) (
    field "PostStartSQLFiles" "" (plain (is_empty c.post_start_sql_files)) (
      field "PreseededDatabases" "" (plain (is_empty c.preseeded_databases)) (
        field "SeededUsers" "" (plain (is_empty c.seeded_users)) (
          field "SkipBinlog" "" (plain (not c.skip_binlog)) (
            field "Socket" "" (text_value c.socket) (
              field "UpgradePath" "nonzero" (text_value c.upgrade_path)
                (field "User" "nonzero" (text_value c.user) end)))))))

unfoldable pub manager_fields : StartManagerConfig → Fields
manager_fields c = field "StateFileLocation" "nonzero" (text_value c.state_file_location) (
    field "GrastateFileLocation" "" (text_value c.grastate_file_location) (
      field "ClusterIps" "nonzero" (plain (is_empty c.cluster_ips)) (
        field "BootstrapNode" "" (plain (not c.bootstrap_node)) (
          field "ClusterProbeTimeout" "nonzero" (plain (nat_eq c.cluster_probe_timeout 0)) (
            field "GaleraInitStatusServerAddress" "nonzero"
              (text_value c.galera_init_status_server_address) end)))))

unfoldable pub upgrader_fields : UpgraderConfig → Fields
upgrader_fields c =
    field "PackageVersionFile" "nonzero" (text_value c.package_version_file)
      (field "LastUpgradedVersionFile" "nonzero" (text_value c.last_upgraded_version_file) end)

-- the `Logger` is an interface with no tag
unfoldable pub config_fields : Config → Fields
unfolding db_fields manager_fields upgrader_fields
config_fields c = field "LogFileLocation" "nonzero" (text_value c.log_file_location) (
    field "Db" "" (struct (db_fields c.db)) (
      field "Manager" "" (struct (manager_fields c.manager)) (
        field "Upgrader" "" (struct (upgrader_fields c.upgrader))
          (field "Logger" "" (plain Bool.false) end))))

abbrev pub ErrorMap : Type 0
ErrorMap = List (String × String)

-- the loop of `formatErrorString`
unfoldable pub format_errors : String → ErrorMap → String → String
format_errors text [] key_prefix = text
format_errors text ((field_name, validation_message) ∷ errs) key_prefix =
    format_errors
      (String.◌++◌ text (sprintf "%s%s : %s\n" (key_prefix ∷ field_name ∷ validation_message ∷ [])))
      errs key_prefix

unfoldable pub format_error_string : ErrorMap → String → String
unfolding format_errors
format_error_string errs key_prefix = format_errors "" errs key_prefix

-- `errString += formatErrorString(err, keyPrefix)`, if there is an error
unfoldable pub add_errors : String → ErrorMap → String → String
unfolding format_error_string
add_errors text [] key_prefix = text
add_errors text (e ∷ errs) key_prefix = String.◌++◌ text (format_error_string (e ∷ errs) key_prefix)

module _ (validator : Fields → ErrorMap) where
  -- the loop over `PreseededDatabases`, from the index `i` on
  unfoldable pub validate_databases : String → ℕ → List PreseededDatabase → String
  unfolding add_errors preseeded_fields
  validate_databases text i [] = text
  validate_databases text i (d ∷ ds) =
      validate_databases
        (add_errors text (validator (preseeded_fields d))
          (sprintf "Db.PreseededDatabases[%d]." (decimal i ∷ [])))
        (i + 1) ds

  abbrev pub error_of : String → Option Error
  error_of text =
      if text == "" then none else some (message (sprintf "Validation errors: %s\n" (text ∷ [])))

  -- nil is `none`
  unfoldable pub validate : Config → Option Error
  unfolding validate_databases config_fields
  validate c = error_of (
      validate_databases (add_errors "" (validator (config_fields c)) "") 0
        c.db.preseeded_databases)

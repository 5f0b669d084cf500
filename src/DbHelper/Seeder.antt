-- ===== src/DbHelper/Seeder.antt =====
-- db_helper/seeder/seeder.go: the statements for one preseeded database.
use mariadb_ctrl.Prelude.{String, Bool, [], ◌∷◌}
use mariadb_ctrl.Go.Action.{Go, ◌>>◌}
use mariadb_ctrl.Env.{Env}
use mariadb_ctrl.Config.{PreseededDatabase}
use mariadb_ctrl.Text.{sprintf}
use mariadb_ctrl.DbHelper.Sql.{exec, query_any}

-- the interface `Seeder`
pub record Seeder : Type 0 where
  pub create_db_if_needed : Go Unit
  pub is_existing_user : Go Bool
  pub create_user : Go Unit
  pub update_user : Go Unit
  pub grant_user_privileges : Go Unit

abbrev pub create_db_query : PreseededDatabase → String
create_db_query c = sprintf "CREATE DATABASE IF NOT EXISTS `%s`" (c.db_name ∷ [])

abbrev pub existing_user_query : PreseededDatabase → String
existing_user_query c = sprintf "SELECT User FROM mysql.user WHERE User = '%s'" (c.user ∷ [])

abbrev pub create_user_query : PreseededDatabase → String
create_user_query c = sprintf "CREATE USER `%s` IDENTIFIED BY '%s'" (c.user ∷ c.password ∷ [])

abbrev pub update_user_query : PreseededDatabase → String
update_user_query c = sprintf "SET PASSWORD FOR `%s` = PASSWORD('%s')" (c.user ∷ c.password ∷ [])

abbrev pub grant_query : PreseededDatabase → String
grant_query c = sprintf "GRANT ALL ON `%s`.* TO '%s'@'%%'" (c.db_name ∷ c.user ∷ [])

abbrev pub revoke_lock_query : PreseededDatabase → String
revoke_lock_query c =
    sprintf "REVOKE LOCK TABLES ON `%s`.* FROM '%s'@'%%'" (c.db_name ∷ c.user ∷ [])

module _ (env : Env) (config : PreseededDatabase) where
  unfoldable pub create_db_if_needed : Go Unit
  create_db_if_needed = exec env (create_db_query config)

  unfoldable pub is_existing_user : Go Bool
  is_existing_user = query_any env (existing_user_query config)

  unfoldable pub create_user : Go Unit
  create_user = exec env (create_user_query config)

  unfoldable pub update_user : Go Unit
  update_user = exec env (update_user_query config)

  unfoldable pub grant_user_privileges : Go Unit
  grant_user_privileges = do exec env (grant_query config); exec env (revoke_lock_query config)

  -- `NewSeeder`
  abbrev pub new_seeder : Seeder
  new_seeder = record {
    create_db_if_needed = create_db_if_needed;
    is_existing_user = is_existing_user;
    create_user = create_user;
    update_user = update_user;
    grant_user_privileges = grant_user_privileges;
  }

-- ===== src/DbHelper/Texts.antt =====
-- The statements that db_helper/seeder/seeder.go and db_helper/user_seeder.go are to send to MySQL, for
-- the descriptions of what they do.
use mariadb_ctrl.Prelude.{String, Bool, [], ◌∷◌, if◌then◌else◌}
use mariadb_ctrl.Config.{PreseededDatabase, SeededUser}
use mariadb_ctrl.Text.{sprintf}

-- the statements for a preseeded database
module _ (d : PreseededDatabase) where
  abbrev pub creation_of_database : String
  creation_of_database = sprintf "CREATE DATABASE IF NOT EXISTS `%s`" (d.db_name ∷ [])

  abbrev pub look_for_user : String
  look_for_user = sprintf "SELECT User FROM mysql.user WHERE User = '%s'" (d.user ∷ [])

  abbrev pub creation_of_user : String
  creation_of_user = sprintf "CREATE USER `%s` IDENTIFIED BY '%s'" (d.user ∷ d.password ∷ [])

  abbrev pub change_of_password : String
  change_of_password = sprintf "SET PASSWORD FOR `%s` = PASSWORD('%s')" (d.user ∷ d.password ∷ [])

  abbrev pub grant_on_database : String
  grant_on_database = sprintf "GRANT ALL ON `%s`.* TO '%s'@'%%'" (d.db_name ∷ d.user ∷ [])

  abbrev pub revocation_of_lock_tables : String
  revocation_of_lock_tables =
      sprintf "REVOKE LOCK TABLES ON `%s`.* FROM '%s'@'%%'" (d.db_name ∷ d.user ∷ [])

-- the statements for a seeded user at a host
module _ (u : SeededUser) (host : String) where
  abbrev pub creation_of_account : String
  creation_of_account =
      sprintf "CREATE USER IF NOT EXISTS `%s`@`%s` IDENTIFIED BY '%s'"
        (u.user ∷ host ∷ u.password ∷ [])

  abbrev pub change_of_account : String
  change_of_account =
      sprintf "ALTER USER `%s`@`%s` IDENTIFIED BY '%s'" (u.user ∷ host ∷ u.password ∷ [])

  abbrev pub grant_of_everything : String
  grant_of_everything =
      sprintf "GRANT ALL PRIVILEGES ON *.* TO `%s`@`%s` WITH GRANT OPTION" (u.user ∷ host ∷ [])

  abbrev pub revocation_of_everything : String
  revocation_of_everything =
      sprintf "REVOKE ALL PRIVILEGES ON *.* FROM `%s`@`%s`" (u.user ∷ host ∷ [])

  -- the statement of the role, for an administrator and for any other
  abbrev pub statement_of_role : Bool → String
  statement_of_role admin = if admin then grant_of_everything else revocation_of_everything

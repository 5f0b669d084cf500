-- ===== src/DbHelper/UserSeeder.antt =====
-- db_helper/user_seeder.go: the statements for one seeded user.
use mariadb_ctrl.Prelude.{String, ◌==◌, [], ◌∷◌, if◌then◌else◌}
use mariadb_ctrl.Go.Error.{Result, ok, err, message}
use mariadb_ctrl.Go.Action.{Go, ◌>>=◌, ◌>>◌, lift}
use mariadb_ctrl.Env.{Env}
use mariadb_ctrl.Config.{SeededUser}
use mariadb_ctrl.Text.{sprintf}
use mariadb_ctrl.DbHelper.Sql.{exec}

-- the interface `UserSeeder`
pub record UserSeeder : Type 0 where
  pub seed_user : SeededUser → Go Unit

abbrev pub admin_query : String
admin_query = "GRANT ALL PRIVILEGES ON *.* TO `%s`@`%s` WITH GRANT OPTION"

abbrev pub minimal_query : String
minimal_query = "REVOKE ALL PRIVILEGES ON *.* FROM `%s`@`%s`"

unfoldable pub get_role_query : String → Result String
get_role_query role =
    if role == "admin"
    then ok admin_query
    else if role == "minimal"
    then ok minimal_query
    else err (message (sprintf "Invalid role: %s" (role ∷ [])))

unfoldable pub get_host_string : String → Result String
get_host_string host =
    if host == "localhost"
    then ok "localhost"
    else if host == "loopback"
    then ok "127.0.0.1"
    else if host == "any"
    then ok "%"
    else err (message (sprintf "Invalid host: %s" (host ∷ [])))

abbrev pub create_seeded_query : SeededUser → String → String
create_seeded_query u host =
    sprintf "CREATE USER IF NOT EXISTS `%s`@`%s` IDENTIFIED BY '%s'"
      (u.user ∷ host ∷ u.password ∷ [])

abbrev pub alter_seeded_query : SeededUser → String → String
alter_seeded_query u host =
    sprintf "ALTER USER `%s`@`%s` IDENTIFIED BY '%s'" (u.user ∷ host ∷ u.password ∷ [])

abbrev pub role_seeded_query : SeededUser → String → String → String
role_seeded_query u role_query host = sprintf role_query (u.user ∷ host ∷ [])

unfoldable pub seed_user : Env → SeededUser → Go Unit
unfolding get_role_query get_host_string
seed_user env u = do
  role_query ← lift (get_role_query u.role)
  host ← lift (get_host_string u.host)
  exec env (create_seeded_query u host)
  exec env (alter_seeded_query u host)
  exec env (role_seeded_query u role_query host)

-- `NewUserSeeder`
abbrev pub new_user_seeder : Env → UserSeeder
new_user_seeder env = record { seed_user = seed_user env }

-- ===== src/Tests/Servers.antt =====
-- A server that keeps databases and accounts, seeded with two databases of one user, and with an
-- administrator that is none any more.
use mariadb_ctrl.Prelude.{
  String, ◌==◌, ◌≡◌, refl, inl, inr, Bool, false, none, some, [], ◌∷◌, if◌then◌else◌,
}
use mariadb_ctrl.Go.Error.{ok}
use mariadb_ctrl.Go.World.{World, Trace, executed}
use mariadb_ctrl.Go.Action.{returned, final, ◌>>=◌}
use mariadb_ctrl.Env.{Env}
use mariadb_ctrl.Config.{PreseededDatabase, SeededUser, DbHelperConfig}
use mariadb_ctrl.Text.{sprintf}
use mariadb_ctrl.DbHelper.Sql.{format_dsn, exec, query_any}
use mariadb_ctrl.DbHelper.Texts.{
  creation_of_database, look_for_user, creation_of_user, change_of_password, grant_on_database,
  revocation_of_lock_tables, creation_of_account, change_of_account, statement_of_role,
}
use mariadb_ctrl.DbHelper.Seeder.{
  create_db_if_needed, is_existing_user, create_user, update_user, grant_user_privileges,
}
use mariadb_ctrl.DbHelper.Seeding.{seed, seed_users}
use mariadb_ctrl.DbHelper.Accounts.{
  Accounts, no_privileges, all_privileges, all_but_lock_tables, any_host, with_database,
  with_password, with_privileges, Obeys,
}
use mariadb_ctrl.DbHelper.Converging.{Connects, Seeds, seed-Seeds}
use mariadb_ctrl.DbHelper.UserSeeder.{seed_user}
use mariadb_ctrl.DbHelper.UserAccounts.{host_of, is_admin, with_account, with_role, ObeysUser}
use mariadb_ctrl.DbHelper.UsersConverging.{UsersSeeded, seed_users-UsersSeeded}
use mariadb_ctrl.DbHelper.Reseeding.{seeding, seeding-SameAccounts}
use mariadb_ctrl.DbHelper.SameAccounts.{SameAccounts}
use mariadb_ctrl.Tests.{calm, sample, fresh}

abbrev app : PreseededDatabase
app = record { db_name = "app"; user = "me"; password = "old" }

abbrev logs : PreseededDatabase
logs = record { db_name = "logs"; user = "me"; password = "new" }

-- the effect of a text, if it is a statement for the database
abbrev effect_for : PreseededDatabase → String → (Accounts → Accounts) → Accounts → Accounts
effect_for d q otherwise =
    if q == creation_of_database d
    then with_database d.db_name
    else if q == creation_of_user d
    then with_password d.user any_host d.password
    else if q == change_of_password d
    then with_password d.user any_host d.password
    else if q == grant_on_database d
    then with_privileges d.user any_host d.db_name all_privileges
    else if q == revocation_of_lock_tables d
    then with_privileges d.user any_host d.db_name all_but_lock_tables
    else otherwise

abbrev user_effect : SeededUser → String → (Accounts → Accounts) → Accounts → Accounts
user_effect u q otherwise =
    if q == creation_of_account u (host_of u)
    then with_account u.user (host_of u) u.password
    else if q == change_of_account u (host_of u)
    then with_password u.user (host_of u) u.password
    else if q == statement_of_role u (host_of u) (is_admin u)
    then with_role u.user (host_of u) (is_admin u)
    else otherwise

abbrev chief : SeededUser
chief = record { user = "adm"; password = "first"; host = "any"; role = "admin" }

abbrev demoted : SeededUser
demoted = record { user = "adm"; password = "second"; host = "any"; role = "minimal" }

abbrev local : SeededUser
local = record { user = "adm"; password = "third"; host = "localhost"; role = "admin" }

abbrev effect_of : String → Accounts → Accounts
effect_of q =
    effect_for app q (
      effect_for logs q
        (user_effect chief q (user_effect demoted q (user_effect local q (λ a. a)))))

abbrev nobody : Accounts
nobody = record {
  has_database = λ n. n == "mysql";
  known = λ u. u == "root";
  password = λ u h. if u == "root" then some "" else none;
  privileges = λ u h n. no_privileges;
  everything = λ u h. u == "root";
  grant_option = λ u h. u == "root";
}

abbrev keeps : Trace → Accounts
keeps [] = nobody
keeps (executed q none ∷ t) = effect_of q (keeps t)
keeps (e ∷ t) = keeps t

abbrev asks : String → Accounts → Bool
asks q a = if q == look_for_user app then a.known "me" else false

abbrev server : Env
server = record calm { query = λ t q. ok (asks q (keeps t)) }

abbrev two : DbHelperConfig
two = record sample.db {
  preseeded_databases = app ∷ logs ∷ [];
  seeded_users = chief ∷ demoted ∷ local ∷ [];
}

app-Obeys : Obeys server keeps app
unfolding sprintf
app-Obeys = record {
  creates_database = λ t. (refl, refl);
  answers = λ t. refl;
  looks = λ t b. refl;
  creates_user = λ t e. (refl, refl);
  updates_user = λ t old e. (refl, refl);
  grants = λ t p e. (refl, refl);
  revokes = λ t e. (refl, refl);
}

logs-Obeys : Obeys server keeps logs
unfolding sprintf
logs-Obeys = record {
  creates_database = λ t. (refl, refl);
  answers = λ t. refl;
  looks = λ t b. refl;
  creates_user = λ t e. (refl, refl);
  updates_user = λ t old e. (refl, refl);
  grants = λ t p e. (refl, refl);
  revokes = λ t e. (refl, refl);
}

server-Connects : Connects server keeps (format_dsn server two)
unfolding sprintf format_dsn
server-Connects = record {
  opens = λ t. refl;
  opening = λ t. refl;
  closing = λ t. refl;
  flushes = λ t. (refl, refl);
}

seed-Seeds_example :
    (v : World) × (seed server two fresh ≡ returned tt v)
    × Seeds (app ∷ logs ∷ []) (keeps []) (keeps v.trace)
seed-Seeds_example =
    seed-Seeds server keeps two server-Connects fresh (app-Obeys, (logs-Obeys, tt))
      (inl refl, (inl refl, tt))

chief-ObeysUser : ObeysUser server keeps chief
unfolding sprintf
chief-ObeysUser = record {
  creates = λ t. (refl, refl);
  alters = λ t old e. (refl, refl);
  assigns = λ t p e. (refl, refl);
}

demoted-ObeysUser : ObeysUser server keeps demoted
unfolding sprintf
demoted-ObeysUser = record {
  creates = λ t. (refl, refl);
  alters = λ t old e. (refl, refl);
  assigns = λ t p e. (refl, refl);
}

local-ObeysUser : ObeysUser server keeps local
unfolding sprintf
local-ObeysUser = record {
  creates = λ t. (refl, refl);
  alters = λ t old e. (refl, refl);
  assigns = λ t p e. (refl, refl);
}

seed_users-UsersSeeded_example :
    (v : World) × (seed_users server two fresh ≡ returned tt v)
    × UsersSeeded (chief ∷ demoted ∷ local ∷ []) (keeps []) (keeps v.trace)
seed_users-UsersSeeded_example =
    seed_users-UsersSeeded server keeps two server-Connects fresh
      (chief-ObeysUser, (demoted-ObeysUser, (local-ObeysUser, tt)))
      ((inr (inr refl), inl refl), ((inr (inr refl), inr refl), ((inl refl, inl refl), tt)))

-- one start, and the next
abbrev started_once : World
started_once = final (seeding server keeps two server-Connects fresh)

started_once_lem : seeding server keeps two server-Connects fresh ≡ returned tt started_once
unfolding ◌>>=◌ seed seed_users create_db_if_needed exec is_existing_user query_any create_user
    update_user grant_user_privileges seed_user sprintf
started_once_lem = refl

seeding-SameAccounts_example :
    (x : World) × (seeding server keeps two server-Connects started_once ≡ returned tt x)
    × SameAccounts (keeps started_once.trace) (keeps x.trace)
seeding-SameAccounts_example =
    seeding-SameAccounts server keeps two server-Connects fresh started_once started_once
      (app-Obeys, (logs-Obeys, tt)) (inl refl, (inl refl, tt))
      (chief-ObeysUser, (demoted-ObeysUser, (local-ObeysUser, tt)))
      ((inr (inr refl), inl refl), ((inr (inr refl), inr refl), ((inl refl, inl refl), tt)))
      started_once_lem refl

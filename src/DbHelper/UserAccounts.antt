-- ===== src/DbHelper/UserAccounts.antt =====
-- db_helper/user_seeder.go on a server that obeys its statements: one seeded user.
use mariadb_ctrl.Prelude.{
  String, ◌==◌, ◌≡◌, ◌⊎◌, Bool, true, false, ◌&&◌, ◌||◌, Option, none, some, if◌then◌else◌,
}
use mariadb_ctrl.Go.World.{Trace}
use mariadb_ctrl.Env.{Env}
use mariadb_ctrl.Config.{SeededUser}
use mariadb_ctrl.DbHelper.Texts.{creation_of_account, change_of_account, statement_of_role}
use mariadb_ctrl.DbHelper.Accounts.{Accounts, with_password, Does}

-- the host of an account, for the three words of the configuration
abbrev pub host_of : SeededUser → String
host_of u =
    if u.host == "localhost" then "localhost" else if u.host == "loopback" then "127.0.0.1" else "%"

abbrev pub is_admin : SeededUser → Bool
is_admin u = u.role == "admin"

abbrev pub IsValidHost : String → Type 0
IsValidHost h = (h ≡ "localhost") ⊎ ((h ≡ "loopback") ⊎ (h ≡ "any"))

abbrev pub IsValidRole : String → Type 0
IsValidRole r = (r ≡ "admin") ⊎ (r ≡ "minimal")

abbrev pub IsValidUser : SeededUser → Type 0
IsValidUser u = IsValidHost u.host × IsValidRole u.role

abbrev pub is_there : Option String → Bool
is_there none = false
is_there (some p) = true

-- `CREATE USER IF NOT EXISTS`
abbrev pub with_account : String → String → String → Accounts → Accounts
with_account u h p a = if is_there (a.password u h) then a else with_password u h p a

-- An administrator gets all global privileges and may grant them; otherwise the global privileges are
-- revoked, of which the right to grant is none.
abbrev pub with_role : String → String → Bool → Accounts → Accounts
with_role u h admin a = record a {
  everything = λ x k. if u == x && h == k then admin else a.everything x k;
  grant_option =
      λ x k. if u == x && h == k then (admin || a.grant_option x k) else a.grant_option x k;
}

-- The server obeys the statements for a seeded user.
pub record ObeysUser (env : Env) (view : Trace → Accounts) (u : SeededUser) : Type 0 where
  pub creates :
      (t : Trace)
      → Does env view
          (creation_of_account u (host_of u))
          (with_account u.user (host_of u) u.password)
          t
  pub alters :
      (t : Trace) (old : String)
      → (view t).password u.user (host_of u) ≡ some old
      → Does env view
          (change_of_account u (host_of u))
          (with_password u.user (host_of u) u.password)
          t
  pub assigns :
      (t : Trace) (p : String)
      → (view t).password u.user (host_of u) ≡ some p
      → Does env view
          (statement_of_role u (host_of u) (is_admin u))
          (with_role u.user (host_of u) (is_admin u))
          t

-- What seeding one user does to the accounts.
pub record UserSettled (u : SeededUser) (a b : Accounts) : Type 0 where
  pub databases : b.has_database ≡ a.has_database
  pub privileges : b.privileges ≡ a.privileges
  pub users : (x : String) → b.known x ≡ (if u.user == x then true else a.known x)
  pub passwords :
      (x k : String)
      → b.password x k ≡ (if u.user == x && host_of u == k then some u.password else a.password x k)
  pub everything :
      (x k : String)
      → b.everything x k ≡ (if u.user == x && host_of u == k then is_admin u else a.everything x k)
  pub grant_option :
      (x k : String)
      → b.grant_option x k ≡ (
          if u.user == x && host_of u == k
          then is_admin u || a.grant_option x k
          else a.grant_option x k)

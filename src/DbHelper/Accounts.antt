-- ===== src/DbHelper/Accounts.antt =====
-- What the server keeps of databases and accounts, as far as seeding is concerned, and what the
-- statements of db_helper/seeder/seeder.go and db_helper/user_seeder.go do to it.
use mariadb_ctrl.Prelude.{
  String, ◌==◌, ◌≡◌, ◌⊎◌, Bool, true, false, ◌&&◌, Option, none, some, ◌∷◌, if◌then◌else◌,
}
use mariadb_ctrl.Go.Error.{ok}
use mariadb_ctrl.Go.World.{Trace, executed, queried}
use mariadb_ctrl.Env.{Env}
use mariadb_ctrl.Config.{PreseededDatabase}
use mariadb_ctrl.DbHelper.Texts.{
  creation_of_database, look_for_user, creation_of_user, change_of_password, grant_on_database,
  revocation_of_lock_tables,
}

-- the privileges of an account on a database
pub data Privileges : Type 0 where
  no_privileges all_privileges all_but_lock_tables : Privileges

-- `known` says whether `mysql.user` has a row with the user, at any host; an account is a user at a host.
-- `everything` is an account with all global privileges.
pub record Accounts : Type 0 where
  pub has_database : String → Bool
  pub known : String → Bool
  pub password : String → String → Option String
  pub privileges : String → String → String → Privileges
  pub everything : String → String → Bool
  pub grant_option : String → String → Bool

abbrev pub any_host : String
any_host = "%"

abbrev pub with_database : String → Accounts → Accounts
with_database n a = record a { has_database = λ x. if n == x then true else a.has_database x }

abbrev pub with_password : String → String → String → Accounts → Accounts
with_password u h p a = record a {
  known = λ x. if u == x then true else a.known x;
  password = λ x k. if u == x && h == k then some p else a.password x k;
}

abbrev pub with_privileges : String → String → String → Privileges → Accounts → Accounts
with_privileges u h n p a = record a {
  privileges = λ x k m. if u == x && h == k && n == m then p else a.privileges x k m;
}

-- The statement succeeds and does this to what the server keeps.
abbrev pub Does : Env → (Trace → Accounts) → String → (Accounts → Accounts) → Trace → Type 0
Does env view q f t = (env.exec t q ≡ none) × (view (executed q none ∷ t) ≡ f (view t))

-- The server obeys the statements that are to be sent for a preseeded database, as MySQL documents them.
-- `view` is what it keeps after a trace.
pub record Obeys (env : Env) (view : Trace → Accounts) (d : PreseededDatabase) : Type 0 where
  pub creates_database :
      (t : Trace) → Does env view (creation_of_database d) (with_database d.db_name) t
  pub answers : (t : Trace) → env.query t (look_for_user d) ≡ ok ((view t).known d.user)
  pub looks : (t : Trace) (b : Bool) → view (queried (look_for_user d) (ok b) ∷ t) ≡ view t
  pub creates_user :
      (t : Trace)
      → (view t).known d.user ≡ false
      → Does env view (creation_of_user d) (with_password d.user any_host d.password) t
  pub updates_user :
      (t : Trace) (old : String)
      → (view t).password d.user any_host ≡ some old
      → Does env view (change_of_password d) (with_password d.user any_host d.password) t
  pub grants :
      (t : Trace) (p : String)
      → (view t).password d.user any_host ≡ some p
      → Does env view
          (grant_on_database d)
          (with_privileges d.user any_host d.db_name all_privileges)
          t
  pub revokes :
      (t : Trace)
      → (view t).privileges d.user any_host d.db_name ≡ all_privileges
      → Does env view
          (revocation_of_lock_tables d)
          (with_privileges d.user any_host d.db_name all_but_lock_tables)
          t

-- The user of the database has no account at all, or one for any host.
abbrev pub IsServed : Accounts → PreseededDatabase → Type 0
IsServed a d =
    (a.known d.user ≡ false)
    ⊎ ((p : String) × (a.known d.user ≡ true) × (a.password d.user any_host ≡ some p))

-- What seeding one database does to the accounts.
pub record Settled (d : PreseededDatabase) (a b : Accounts) : Type 0 where
  pub databases :
      (n : String) → b.has_database n ≡ (if d.db_name == n then true else a.has_database n)
  pub users : (u : String) → b.known u ≡ (if d.user == u then true else a.known u)
  pub passwords :
      (u h : String)
      → b.password u h ≡ (if d.user == u && any_host == h then some d.password else a.password u h)
  pub privileges :
      (u h n : String)
      → b.privileges u h n ≡ (
          if d.user == u && any_host == h && d.db_name == n
          then all_but_lock_tables
          else a.privileges u h n)
  pub everything : b.everything ≡ a.everything
  pub grant_option : b.grant_option ≡ a.grant_option

-- ===== src/DbHelper/UsersConverging.antt =====
-- `SeedUsers` of db_helper/db_helper.go on a server that obeys its statements.
use mariadb_ctrl.Prelude.{
  String, ◌==◌, ◌≡◌, refl, sym, ap, subst, ◌∙◌, Bool, false, ◌&&◌, ◌||◌, Option, none, some, List,
  [], ◌∷◌, if◌then◌else◌, All, arith,
}
use mariadb_ctrl.Go.World.{World, Trace, opened_db, closed_db}
use mariadb_ctrl.Go.Action.{returned, logged, pure, ◌>>=◌}
use mariadb_ctrl.Env.{Env}
use mariadb_ctrl.Config.{SeededUser, DbHelperConfig}
use mariadb_ctrl.DbHelper.Sql.{format_dsn, with_connection, open_db_connection}
use mariadb_ctrl.DbHelper.Seeding.{seed_each_user, seed_all_users, seed_users}
use mariadb_ctrl.DbHelper.Accounts.{Accounts}
use mariadb_ctrl.DbHelper.Converging.{Connects, or_else}
use mariadb_ctrl.DbHelper.UserAccounts.{host_of, is_admin, IsValidUser, ObeysUser, UserSettled}
use mariadb_ctrl.DbHelper.UserSettling.{seed_user-UserSettled}

abbrev pub is_account : SeededUser → String → String → Bool
is_account u x k = u.user == x && host_of u == k

abbrev pub names : String → List SeededUser → Bool
names x [] = false
names x (u ∷ us) = u.user == x || names x us

-- the password that is given last for an account
abbrev pub given_password : String → String → List SeededUser → Option String
given_password x k [] = none
given_password x k (u ∷ us) =
    or_else (given_password x k us) (if is_account u x k then some u.password else none)

-- whether the last entry for an account, if there is one, makes it an administrator
abbrev pub last_admin : String → String → Bool → List SeededUser → Bool
last_admin x k before [] = before
last_admin x k before (u ∷ us) = last_admin x k (if is_account u x k then is_admin u else before) us

-- whether an entry for an account makes it an administrator
abbrev pub ever_admin : String → String → List SeededUser → Bool
ever_admin x k [] = false
ever_admin x k (u ∷ us) = (is_account u x k && is_admin u) || ever_admin x k us

-- What the configuration says of the accounts: each has the last password that is given for it, and all
-- global privileges exactly if the last entry for it makes it an administrator; the right to grant is
-- never taken away. All else is as it was.
pub record UsersSeeded (us : List SeededUser) (a b : Accounts) : Type 0 where
  pub databases : b.has_database ≡ a.has_database
  pub privileges : b.privileges ≡ a.privileges
  pub users : (x : String) → b.known x ≡ (names x us || a.known x)
  pub passwords : (x k : String) → b.password x k ≡ or_else (given_password x k us) (a.password x k)
  pub everything : (x k : String) → b.everything x k ≡ last_admin x k (a.everything x k) us
  pub grant_option : (x k : String) → b.grant_option x k ≡ (ever_admin x k us || a.grant_option x k)

UsersSeeded-nil : (a : Accounts) → UsersSeeded [] a a
UsersSeeded-nil a = record {
  databases = refl;
  privileges = refl;
  users = λ x. refl;
  passwords = λ x k. refl;
  everything = λ x k. refl;
  grant_option = λ x k. refl;
}

UsersSeeded-cons :
    (u : SeededUser) (us : List SeededUser) (a m b : Accounts)
    → UserSettled u a m
    → UsersSeeded us m b
    → UsersSeeded (u ∷ us) a b
UsersSeeded-cons u us a m b s r = record {
  databases = r.databases ∙ s.databases;
  privileges = r.privileges ∙ s.privileges;
  users = λ x. ground (arith, s.users x, r.users x);
  passwords = λ x k. ground (arith, s.passwords x k, r.passwords x k);
  everything = λ x k. r.everything x k ∙ ap (λ c. last_admin x k c us) (s.everything x k);
  grant_option = λ x k. ground (arith, s.grant_option x k, r.grant_option x k);
}

module _ (env : Env) (view : Trace → Accounts) where
  seed_each_user-UsersSeeded :
      (us : List SeededUser) (w : World)
      → All (ObeysUser env view) us
      → All IsValidUser us
      → (v : World) × (seed_each_user env us w ≡ returned tt v)
        × UsersSeeded us (view w.trace) (view v.trace)
  unfolding seed_each_user pure ◌>>=◌
  seed_each_user-UsersSeeded [] w o h = (w, refl, UsersSeeded-nil (view w.trace))
  seed_each_user-UsersSeeded (u ∷ us) w (o, os) (p, h) =
      let (m, first, settled) = seed_user-UserSettled env view u o w p in
      let (v, rest, seeded) = seed_each_user-UsersSeeded us m os h in
      (
        v,
        rw first rest,
        UsersSeeded-cons u us (view w.trace) (view m.trace) (view v.trace) settled seeded,
      )

  module _ (config : DbHelperConfig) (connects : Connects env view (format_dsn env config)) where
    abbrev dsn : String
    dsn = format_dsn env config

    connected :
        (us : List SeededUser) (w v : World)
        → seed_each_user env us (logged (opened_db dsn none) w) ≡ returned tt v
        → with_connection env config (seed_each_user env us) w ≡ returned tt (logged closed_db v)
    unfolding with_connection open_db_connection ◌>>=◌
    connected us w v e = rw (connects.opens w.trace, e) refl

    seed_all_users-UsersSeeded :
        (us : List SeededUser) (w : World)
        → All (ObeysUser env view) us
        → All IsValidUser us
        → (v : World) × (seed_all_users env config us w ≡ returned tt v)
          × UsersSeeded us (view w.trace) (view v.trace)
    unfolding pure
    seed_all_users-UsersSeeded [] w o h = (w, refl, UsersSeeded-nil (view w.trace))
    seed_all_users-UsersSeeded (u ∷ us) w o h =
        let (v, run, seeded) =
          seed_each_user-UsersSeeded (u ∷ us) (logged (opened_db dsn none) w) o h in
        (
          logged closed_db v,
          connected (u ∷ us) w v run,
          subst (λ a. UsersSeeded (u ∷ us) a (view (closed_db ∷ v.trace)))
              (connects.opening w.trace)
              (subst (λ b. UsersSeeded (u ∷ us) (view (opened_db dsn none ∷ w.trace)) b)
                (sym (connects.closing v.trace)) seeded),
        )

    -- `SeedUsers` returns nil and leaves what the configuration says, if each user has a known host and
    -- role and the server opens the connection and obeys the statements for each user, as MySQL documents
    -- them (CREATE USER IF NOT EXISTS leaves an account that is there alone; ALTER USER, GRANT ALL
    -- PRIVILEGES ... WITH GRANT OPTION for the role admin and REVOKE ALL PRIVILEGES for the role minimal
    -- need an account). Then each account, a name with the host that the word of the configuration stands
    -- for, has the last password that is given for it; it has all global privileges exactly if the last
    -- entry for it has the role admin; it may grant them if any entry has that role, also when the last
    -- one has not, or if it could before; the databases, the privileges on them and the other accounts
    -- are as they were.
    pub seed_users-UsersSeeded :
        (w : World)
        → All (ObeysUser env view) config.seeded_users
        → All IsValidUser config.seeded_users
        → (v : World) × (seed_users env config w ≡ returned tt v)
          × UsersSeeded config.seeded_users (view w.trace) (view v.trace)
    unfolding seed_users
    seed_users-UsersSeeded w o h = seed_all_users-UsersSeeded config.seeded_users w o h

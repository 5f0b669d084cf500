-- ===== src/DbHelper/UserSettling.antt =====
-- `SeedUser` of db_helper/user_seeder.go on a server that obeys its statements.
use mariadb_ctrl.Prelude.{
  String, ◌==◌, ◌≡◌, refl, ap, ◌∙◌, inl, inr, Bool, true, false, ◌&&◌, Option, none, some, [], ◌∷◌,
  if◌then◌else◌, arith, eq_refl,
}
use mariadb_ctrl.Go.Error.{ok}
use mariadb_ctrl.Go.World.{World, Trace, executed}
use mariadb_ctrl.Go.Action.{returned, ◌>>=◌}
use mariadb_ctrl.Env.{Env}
use mariadb_ctrl.Config.{SeededUser}
use mariadb_ctrl.Text.{sprintf}
use mariadb_ctrl.DbHelper.Sql.{exec}
use mariadb_ctrl.DbHelper.UserSeeder.{
  get_role_query, get_host_string, admin_query, minimal_query, seed_user,
}
use mariadb_ctrl.DbHelper.Texts.{creation_of_account, change_of_account, statement_of_role}
use mariadb_ctrl.DbHelper.Accounts.{Accounts, with_password}
use mariadb_ctrl.DbHelper.UserAccounts.{
  host_of, is_admin, IsValidHost, IsValidRole, IsValidUser, is_there, with_account, with_role,
  ObeysUser, UserSettled,
}

-- After CREATE USER IF NOT EXISTS there is an account.
with_account_there :
    (u h p : String) (a : Accounts)
    → (old : String) × ((with_account u h p a).password u h ≡ some old)
with_account_there u h p a = there (a.password u h) refl
  where
    there :
        (o : Option String)
        → a.password u h ≡ o
        → (old : String) × ((with_account u h p a).password u h ≡ some old)
    there none e = (p, ground (arith, e, eq_refl u, eq_refl h))
    there (some old) e = (old, ground (arith, e))

own_password : (u h p : String) (a : Accounts) → (with_password u h p a).password u h ≡ some p
own_password u h p a = ground (arith, eq_refl u, eq_refl h)

pub host_lem : (u : SeededUser) → IsValidHost u.host → get_host_string u.host ≡ ok (host_of u)
unfolding get_host_string
host_lem u (inl e) = rw e refl
host_lem u (inr (inl e)) = rw e refl
host_lem u (inr (inr e)) = rw e refl

abbrev pub role_query_of : SeededUser → String
role_query_of u = if is_admin u then admin_query else minimal_query

pub role_lem : (u : SeededUser) → IsValidRole u.role → get_role_query u.role ≡ ok (role_query_of u)
unfolding get_role_query
role_lem u (inl e) = rw e refl
role_lem u (inr e) = rw e refl

-- The query of the role gives the statement of the role.
pub role_statement :
    (u : SeededUser) (host : String) (admin : Bool)
    → sprintf (if admin then admin_query else minimal_query) (u.user ∷ host ∷ [])
      ≡ statement_of_role u host admin
role_statement u host true = refl
role_statement u host false = refl

-- What the server keeps after the three statements.
abbrev settle : SeededUser → Accounts → Accounts
settle u a =
    with_role u.user (host_of u) (is_admin u)
      (with_password u.user (host_of u) u.password (with_account u.user (host_of u) u.password a))

twice :
    {A : Type 0} (c : Bool) (x y : A)
    → (if c then x else (if c then x else y)) ≡ (if c then x else y)
twice true x y = refl
twice false x y = refl

-- It makes no difference whether the account was there.
settled_by :
    (u : SeededUser) (a : Accounts) (there : Bool)
    → UserSettled u a (
        with_role u.user (host_of u) (is_admin u) (
          with_password u.user
            (host_of u)
            u.password
            (if there then a else with_password u.user (host_of u) u.password a)))
settled_by u a true = record {
  databases = refl;
  privileges = refl;
  users = λ x. refl;
  passwords = λ x k. refl;
  everything = λ x k. refl;
  grant_option = λ x k. refl;
}
settled_by u a false = record {
  databases = refl;
  privileges = refl;
  users = λ x. twice (u.user == x) true (a.known x);
  passwords = λ x k. twice (u.user == x && host_of u == k) (some u.password) (a.password x k);
  everything = λ x k. refl;
  grant_option = λ x k. refl;
}

module _ (env : Env) (view : Trace → Accounts) (u : SeededUser) (obeys : ObeysUser env view u) where
  abbrev h : String
  h = host_of u

  abbrev made : Trace → Trace
  made t = executed (creation_of_account u h) none ∷ t

  abbrev altered : Trace → Trace
  altered t = executed (change_of_account u h) none ∷ made t

  abbrev assigned : Trace → Trace
  assigned t = executed (statement_of_role u h (is_admin u)) none ∷ altered t

  statements_done :
      (t : Trace)
      → (env.exec (made t) (change_of_account u h) ≡ none)
        × (env.exec (altered t) (statement_of_role u h (is_admin u)) ≡ none)
        × (view (assigned t) ≡ settle u (view t))
  statements_done t =
      let after_creation = (obeys.creates t).1 in
      let (old, there) = with_account_there u.user h u.password (view t) in
      let alters =
        obeys.alters (made t) old (ap (λ a. a.password u.user h) after_creation ∙ there) in
      let after_change = alters.1 ∙ ap (with_password u.user h u.password) after_creation in
      let assigns = obeys.assigns (altered t) u.password (
        ap (λ a. a.password u.user h) after_change
        ∙ own_password u.user h u.password (with_account u.user h u.password (view t))) in
      (alters.0, assigns.0, assigns.1 ∙ ap (with_role u.user h (is_admin u)) after_change)

  run_answered :
      (w : World)
      → IsValidUser u
      → env.exec w.trace (creation_of_account u h) ≡ none
      → env.exec (made w.trace) (change_of_account u h) ≡ none
      → env.exec (altered w.trace) (statement_of_role u h (is_admin u)) ≡ none
      → seed_user env u w ≡ returned tt (record w { trace = assigned w.trace })
  unfolding seed_user exec ◌>>=◌
  run_answered w v p q r =
      rw (role_lem u v.1, host_lem u v.0, p, q, role_statement u h (is_admin u), r) refl

  -- The statements for one user with a known host and role all succeed, and settle its account.
  pub seed_user-UserSettled :
      (w : World)
      → IsValidUser u
      → (v : World) × (seed_user env u w ≡ returned tt v)
        × UserSettled u (view w.trace) (view v.trace)
  seed_user-UserSettled w valid =
      let rest = statements_done w.trace in
      (
        record w { trace = assigned w.trace },
        run_answered w valid (obeys.creates w.trace).0 rest.0 rest.1,
        rw rest.2 (settled_by u (view w.trace) (is_there ((view w.trace).password u.user h))),
      )

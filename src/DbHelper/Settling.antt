-- ===== src/DbHelper/Settling.antt =====
-- `Seed` of db_helper/db_helper.go on a server that obeys its statements: one preseeded database.
use mariadb_ctrl.Prelude.{
  String, ◌==◌, ◌≡◌, refl, ap, ◌∙◌, inl, inr, Bool, true, false, ◌&&◌, none, some, ◌∷◌,
  if◌then◌else◌, arith, eq_refl,
}
use mariadb_ctrl.Go.Error.{ok}
use mariadb_ctrl.Go.World.{World, Trace, executed, queried}
use mariadb_ctrl.Go.Action.{returned, ◌>>=◌}
use mariadb_ctrl.Env.{Env}
use mariadb_ctrl.Config.{PreseededDatabase}
use mariadb_ctrl.DbHelper.Sql.{exec, query_any}
use mariadb_ctrl.DbHelper.Texts.{
  creation_of_database, look_for_user, creation_of_user, change_of_password, grant_on_database,
  revocation_of_lock_tables,
}
use mariadb_ctrl.DbHelper.Seeder.{
  create_db_if_needed, is_existing_user, create_user, update_user, grant_user_privileges,
}
use mariadb_ctrl.DbHelper.Seeding.{seed_database}
use mariadb_ctrl.DbHelper.Seeded.{database_events}
use mariadb_ctrl.DbHelper.Accounts.{
  Accounts, Privileges, all_privileges, all_but_lock_tables, any_host, with_database, with_password,
  with_privileges, Obeys, IsServed, Settled,
}

module _ (env : Env) (view : Trace → Accounts) (d : PreseededDatabase)
    (obeys : Obeys env view d) where
  own_password :
      (a : Accounts)
      → (with_password d.user any_host d.password a).password d.user any_host ≡ some d.password
  own_password a = ground (arith, eq_refl d.user)

  own_privileges :
      (a : Accounts)
      → (with_privileges d.user any_host d.db_name all_privileges a).privileges d.user any_host
          d.db_name
        ≡ all_privileges
  own_privileges a = ground (arith, eq_refl d.user, eq_refl d.db_name)

  -- the account after its creation or update
  abbrev with_user : Accounts → Accounts
  with_user a = with_password d.user any_host d.password (with_database d.db_name a)

  abbrev made : Trace → Trace
  made t = executed (creation_of_database d) none ∷ t

  abbrev asked : Bool → Trace → Trace
  asked known t = queried (look_for_user d) (ok known) ∷ made t

  abbrev user_query : Bool → String
  user_query known = if known then change_of_password d else creation_of_user d

  abbrev named : Bool → Trace → Trace
  named known t = executed (user_query known) none ∷ asked known t

  abbrev granted : Bool → Trace → Trace
  granted known t = executed (grant_on_database d) none ∷ named known t

  -- What the server keeps when it is asked for the user.
  asked_view : (t : Trace) (known : Bool) → view (asked known t) ≡ with_database d.db_name (view t)
  asked_view t known = obeys.looks (made t) known ∙ (obeys.creates_database t).1

  user_done :
      (t : Trace)
      → IsServed (view t) d
      → (known : Bool) → (view t).known d.user ≡ known
      → (env.exec (asked known t) (user_query known) ≡ none)
        × (view (named known t) ≡ with_user (view t))
  user_done t s false e =
      let does =
        obeys.creates_user (asked false t) (ap (λ a. a.known d.user) (asked_view t false) ∙ e) in
      (does.0, does.1 ∙ ap (with_password d.user any_host d.password) (asked_view t false))
  user_done t (inl n) true e = cc
  user_done t (inr (p, k, q)) true e =
      let does =
        obeys.updates_user (asked true t) p
          (ap (λ a. a.password d.user any_host) (asked_view t true) ∙ q) in
      (does.0, does.1 ∙ ap (with_password d.user any_host d.password) (asked_view t true))

  -- What the server keeps after all the statements.
  abbrev settle : Accounts → Accounts
  settle a =
      with_privileges d.user any_host d.db_name all_but_lock_tables
        (with_privileges d.user any_host d.db_name all_privileges (with_user a))

  abbrev revoked : Bool → Trace → Trace
  revoked known t = database_events d known t

  statements_done :
      (t : Trace) (known : Bool)
      → (env.exec (asked known t) (user_query known) ≡ none)
        × (view (named known t) ≡ with_user (view t))
      → (env.exec (named known t) (grant_on_database d) ≡ none)
        × (env.exec (granted known t) (revocation_of_lock_tables d) ≡ none)
        × (view (revoked known t) ≡ settle (view t))
  statements_done t known (e, after_user) =
      let grants = obeys.grants (named known t) d.password (
        ap (λ a. a.password d.user any_host) after_user
        ∙ own_password (with_database d.db_name (view t))) in
      let after_grant =
        grants.1 ∙ ap (with_privileges d.user any_host d.db_name all_privileges) after_user in
      let revokes = obeys.revokes (granted known t) (
        ap (λ a. a.privileges d.user any_host d.db_name) after_grant
        ∙ own_privileges (with_user (view t))) in
      (
        grants.0,
        revokes.0,
        revokes.1 ∙ ap (with_privileges d.user any_host d.db_name all_but_lock_tables) after_grant,
      )

  settle-Settled : (a b : Accounts) → b ≡ settle a → Settled d a b
  settle-Settled a b e = rw e (record {
    databases = λ n. refl;
    users = λ u. refl;
    everything = refl;
    grant_option = refl;
    passwords = λ u h. refl;
    privileges =
        λ u h n. overwritten (d.user == u && any_host == h && d.db_name == n) (a.privileges u h n);
  })
    where
      overwritten :
          (t : Bool) (p : Privileges)
          → (if t then all_but_lock_tables else (if t then all_privileges else p))
            ≡ (if t then all_but_lock_tables else p)
      overwritten true p = refl
      overwritten false p = refl

  -- `seed_database` when each of its calls is answered so.
  run_answered :
      (w : World) (known : Bool)
      → env.exec w.trace (creation_of_database d) ≡ none
      → env.query (made w.trace) (look_for_user d) ≡ ok known
      → env.exec (asked known w.trace) (user_query known) ≡ none
      → env.exec (named known w.trace) (grant_on_database d) ≡ none
      → env.exec (granted known w.trace) (revocation_of_lock_tables d) ≡ none
      → seed_database env d w ≡ returned tt (record w { trace = revoked known w.trace })
  unfolding seed_database create_db_if_needed is_existing_user create_user update_user
      grant_user_privileges exec query_any ◌>>=◌
  run_answered w true p q r x y = rw (p, q, r, x, y) refl
  run_answered w false p q r x y = rw (p, q, r, x, y) refl

  -- The statements for one preseeded database all succeed, and settle its accounts.
  pub seed_database-Settled :
      (w : World)
      → IsServed (view w.trace) d
      → (v : World) × (seed_database env d w ≡ returned tt v)
        × Settled d (view w.trace) (view v.trace)
  seed_database-Settled w s =
      let known = (view w.trace).known d.user in
      let user = user_done w.trace s known refl in
      let rest = statements_done w.trace known user in
      (
        record w { trace = revoked known w.trace },
        run_answered w known (obeys.creates_database w.trace).0
            (obeys.answers (made w.trace)
              ∙ ap (λ a. ok (a.known d.user)) (obeys.creates_database w.trace).1)
            user.0 rest.0 rest.1,
        settle-Settled (view w.trace) _ rest.2,
      )

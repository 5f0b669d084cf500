-- ===== src/DbHelper/Reseeding.antt =====
-- `seedDatabases` and `seedUsers` of start_manager/node_starter/starter.go, which every start of the node
-- calls one after the other: what the server keeps after one start and after the next.
use mariadb_ctrl.Prelude.{
  String, ◌==◌, ◌≡◌, refl, sym, ap, subst, ◌∙◌, inl, inr, true, Option, none, some, List, [], ◌∷◌,
  All, Bool-cases, arith, eq_refl,
}
use mariadb_ctrl.Go.World.{World, Trace}
use mariadb_ctrl.Go.Action.{Go, returned, ◌>>=◌, ◌>>◌}
use mariadb_ctrl.Env.{Env}
use mariadb_ctrl.Config.{PreseededDatabase, SeededUser, DbHelperConfig}
use mariadb_ctrl.DbHelper.Sql.{format_dsn}
use mariadb_ctrl.DbHelper.Seeding.{seed, seed_users}
use mariadb_ctrl.DbHelper.Accounts.{Accounts, any_host, Obeys, IsServed}
use mariadb_ctrl.DbHelper.Converging.{
  Connects, Seeds, names_user, last_password, or_else, seed-Seeds,
}
use mariadb_ctrl.DbHelper.UserAccounts.{IsValidUser, ObeysUser}
use mariadb_ctrl.DbHelper.UsersConverging.{UsersSeeded, given_password, seed_users-UsersSeeded}
use mariadb_ctrl.DbHelper.SameAccounts.{SameAccounts, seeded_twice}

abbrev Named : List PreseededDatabase → PreseededDatabase → Type 0
Named ds c = names_user c.user ds ≡ true

Named-cons :
    (d : PreseededDatabase) (ds cs : List PreseededDatabase)
    → All (Named ds) cs
    → All (Named (d ∷ ds)) cs
Named-cons d ds [] h = tt
Named-cons d ds (c ∷ cs) (p, h) = (ground arith, Named-cons d ds cs h)

All-Named : (ds : List PreseededDatabase) → All (Named ds) ds
All-Named [] = tt
All-Named (d ∷ ds) = (ground (arith, eq_refl d.user), Named-cons d ds ds (All-Named ds))

some-or_else : (o : Option String) (p : String) → (q : String) × (or_else o (some p) ≡ some q)
some-or_else none p = (p, refl)
some-or_else (some q) p = (q, refl)

-- A user that is named has a last password.
password_of_Named :
    (u : String) (ds : List PreseededDatabase)
    → names_user u ds ≡ true
    → (p : String) × (last_password u ds ≡ some p)
password_of_Named u [] h = cc
password_of_Named u (d ∷ ds) h = elim (Bool-cases (d.user == u)) [
  | inl e ↦ rw e (some-or_else (last_password u ds) d.password)
  | inr e ↦ later (password_of_Named u ds (ground arith))
]
  where
    later :
        (p : String) × (last_password u ds ≡ some p)
        → (p : String) × (last_password u (d ∷ ds) ≡ some p)
    later (p, e) = (p, rw e refl)

module _ (ds : List PreseededDatabase) (us : List SeededUser) (a m b : Accounts) (s : Seeds ds a m)
    (r : UsersSeeded us m b) where
  served : (c : PreseededDatabase) → Named ds c → IsServed b c
  served c h =
      let (p, e) = password_of_Named c.user ds h in
      let (q, f) = some-or_else (given_password c.user any_host us) p in
      inr (
        q,
        ground (arith, r.users c.user, s.users c.user),
        r.passwords c.user any_host
            ∙ ap (or_else (given_password c.user any_host us))
                (s.passwords c.user any_host ∙ ap (λ o. or_else o (a.password c.user any_host)) e)
            ∙ f,
      )

  -- The user of a database that is seeded has an account for any host afterwards.
  All-served : (cs : List PreseededDatabase) → All (Named ds) cs → All (IsServed b) cs
  All-served [] h = tt
  All-served (c ∷ cs) (p, h) = (served c p, All-served cs h)

module _ (env : Env) (view : Trace → Accounts) (config : DbHelperConfig)
    (connects : Connects env view (format_dsn env config)) where
  abbrev ds : List PreseededDatabase
  ds = config.preseeded_databases

  abbrev us : List SeededUser
  us = config.seeded_users

  -- `seedDatabases` and `seedUsers`
  abbrev pub seeding : Go Unit
  seeding = do seed env config; seed_users env config

  -- What the server keeps is what the configuration says.
  abbrev Configured : Accounts → Accounts → Type 0
  Configured a b = (m : Accounts) × Seeds ds a m × UsersSeeded us m b

  seeding-Configured :
      (w : World)
      → All (Obeys env view) ds
      → All (IsServed (view w.trace)) ds
      → All (ObeysUser env view) us
      → All IsValidUser us
      → (v : World) × (seeding w ≡ returned tt v) × Configured (view w.trace) (view v.trace)
  unfolding ◌>>=◌
  seeding-Configured w o h p q =
      let (m, first, seeds) = seed-Seeds env view config connects w o h in
      let (v, second, seeded) = seed_users-UsersSeeded env view config connects m p q in
      (v, rw first second, (view m.trace, seeds, seeded))

  -- A restart leaves the accounts as they are. With a server that opens connections and obeys the
  -- statements of the preseeded databases and of the seeded users (as for `Seed` and `SeedUsers`), users
  -- with known hosts and roles, and preseeded users that are not known or have an account for any host
  -- before the first start: when `seedDatabases` and `seedUsers` have returned nil once, and the server
  -- keeps what it kept then, they return nil again in the next start, and the databases, the known
  -- users, the passwords, the privileges and the right to grant are the same afterwards.
  pub seeding-SameAccounts :
      (w v w2 : World)
      → All (Obeys env view) ds
      → All (IsServed (view w.trace)) ds
      → All (ObeysUser env view) us
      → All IsValidUser us
      → seeding w ≡ returned tt v
      → view w2.trace ≡ view v.trace
      → (x : World) × (seeding w2 ≡ returned tt x) × SameAccounts (view w2.trace) (view x.trace)
  seeding-SameAccounts w v w2 o h p q first same =
      let (v1, run, done) = seeding-Configured w o h p q in
      let is_first : v1 ≡ v = cc in
      let (m, s, r) =
        subst (λ (y : World). Configured (view w.trace) (view y.trace)) is_first done in
      let (m1, s1, r1) = subst (λ b. Configured (view w.trace) b) (sym same) (m, s, r) in
      let (x, again, (m2, s2, r2)) =
        seeding-Configured w2 o
          (All-served ds us (view w.trace) m1 (view w2.trace) s1 r1 ds (All-Named ds)) p q in
      (x, again, seeded_twice ds us (view w.trace) m1 (view w2.trace) m2 (view x.trace) s1 r1 s2 r2)

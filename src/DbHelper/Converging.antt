-- ===== src/DbHelper/Converging.antt =====
-- `Seed` of db_helper/db_helper.go on a server that obeys the statements: what the server keeps afterwards.
use mariadb_ctrl.Prelude.{
  String, ◌==◌, ◌≡◌, refl, sym, subst, ◌∙◌, inl, inr, Bool, false, ◌&&◌, ◌||◌, Option, none, some,
  List, [], ◌∷◌, if◌then◌else◌, All, Bool-cases, arith,
}
use mariadb_ctrl.Go.World.{World, Trace, executed, opened_db, closed_db}
use mariadb_ctrl.Go.Action.{returned, logged, pure, ◌>>=◌, ◌>>◌}
use mariadb_ctrl.Env.{Env}
use mariadb_ctrl.Config.{PreseededDatabase, DbHelperConfig}
use mariadb_ctrl.DbHelper.Sql.{exec, format_dsn, with_connection, open_db_connection}
use mariadb_ctrl.DbHelper.Seeding.{flush_privileges, seed_databases, seed_all, seed}
use mariadb_ctrl.DbHelper.Accounts.{
  Accounts, all_but_lock_tables, any_host, Does, Obeys, IsServed, Settled,
}
use mariadb_ctrl.DbHelper.Settling.{seed_database-Settled}

-- Opening and closing a connection and flushing the privileges change nothing that the server keeps.
pub record Connects (env : Env) (view : Trace → Accounts) (dsn : String) : Type 0 where
  pub opens : (t : Trace) → env.sql_open t dsn ≡ none
  pub opening : (t : Trace) → view (opened_db dsn none ∷ t) ≡ view t
  pub closing : (t : Trace) → view (closed_db ∷ t) ≡ view t
  pub flushes : (t : Trace) → Does env view "FLUSH PRIVILEGES" (λ a. a) t

abbrev pub names_database : String → List PreseededDatabase → Bool
names_database n [] = false
names_database n (d ∷ ds) = d.db_name == n || names_database n ds

abbrev pub names_user : String → List PreseededDatabase → Bool
names_user u [] = false
names_user u (d ∷ ds) = d.user == u || names_user u ds

abbrev pub names_both : String → String → List PreseededDatabase → Bool
names_both u n [] = false
names_both u n (d ∷ ds) = (d.user == u && d.db_name == n) || names_both u n ds

abbrev pub or_else : Option String → Option String → Option String
or_else none rest = rest
or_else (some p) rest = some p

-- the password of the last database with the user
abbrev pub last_password : String → List PreseededDatabase → Option String
last_password u [] = none
last_password u (d ∷ ds) =
    or_else (last_password u ds) (if d.user == u then some d.password else none)

-- What the configuration says of what the server keeps: the databases exist, each user has the last
-- password that is given for it, and all privileges but LOCK TABLES on each of its databases; all else
-- is as it was.
pub record Seeds (ds : List PreseededDatabase) (a b : Accounts) : Type 0 where
  pub databases : (n : String) → b.has_database n ≡ (names_database n ds || a.has_database n)
  pub users : (u : String) → b.known u ≡ (names_user u ds || a.known u)
  pub passwords :
      (u h : String)
      → b.password u h
        ≡ (if any_host == h then or_else (last_password u ds) (a.password u h) else a.password u h)
  pub privileges :
      (u h n : String)
      → b.privileges u h n
        ≡ (if any_host == h && names_both u n ds then all_but_lock_tables else a.privileges u h n)
  pub everything : b.everything ≡ a.everything
  pub grant_option : b.grant_option ≡ a.grant_option

Seeds-nil : (a : Accounts) → Seeds [] a a
Seeds-nil a = record {
  databases = λ n. refl;
  users = λ u. refl;
  passwords = λ u h. ground arith;
  privileges = λ u h n. ground arith;
  everything = refl;
  grant_option = refl;
}

Seeds-cons :
    (d : PreseededDatabase) (ds : List PreseededDatabase) (a m b : Accounts)
    → Settled d a m
    → Seeds ds m b
    → Seeds (d ∷ ds) a b
Seeds-cons d ds a m b s r = record {
  databases = λ n. ground (arith, s.databases n, r.databases n);
  users = λ u. ground (arith, s.users u, r.users u);
  passwords = λ u h. ground (arith, s.passwords u h, r.passwords u h);
  privileges = λ u h n. ground (arith, s.privileges u h n, r.privileges u h n);
  everything = r.everything ∙ s.everything;
  grant_option = r.grant_option ∙ s.grant_option;
}

-- Settling a database leaves the users of the others served.
Settled-IsServed :
    (d c : PreseededDatabase) (a b : Accounts) → Settled d a b → IsServed a c → IsServed b c
Settled-IsServed d c a b s h = elim (Bool-cases (d.user == c.user)) [
  | inl e ↦
      inr (d.password, ground (arith, s.users c.user), ground (arith, s.passwords c.user any_host))
  | inr e ↦ other h e
]
  where
    other : IsServed a c → (d.user == c.user) ≡ false → IsServed b c
    other (inl n) e = inl (ground (arith, s.users c.user))
    other (inr (p, k, q)) e =
        inr (p, ground (arith, s.users c.user), ground (arith, s.passwords c.user any_host))

module _ (env : Env) (view : Trace → Accounts) where
  abbrev Served : Trace → PreseededDatabase → Type 0
  Served t d = IsServed (view t) d

  still-Served :
      (d : PreseededDatabase) (ds : List PreseededDatabase) (t u : Trace)
      → Settled d (view t) (view u)
      → All (Served t) ds
      → All (Served u) ds
  still-Served d [] t u s h = tt
  still-Served d (c ∷ ds) t u s (p, h) =
      (Settled-IsServed d c (view t) (view u) s p, still-Served d ds t u s h)

  seed_databases-Seeds :
      (ds : List PreseededDatabase) (w : World)
      → All (Obeys env view) ds
      → All (Served w.trace) ds
      → (v : World) × (seed_databases env ds w ≡ returned tt v)
        × Seeds ds (view w.trace) (view v.trace)
  unfolding seed_databases ◌>>=◌
  seed_databases-Seeds [] w o h = (w, refl, Seeds-nil (view w.trace))
  seed_databases-Seeds (d ∷ ds) w (o, os) (p, h) =
      let (m, first, settled) = seed_database-Settled env view d o w p in
      let (v, rest, seeds) =
        seed_databases-Seeds ds m os (still-Served d ds w.trace m.trace settled h) in
      (v, rw first rest, Seeds-cons d ds (view w.trace) (view m.trace) (view v.trace) settled seeds)

  module _ (config : DbHelperConfig) (connects : Connects env view (format_dsn env config)) where
    abbrev dsn : String
    dsn = format_dsn env config

    -- The block with its connection, when the statements of the databases succeed.
    connected :
        (ds : List PreseededDatabase) (w v : World)
        → seed_databases env ds (logged (opened_db dsn none) w) ≡ returned tt v
        → with_connection env config (do seed_databases env ds; flush_privileges env) w
          ≡ returned tt (logged closed_db (logged (executed "FLUSH PRIVILEGES" none) v))
    unfolding with_connection open_db_connection flush_privileges exec ◌>>=◌
    connected ds w v e = rw (connects.opens w.trace, e, (connects.flushes v.trace).0) refl

    kept :
        (v : World) → view (closed_db ∷ (executed "FLUSH PRIVILEGES" none ∷ v.trace)) ≡ view v.trace
    kept v = connects.closing _ ∙ (connects.flushes v.trace).1

    seed_all-Seeds :
        (ds : List PreseededDatabase) (w : World)
        → All (Obeys env view) ds
        → All (Served w.trace) ds
        → (v : World) × (seed_all env config ds w ≡ returned tt v)
          × Seeds ds (view w.trace) (view v.trace)
    unfolding pure
    seed_all-Seeds [] w o h = (w, refl, Seeds-nil (view w.trace))
    seed_all-Seeds (d ∷ ds) w o h =
        let same = connects.opening w.trace in
        let (v, run, seeds) =
          seed_databases-Seeds (d ∷ ds) (logged (opened_db dsn none) w) o
            (subst (λ a. All (IsServed a) (d ∷ ds)) (sym same) h) in
        (
          logged closed_db (logged (executed "FLUSH PRIVILEGES" none) v),
          connected (d ∷ ds) w v run,
          subst
              (λ a.
                Seeds (d ∷ ds) a (view (closed_db ∷ (executed "FLUSH PRIVILEGES" none ∷ v.trace))))
              same
              (subst (λ b. Seeds (d ∷ ds) (view (opened_db dsn none ∷ w.trace)) b) (sym (kept v))
                seeds),
        )

    -- `Seed` returns nil and leaves what the configuration says, on a server that opens the connection and
    -- obeys the statements for each preseeded database, as MySQL documents them (CREATE USER makes a user
    -- if none of the name is known, SET PASSWORD and GRANT ALL need an account for any host, and REVOKE
    -- LOCK TABLES takes that from all privileges), and on which each of the users is either not known at
    -- all or has an account for any host. Then each of the databases exists, each of the users has the
    -- last password that is given for it, and all privileges but LOCK TABLES on each of its databases;
    -- other databases, accounts and privileges are as they were.
    pub seed-Seeds :
        (w : World)
        → All (Obeys env view) config.preseeded_databases
        → All (Served w.trace) config.preseeded_databases
        → (v : World) × (seed env config w ≡ returned tt v)
          × Seeds config.preseeded_databases (view w.trace) (view v.trace)
    unfolding seed
    seed-Seeds w o h = seed_all-Seeds config.preseeded_databases w o h

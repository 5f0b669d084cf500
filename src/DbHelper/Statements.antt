-- ===== src/DbHelper/Statements.antt =====
-- The statements of db_helper/user_seeder.go: which ones are executed, and in which order.
use mariadb_ctrl.Prelude.{
  String, ◌==◌, ◌≡◌, refl, sym, subst, inl, inr, Bool, true, false, Option, none, some, List, [],
  ◌∷◌, ◌++◌, ap, eq_iff, arith,
}
use mariadb_ctrl.Go.Error.{Error, Result, ok, err, message}
use mariadb_ctrl.Go.World.{World, Trace, executed}
use mariadb_ctrl.Go.Action.{Outcome, returned, failed, Go, logged, ◌>>=◌, ◌>>◌}
use mariadb_ctrl.Env.{Env}
use mariadb_ctrl.Config.{SeededUser}
use mariadb_ctrl.Text.{sprintf}
use mariadb_ctrl.DbHelper.Sql.{exec}
use mariadb_ctrl.DbHelper.Texts.{creation_of_account, change_of_account, statement_of_role}
use mariadb_ctrl.DbHelper.UserSeeder.{get_role_query, get_host_string, seed_user}
use mariadb_ctrl.DbHelper.UserAccounts.{host_of, is_admin, IsValidHost, IsValidRole, IsValidUser}
use mariadb_ctrl.DbHelper.UserSettling.{role_query_of, role_lem, host_lem, role_statement}

-- The trace after the statements, which all succeed.
abbrev pub after : List String → Trace → Trace
after [] t = t
after (q ∷ qs) t = after qs (executed q none ∷ t)

-- The statements are executed in order, up to the first one that fails.
pub data InOrder (qs : List String) (w : World) : Outcome Unit → Type 0 where
  all_executed : InOrder qs w (returned tt (record w { trace = after qs w.trace }))
  stopped :
      (done : List String) (q : String) (rest : List String) (e : Error)
      → qs ≡ done ++ q ∷ rest
      → InOrder qs w (failed e (record w { trace = executed q (some e) ∷ after done w.trace }))

InOrder-cons :
    {q : String} {qs : List String} {w : World} {o : Outcome Unit}
    → InOrder qs (logged (executed q none) w) o
    → InOrder (q ∷ qs) w o
InOrder-cons all_executed = all_executed
InOrder-cons {q} (stopped done p rest e s) = stopped (q ∷ done) p rest e (ap (λ l. q ∷ l) s)

module _ (env : Env) where
  last_cases :
      (q : String) (w : World) (r : Option Error)
      → env.exec w.trace q ≡ r
      → InOrder (q ∷ []) w (exec env q w)
  unfolding exec ◌>>=◌
  last_cases q w none p = rw p all_executed
  last_cases q w (some e) p = rw p (stopped [] q [] e refl)

  exec-last : (q : String) (w : World) → InOrder (q ∷ []) w (exec env q w)
  exec-last q w = last_cases q w _ refl

  then_cases :
      (q : String) (qs : List String) (m : Go Unit) (w : World) (r : Option Error)
      → env.exec w.trace q ≡ r
      → ((v : World) → InOrder qs v (m v))
      → InOrder (q ∷ qs) w ((exec env q >> m) w)
  unfolding exec ◌>>=◌
  then_cases q qs m w none p h = rw p (InOrder-cons (h (logged (executed q none) w)))
  then_cases q qs m w (some e) p h = rw p (stopped [] q qs e refl)

  exec-then :
      (q : String) (qs : List String) (m : Go Unit)
      → ((v : World) → InOrder qs v (m v))
      → (w : World) → InOrder (q ∷ qs) w ((exec env q >> m) w)
  exec-then q qs m h w = then_cases q qs m w _ refl h

-- The statements for a user: CREATE USER, ALTER USER, and GRANT or REVOKE by its role, for the host that
-- the word of the configuration stands for.
abbrev pub user_statements : SeededUser → List String
user_statements u =
    creation_of_account u (host_of u)
    ∷ change_of_account u (host_of u)
    ∷ statement_of_role u (host_of u) (is_admin u)
    ∷ []

-- How the seeding of a user ends.
pub data Seeded (u : SeededUser) (w : World) : Outcome Unit → Type 0 where
  bad_role :
      ¬ IsValidRole u.role
      → Seeded u w (failed (message (sprintf "Invalid role: %s" (u.role ∷ []))) w)
  bad_host :
      IsValidRole u.role
      → ¬ IsValidHost u.host
      → Seeded u w (failed (message (sprintf "Invalid host: %s" (u.host ∷ []))) w)
  ran : {o : Outcome Unit} → IsValidUser u → InOrder (user_statements u) w o → Seeded u w o

-- What the code makes of a role and a host.
data RoleQuery (u : SeededUser) : Result String → Type 0 where
  known_role : IsValidRole u.role → RoleQuery u (ok (role_query_of u))
  unknown_role :
      ¬ IsValidRole u.role → RoleQuery u (err (message (sprintf "Invalid role: %s" (u.role ∷ []))))

data HostString (u : SeededUser) : Result String → Type 0 where
  known_host : IsValidHost u.host → HostString u (ok (host_of u))
  unknown_host :
      ¬ IsValidHost u.host → HostString u (err (message (sprintf "Invalid host: %s" (u.host ∷ []))))

module _ (u : SeededUser) where
  role_cases :
      (a b : Bool)
      → (u.role == "admin") ≡ a
      → (u.role == "minimal") ≡ b
      → RoleQuery u (get_role_query u.role)
  unfolding get_role_query
  role_cases true b p q = subst (RoleQuery u) (sym (role_lem u valid)) (known_role valid)
    where
      valid : IsValidRole u.role
      valid = inl ((eq_iff u.role "admin").0 p)
  role_cases false true p q = subst (RoleQuery u) (sym (role_lem u valid)) (known_role valid)
    where
      valid : IsValidRole u.role
      valid = inr ((eq_iff u.role "minimal").0 q)
  role_cases false false p q =
      rw (p, q) (unknown_role (λ v. ground (arith, eq_iff u.role "admin", eq_iff u.role "minimal")))

  host_cases :
      (a b c : Bool)
      → (u.host == "localhost") ≡ a
      → (u.host == "loopback") ≡ b
      → (u.host == "any") ≡ c
      → HostString u (get_host_string u.host)
  unfolding get_host_string
  host_cases true b c p q r = subst (HostString u) (sym (host_lem u valid)) (known_host valid)
    where
      valid : IsValidHost u.host
      valid = inl ((eq_iff u.host "localhost").0 p)
  host_cases false true c p q r = subst (HostString u) (sym (host_lem u valid)) (known_host valid)
    where
      valid : IsValidHost u.host
      valid = inr (inl ((eq_iff u.host "loopback").0 q))
  host_cases false false true p q r =
      subst (HostString u) (sym (host_lem u valid)) (known_host valid)
    where
      valid : IsValidHost u.host
      valid = inr (inr ((eq_iff u.host "any").0 r))
  host_cases false false false p q r =
      rw (p, q, r)
        (unknown_host (λ v.
          ground (arith, eq_iff u.host "localhost", eq_iff u.host "loopback", eq_iff u.host "any")))

  module _ (env : Env) (w : World) where
    seed_cases :
        (r s : Result String)
        → RoleQuery u r
        → HostString u s
        → get_role_query u.role ≡ r
        → get_host_string u.host ≡ s
        → Seeded u w (seed_user env u w)
    unfolding seed_user ◌>>=◌
    seed_cases _ s (unknown_role n) h p q = rw p (bad_role n)
    seed_cases _ _ (known_role v) (unknown_host n) p q = rw (p, q) (bad_host v n)
    seed_cases _ _ (known_role v) (known_host m) p q =
        rw (p, q, role_statement u (host_of u) (is_admin u))
          (ran (m, v) (exec-then env _ _ _ (exec-then env _ _ _ (exec-last env _)) w))

    -- `SeedUser` with a role or a host that is not known fails and does not touch the database.
    -- Otherwise it executes CREATE USER, ALTER USER and the statement of the role, in this order, up
    -- to the first that fails, whose error it returns.
    pub seed_user-Seeded : Seeded u w (seed_user env u w)
    seed_user-Seeded =
        seed_cases _ _ (role_cases _ _ refl refl) (host_cases _ _ _ refl refl refl) refl refl

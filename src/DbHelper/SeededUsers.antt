-- ===== src/DbHelper/SeededUsers.antt =====
-- `SeedUsers` of db_helper/db_helper.go: what is executed for the seeded users, and in which order.
use mariadb_ctrl.Prelude.{String, ◌≡◌, none, some, List, [], ◌∷◌, ◌++◌}
use mariadb_ctrl.Go.Error.{Error, message}
use mariadb_ctrl.Go.World.{World, Trace, executed, opened_db}
use mariadb_ctrl.Go.Action.{Outcome, returned}
use mariadb_ctrl.Go.Exact.{Exact}
use mariadb_ctrl.Env.{Env}
use mariadb_ctrl.Config.{SeededUser}
use mariadb_ctrl.Text.{sprintf}
use mariadb_ctrl.DbHelper.UserAccounts.{IsValidRole, IsValidHost, IsValidUser}
use mariadb_ctrl.DbHelper.Executing.{Connection}
use mariadb_ctrl.DbHelper.Statements.{after, user_statements}

-- The statements for the users, all of whom have a known role and host, one user after the other.
pub data UsersInTurn : List SeededUser → Trace → Trace → Type 0 where
  none_left : {t : Trace} → UsersInTurn [] t t
  next :
      {u : SeededUser} {us : List SeededUser} {t v : Trace}
      → IsValidUser u
      → UsersInTurn us (after (user_statements u) t) v
      → UsersInTurn (u ∷ us) t v

-- The users are seeded in turn up to one at whom it stops with an error: its role or its host is not
-- known, and nothing is executed for it; or one of its statements fails, after which nothing is executed.
pub data UsersStopped : List SeededUser → Trace → Error → Trace → Type 0 where
  unknown_role :
      {u : SeededUser} {us : List SeededUser} {t : Trace}
      → ¬ IsValidRole u.role
      → UsersStopped (u ∷ us) t (message (sprintf "Invalid role: %s" (u.role ∷ []))) t
  unknown_host :
      {u : SeededUser} {us : List SeededUser} {t : Trace}
      → IsValidRole u.role
      → ¬ IsValidHost u.host
      → UsersStopped (u ∷ us) t (message (sprintf "Invalid host: %s" (u.host ∷ []))) t
  failing :
      {u : SeededUser} {us : List SeededUser} {t : Trace} (done : List String) (q : String)
      (rest : List String) (e : Error)
      → IsValidUser u
      → user_statements u ≡ done ++ q ∷ rest
      → UsersStopped (u ∷ us) t e (executed q (some e) ∷ after done t)
  later :
      {u : SeededUser} {us : List SeededUser} {t v : Trace} {e : Error}
      → IsValidUser u
      → UsersStopped us (after (user_statements u) t) e v
      → UsersStopped (u ∷ us) t e v

module _ (env : Env) where
  abbrev DoneOne : SeededUser → World → World → Type 0
  DoneOne u w v = IsValidUser u × (v.trace ≡ after (user_statements u) w.trace)

  abbrev Fails : List SeededUser → World → Error → World → Type 0
  Fails us w e v = UsersStopped us w.trace e v.trace

  abbrev Done : List SeededUser → World → World → Type 0
  Done us w v = UsersInTurn us w.trace v.trace

-- How `SeedUsers` ends for the users.
pub data SeedUsersEnd (dsn : String) (us : List SeededUser) (w : World)
    : Outcome Unit → Type 0 where
  nobody_to_seed : us ≡ [] → SeedUsersEnd dsn us w (returned tt w)
  connected :
      {o : Outcome Unit}
      → Connection dsn w.trace
          (UsersInTurn us (opened_db dsn none ∷ w.trace))
          (UsersStopped us (opened_db dsn none ∷ w.trace))
          o
      → SeedUsersEnd dsn us w o

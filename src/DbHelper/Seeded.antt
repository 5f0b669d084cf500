-- ===== src/DbHelper/Seeded.antt =====
-- `Seed` of db_helper/db_helper.go: what is executed for the preseeded databases, and in which order.
use mariadb_ctrl.Prelude.{String, ◌≡◌, Bool, none, List, [], ◌∷◌, if◌then◌else◌}
use mariadb_ctrl.Go.Error.{ok}
use mariadb_ctrl.Go.World.{World, Trace, executed, queried, opened_db}
use mariadb_ctrl.Go.Action.{Outcome, returned, ◌>>◌}
use mariadb_ctrl.Go.Exact.{Exact}
use mariadb_ctrl.Env.{Env}
use mariadb_ctrl.Config.{PreseededDatabase}
use mariadb_ctrl.DbHelper.Executing.{FailedLast, Connection}
use mariadb_ctrl.DbHelper.Texts.{
  creation_of_database, look_for_user, creation_of_user, change_of_password, grant_on_database,
  revocation_of_lock_tables,
}

-- What is recorded for a database, the newest first, when its user exists already or not.
abbrev pub database_events : PreseededDatabase → Bool → Trace → Trace
database_events d known t =
    executed (revocation_of_lock_tables d) none
    ∷ executed (grant_on_database d) none
    ∷ executed (if known then change_of_password d else creation_of_user d) none
    ∷ queried (look_for_user d) (ok known)
    ∷ executed (creation_of_database d) none
    ∷ t

-- The databases are seeded one after the other.
pub data InTurn : List PreseededDatabase → Trace → Trace → Type 0 where
  none_left : {t : Trace} → InTurn [] t t
  next :
      {d : PreseededDatabase} {ds : List PreseededDatabase} {t u : Trace} (known : Bool)
      → InTurn ds (database_events d known t) u
      → InTurn (d ∷ ds) t u

-- the databases in turn, and the privileges flushed at the end
abbrev pub Flushed : List PreseededDatabase → Trace → Trace → Type 0
Flushed ds t v = (u : Trace) × InTurn ds t u × (v ≡ executed "FLUSH PRIVILEGES" none ∷ u)

-- How `Seed` ends for the databases.
pub data SeedEnd (dsn : String) (ds : List PreseededDatabase) (w : World)
    : Outcome Unit → Type 0 where
  nothing_to_seed : ds ≡ [] → SeedEnd dsn ds w (returned tt w)
  connected :
      {o : Outcome Unit}
      → Connection dsn w.trace (Flushed ds (opened_db dsn none ∷ w.trace)) FailedLast o
      → SeedEnd dsn ds w o

module _ (env : Env) where
  abbrev DoneOne : PreseededDatabase → World → World → Type 0
  DoneOne d w v = (known : Bool) × (v.trace ≡ database_events d known w.trace)

  abbrev Done : List PreseededDatabase → World → World → Type 0
  Done ds w v = InTurn ds w.trace v.trace

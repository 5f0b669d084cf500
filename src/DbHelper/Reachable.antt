-- ===== src/DbHelper/Reachable.antt =====
-- `IsDatabaseReachable` of db_helper/db_helper.go: the answer, from those of the two queries.
use mariadb_ctrl.Prelude.{
  String, eq_iff, ◌≡◌, ◌≢◌, ◌↔◌, ◌⊎◌, refl, Bool, true, ◌∷◌, Option, none, some, arith,
}
use mariadb_ctrl.Go.Error.{Error, Result, ok, err, no_rows, message, wrapped, exit_error}
use mariadb_ctrl.Go.World.{World, Trace, opened_db, queried_row}
use mariadb_ctrl.Go.Action.{Outcome, returned, failed, panicked, blocked, ◌>>=◌}
use mariadb_ctrl.Go.Total.{Answers}
use mariadb_ctrl.Env.{Env}
use mariadb_ctrl.Config.{DbHelperConfig}
use mariadb_ctrl.DbHelper.Sql.{query_row, format_dsn}
use mariadb_ctrl.DbHelper.Mysqld.{provider_query, state_query, is_database_reachable}

-- the Boolean that was returned
abbrev pub answer : Outcome Bool → Option Bool
answer (returned b w) = some b
answer _ = none

module _ (env : Env) (config : DbHelperConfig) where
  -- the traces after the opening, and after the first query
  abbrev opened : Trace → Trace
  opened t = opened_db (format_dsn env config) none ∷ t

  abbrev asked : Trace → Trace
  asked t = queried_row provider_query (env.query_row (opened t) provider_query) ∷ opened t

  -- Galera is off: the variable is not there or is "none".
  abbrev pub IsGaleraOff : Trace → Type 0
  IsGaleraOff t =
      (env.query_row (opened t) provider_query ≡ err no_rows)
      ⊎ ((name : String) × (env.query_row (opened t) provider_query ≡ ok (name, "none")))

  -- Galera is on, and the node has state Synced.
  abbrev pub IsSynced : Trace → Type 0
  IsSynced t =
      (name : String) × (provider : String) × (state_name : String) × (env.query_row (opened t)
          provider_query
        ≡ ok (name, provider))
      × (provider ≢ "none")
      × (env.query_row (asked t) state_query ≡ ok (state_name, "Synced"))

  abbrev pub IsReachable : Trace → Type 0
  IsReachable t = (env.sql_open t (format_dsn env config) ≡ none) × (IsGaleraOff t ⊎ IsSynced t)

  answer_cases :
      (w : World) (x : Option Error) (r s : Result (String × String))
      → env.sql_open w.trace (format_dsn env config) ≡ x
      → env.query_row (opened w.trace) provider_query ≡ r
      → env.query_row (asked w.trace) state_query ≡ s
      → (answer (is_database_reachable env config w) ≡ some true) ↔ IsReachable w.trace
  unfolding is_database_reachable ◌>>=◌ query_row
  answer_cases w (some e) r s p q k = rw p (ground arith)
  answer_cases w none (err no_rows) s p q k = rw (p, q) (ground arith)
  answer_cases w none (err (message m)) s p q k = rw (p, q) (ground arith)
  answer_cases w none (err (exit_error m)) s p q k = rw (p, q) (ground arith)
  answer_cases w none (err (wrapped m args e)) s p q k = rw (p, q) (ground arith)
  answer_cases w none (ok (name, provider)) (ok (n, state)) p q k =
      rw (p, q) (ground (arith, eq_iff provider "none", eq_iff state "Synced"))
  answer_cases w none (ok (name, provider)) (err e) p q k =
      rw (p, q) (ground (arith, eq_iff provider "none"))

  -- The database counts as reachable exactly when the connection opens and either Galera is off (the
  -- variable of the provider is missing or "none") or the node's state is Synced.
  pub is_database_reachable_iff :
      (w : World) → (answer (is_database_reachable env config w) ≡ some true) ↔ IsReachable w.trace
  is_database_reachable_iff w = answer_cases w _ _ _ refl refl refl

  some_answer :
      (w : World) (x : Option Error) (r : Result (String × String))
      → env.sql_open w.trace (format_dsn env config) ≡ x
      → env.query_row (opened w.trace) provider_query ≡ r
      → answer (is_database_reachable env config w) ≢ none
  unfolding is_database_reachable ◌>>=◌ query_row
  some_answer w (some e) r p q = rw p (ground arith)
  some_answer w none (err no_rows) p q = rw (p, q) (ground arith)
  some_answer w none (err (message m)) p q = rw (p, q) (ground arith)
  some_answer w none (err (exit_error m)) p q = rw (p, q) (ground arith)
  some_answer w none (err (wrapped m args e)) p q = rw (p, q) (ground arith)
  some_answer w none (ok (name, provider)) p q = rw (p, q) (ground arith)

  answered : (o : Outcome Bool) → answer o ≢ none → (b : Bool) × (v : World) × (o ≡ returned b v)
  answered (returned b v) h = (b, v, refl)
  answered (failed e v) h = absurd (h refl)
  answered (panicked e v) h = absurd (h refl)
  answered (blocked v) h = absurd (h refl)

  -- The question always has an answer.
  pub is_database_reachable-Answers : Answers (is_database_reachable env config)
  is_database_reachable-Answers w = answered _ (some_answer w _ _ refl refl)

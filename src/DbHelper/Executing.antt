-- ===== src/DbHelper/Executing.antt =====
-- Statements and connections: how a call of database/sql ends, and a block with a connection.
use mariadb_ctrl.Prelude.{String, ◌≡◌, refl, Bool, Option, none, some, ◌∷◌}
use mariadb_ctrl.Go.Error.{Error, Result, ok, err}
use mariadb_ctrl.Go.World.{World, Trace, executed, queried, opened_db, closed_db}
use mariadb_ctrl.Go.Action.{
  Outcome, returned, failed, panicked, blocked, Go, logged, ◌>>=◌, finished,
}
use mariadb_ctrl.Go.Exact.{Exact}
use mariadb_ctrl.Env.{Env}
use mariadb_ctrl.Config.{DbHelperConfig}
use mariadb_ctrl.DbHelper.Sql.{exec, query_any, format_dsn, with_connection, open_db_connection}

-- The newest event is a statement that has failed with the error.
abbrev pub FailedLast : Error → Trace → Type 0
FailedLast e (executed q (some x) ∷ t) = x ≡ e
FailedLast e (queried q (err x) ∷ t) = x ≡ e
FailedLast e _ = ⊥

abbrev pub Fails : Error → World → Type 0
Fails e v = FailedLast e v.trace

abbrev pub Ran : String → World → World → Type 0
Ran q w v = v.trace ≡ executed q none ∷ w.trace

module _ (env : Env) where
  exec_cases :
      (q : String) (w : World) (r : Option Error)
      → env.exec w.trace q ≡ r
      → Exact (λ _ v. Ran q w v) Fails (exec env q w)
  unfolding exec ◌>>=◌
  exec_cases q w none p = rw p refl
  exec_cases q w (some e) p = rw p refl

  pub exec-Exact : (q : String) (w : World) → Exact (λ _ v. Ran q w v) Fails (exec env q w)
  exec-Exact q w = exec_cases q w _ refl

  query_cases :
      (q : String) (w : World) (r : Result Bool)
      → env.query w.trace q ≡ r
      → Exact (λ b v. v.trace ≡ queried q (ok b) ∷ w.trace) Fails (query_any env q w)
  unfolding query_any ◌>>=◌
  query_cases q w (ok b) p = rw p refl
  query_cases q w (err e) p = rw p refl

  pub query_any-Exact :
      (q : String) (w : World)
      → Exact (λ b v. v.trace ≡ queried q (ok b) ∷ w.trace) Fails (query_any env q w)
  query_any-Exact q w = query_cases q w _ refl

-- How a block with a connection ends, when `Q` is what its body does to the trace and `F` what is known
-- of its errors: the database is not opened; or it is closed after the body, which has done what it
-- should or has failed.
pub data Connection (dsn : String) (t : Trace) (Q : Trace → Type 0) (F : Error → Trace → Type 0)
    : Outcome Unit → Type 0 where
  completed :
      {v : World} (u : Trace) → Q u → v.trace ≡ closed_db ∷ u → Connection dsn t Q F (returned tt v)
  not_opened :
      {v : World} (e : Error)
      → v.trace ≡ opened_db dsn (some e) ∷ t
      → Connection dsn t Q F (failed e v)
  refused :
      {v : World} (e : Error) (u : Trace)
      → F e u
      → v.trace ≡ closed_db ∷ u
      → Connection dsn t Q F (failed e v)

module _ (env : Env) (config : DbHelperConfig) (Q : Trace → Type 0)
    (F : Error → Trace → Type 0) where
  closing :
      (t : Trace) (o : Outcome Unit)
      → Exact (λ _ v. Q v.trace) (λ e v. F e v.trace) o
      → Connection (format_dsn env config) t Q F (finished closed_db o)
  closing t (returned a v) h = completed v.trace h refl
  closing t (failed e v) h = refused e v.trace h refl
  closing t (panicked e v) h = absurd h
  closing t (blocked v) h = absurd h

  opening_cases :
      (m : Go Unit) (w : World) (r : Option Error)
      → env.sql_open w.trace (format_dsn env config) ≡ r
      → Exact
          (λ _ v. Q v.trace)
          (λ e v. F e v.trace)
          (m (logged (opened_db (format_dsn env config) none) w))
      → Connection (format_dsn env config) w.trace Q F (with_connection env config m w)
  unfolding with_connection open_db_connection ◌>>=◌
  opening_cases m w none p h = rw p (closing w.trace _ h)
  opening_cases m w (some e) p h = rw p (not_opened e refl)

  pub with_connection-Connection :
      (m : Go Unit) (w : World)
      → Exact
          (λ _ v. Q v.trace)
          (λ e v. F e v.trace)
          (m (logged (opened_db (format_dsn env config) none) w))
      → Connection (format_dsn env config) w.trace Q F (with_connection env config m w)
  with_connection-Connection m w h = opening_cases m w _ refl h

-- ===== src/DbHelper/PostStart.antt =====
-- `RunPostStartSQL` of db_helper/db_helper.go: which files are executed, and in which order.
use mariadb_ctrl.Prelude.{String, ◌≡◌, refl, subst, none, List, [], ◌∷◌}
use mariadb_ctrl.Go.Error.{Result, ok, err}
use mariadb_ctrl.Go.World.{World, Trace, executed, read, opened_db}
use mariadb_ctrl.Go.Action.{returned, logged, pure, ◌>>=◌, attempt}
use mariadb_ctrl.Go.Exact.{Exact, Exact-bind, Exact-map}
use mariadb_ctrl.Env.{Env}
use mariadb_ctrl.Config.{DbHelperConfig}
use mariadb_ctrl.OsHelper.{read_file}
use mariadb_ctrl.DbHelper.Sql.{format_dsn}
use mariadb_ctrl.DbHelper.Executing.{
  FailedLast, Fails, exec-Exact, Connection, with_connection-Connection,
}
use mariadb_ctrl.DbHelper.Seeding.{run_contents, run_files, run_post_start_sql}

-- What is recorded for a file, the newest first: it is executed, or passed over when it cannot be read.
abbrev pub file_events : String → Result String → Trace → Trace
file_events f (ok sql) t = executed sql none ∷ read f (ok sql) ∷ t
file_events f (err e) t = read f (err e) ∷ t

-- The files are read one after the other.
pub data FilesInTurn : List String → Trace → Trace → Type 0 where
  none_left : {t : Trace} → FilesInTurn [] t t
  next :
      {f : String} {files : List String} {t u : Trace} (r : Result String)
      → FilesInTurn files (file_events f r t) u
      → FilesInTurn (f ∷ files) t u

module _ (env : Env) where
  contents-Exact :
      (f : String) (r : Result String) (w : World)
      → Exact
          (λ _ v. v.trace ≡ file_events f r w.trace)
          Fails
          (run_contents env r (logged (read f r) w))
  unfolding pure
  contents-Exact f (ok sql) w = exec-Exact env sql (logged (read f (ok sql)) w)
  contents-Exact f (err e) w = refl

  attempted :
      (f : String) (r : Result String) (w : World)
      → env.read_file w.trace f ≡ r
      → attempt (read_file env f) w ≡ returned r (logged (read f r) w)
  unfolding read_file ◌>>=◌
  attempted f (ok sql) w p = rw p refl
  attempted f (err e) w p = rw p refl

  abbrev Done : List String → World → World → Type 0
  Done files w v = FilesInTurn files w.trace v.trace

  IsRead : String → World → Result String → World → Type 0
  IsRead f w r v = v ≡ logged (read f r) w

  IsRead-Exact : (f : String) (w : World) → Exact (IsRead f w) Fails (attempt (read_file env f) w)
  unfolding IsRead
  IsRead-Exact f w = rw (attempted f _ w refl) refl

  run_files-Exact :
      (files : List String) (w : World)
      → Exact (λ _ v. Done files w v) Fails (run_files env files w)
  unfolding run_files pure IsRead
  run_files-Exact [] w = none_left
  run_files-Exact (f ∷ files) w =
      Exact-bind (IsRead f w) (λ _ v. Done (f ∷ files) w v) Fails _ _ w (IsRead-Exact f w)
        λ r w1 p.
          Exact-bind (λ _ v. v.trace ≡ file_events f r w.trace) (λ _ v. Done (f ∷ files) w v) Fails
            _ _ w1 (rw p (contents-Exact f r w))
            λ _ w2 q.
              Exact-map (λ _ v. Done files w2 v) (λ _ v. Done (f ∷ files) w v) Fails _
                (λ _ v h. next r (subst (λ t. FilesInTurn files t v.trace) q h))
                (run_files-Exact files w2)

  -- `RunPostStartSQL` opens the database, reads the files in turn, passes over a file that cannot be read
  -- and executes the text of any other, and closes the database; it returns the error of the opening, or
  -- of the first text that fails, after which it reads no file.
  pub run_post_start_sql-Connection :
      (config : DbHelperConfig) (w : World)
      → Connection
          (format_dsn env config)
          w.trace
          (FilesInTurn config.post_start_sql_files
            (opened_db (format_dsn env config) none ∷ w.trace))
          FailedLast
          (run_post_start_sql env config w)
  unfolding run_post_start_sql
  run_post_start_sql-Connection config w = with_connection-Connection env config _ FailedLast _ w (
      run_files-Exact config.post_start_sql_files
        (logged (opened_db (format_dsn env config) none) w))

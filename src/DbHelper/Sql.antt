-- ===== src/DbHelper/Sql.antt =====
-- The database connection of db_helper/db_helper.go: the DSN, opening, the deferred closing, and
-- the calls of database/sql. The handle `*sql.DB` carries nothing that the program looks at.
use mariadb_ctrl.Prelude.{String, Bool, [], ◌∷◌, if◌then◌else◌}
use mariadb_ctrl.Go.Error.{Result}
use mariadb_ctrl.Go.World.{opened_db, closed_db, queried_row, queried, executed}
use mariadb_ctrl.Go.Action.{Go, ◌>>=◌, ◌>>◌, check, lift, call, deferring}
use mariadb_ctrl.Env.{Env, DriverConfig}
use mariadb_ctrl.Config.{DbHelperConfig}

-- the `mysql.Config` that `FormatDSN` builds
unfoldable pub driver_config : DbHelperConfig → DriverConfig
driver_config config = record {
  user = config.user;
  passwd = config.password;
  net = "unix";
  addr = config.socket;
  params = if config.skip_binlog then ("sql_log_bin", "off") ∷ [] else [];
}

module _ (env : Env) where
  unfoldable pub format_dsn : DbHelperConfig → String
  unfolding driver_config
  format_dsn config = env.format_dsn (driver_config config)

  unfoldable pub open_db_connection : DbHelperConfig → Go Unit
  open_db_connection config =
      let dsn = format_dsn config in do e ← call (λ t. env.sql_open t dsn) (opened_db dsn); check e

  -- the connection is opened, and `defer CloseDBConnection(db)` closes it after the rest
  unfoldable pub with_connection : {A : Type 0} → DbHelperConfig → Go A → Go A
  unfolding open_db_connection
  with_connection config body = do open_db_connection config; deferring closed_db body

  -- `db.Exec`, of which only the error is looked at
  unfoldable pub exec : String → Go Unit
  exec query = do e ← call (λ t. env.exec t query) (executed query); check e

  -- `db.QueryRow(query).Scan(&unused, &value)`
  unfoldable pub query_row : String → Go (Result (String × String))
  query_row query = call (λ t. env.query_row t query) (queried_row query)

  -- `db.Query(query)` and `rows.Next()`
  unfoldable pub query_any : String → Go Bool
  query_any query = do r ← call (λ t. env.query t query) (queried query); lift r

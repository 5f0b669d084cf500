-- ===== src/Env.antt =====
-- What the program calls and does not implement: the operating system, the MySQL driver and server,
-- the network and the scheduler. Each answer may depend on all that was done before.
pub mod Files
use mariadb_ctrl.Prelude.{ℕ, String, Bool, Option, List}
use mariadb_ctrl.Go.Error.{Error, Result}
use mariadb_ctrl.Go.World.{Cmd, Trace}

-- What ends a `select` on the exit channel of a command and on `ctx.Done()`.
pub data Wake : Type 0 where
  exit : Option Error → Wake
  done : Wake

-- `mysql.Config` of the driver, as far as the program fills it in.
pub record DriverConfig : Type 0 where
  pub user : String
  pub passwd : String
  pub net : String
  pub addr : String
  pub params : List (String × String)

pub record Env : Type 0 where
  -- `exec.Cmd.CombinedOutput`
  pub combined_output : Trace → String → List String → String × Option Error
  -- `os.OpenFile` for appending
  pub open_log : Trace → String → Option Error
  -- `exec.Cmd.Start`: the process, or the error
  pub start : Trace → String → List String → Result ℕ
  -- whether `os.Stat` returns no error
  pub stat : Trace → String → Bool
  pub read_file : Trace → String → Result String
  -- `ioutil.WriteFile`, with the mode
  pub write_file : Trace → String → String → ℕ → Option Error
  -- `os.Process.Signal`
  pub signal : Trace → ℕ → ℕ → Option Error
  -- the result of `cmd.Wait` if it is there already
  pub poll_exit : Trace → Cmd → Option (Option Error)
  -- the result of `cmd.Wait` in the end, unless the process runs for ever
  pub wait_exit : Trace → Cmd → Option (Option Error)
  -- what comes first, the exit of the command or the end of the context, if either comes
  pub select_exit : Trace → Cmd → Option Wake
  -- `Config.FormatDSN` of the MySQL driver
  pub format_dsn : DriverConfig → String
  -- `sql.Open`
  pub sql_open : Trace → String → Option Error
  -- `QueryRow` with the `Scan` of two columns
  pub query_row : Trace → String → Result (String × String)
  -- `Query` with one `Next`: whether there is a row
  pub query : Trace → String → Result Bool
  pub exec : Trace → String → Option Error
  -- `net.Listen` on a TCP address
  pub listen : Trace → String → Option Error
  -- `http.Client.Get` with a timeout: the status of the response, if there is one
  pub http_get : Trace → String → ℕ → Option ℕ

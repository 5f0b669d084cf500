-- ===== src/DbHelper/Calls.antt =====
-- The events that `GaleraDBHelper` records, and the calls of which its operations are made: what
-- has the rules of `Logic` for those events holds of each call.
use mariadb_ctrl.Prelude.{ℕ, String, List, Option, none, some}
use mariadb_ctrl.Go.Error.{Error, Result, ok, err}
use mariadb_ctrl.Go.World.{
  Event, ran, opened_log, started, read, opened_db, closed_db, queried_row, queried, executed,
}
use mariadb_ctrl.Go.Action.{Go, call, deferring}
use mariadb_ctrl.Go.Logic.{Logic, Has, logic_rules}
use mariadb_ctrl.Env.{Env}
use mariadb_ctrl.Config.{DbHelperConfig}
use mariadb_ctrl.OsHelper.{run_command, start_command, start_result, start_logged, read_file}
use mariadb_ctrl.DbHelper.Sql.{with_connection, exec, query_row, query_any}

-- a call other than a start of mysqld and the opening and closing of a connection
abbrev pub IsInnerCall : Event → Type 0
IsInnerCall (ran exe args out e) = Unit
IsInnerCall (opened_log f e) = Unit
IsInnerCall (read f r) = Unit
IsInnerCall (queried_row q r) = Unit
IsInnerCall (queried q r) = Unit
IsInnerCall (executed q e) = Unit
IsInnerCall _ = ⊥

abbrev pub IsDbCall : Event → Type 0
IsDbCall (opened_db dsn e) = Unit
IsDbCall closed_db = Unit
IsDbCall (started exe args r) = Unit
IsDbCall e = IsInnerCall e

pub IsDbCall-of_IsInnerCall : (e : Event) → IsInnerCall e → IsDbCall e
IsDbCall-of_IsInnerCall (opened_db dsn x) h = tt
IsDbCall-of_IsInnerCall closed_db h = tt
IsDbCall-of_IsInnerCall (started exe args r) h = tt
IsDbCall-of_IsInnerCall _ h = h

-- The start of a command with these arguments has the property.
abbrev pub StartsWith : ((A : Type 0) → Go A → Type 0) → Env → String → List String → Type 0
StartsWith K env exe args = Has K (call (λ t. env.start t exe args) (started exe args))

module _ {K : (A : Type 0) → Go A → Type 0} (L : Logic K IsInnerCall) (env : Env) where
  pub exec_call : (q : String) → Has K (exec env q)
  unfolding exec
  exec_call q = search (logic_rules, tt)

  pub query_row_call : (q : String) → Has K (query_row env q)
  unfolding query_row
  query_row_call q = search (logic_rules, tt)

  pub query_any_call : (q : String) → Has K (query_any env q)
  unfolding query_any
  query_any_call q = search (logic_rules, tt)

  pub run_command_call : (exe : String) (args : List String) → Has K (run_command env exe args)
  unfolding run_command
  run_command_call exe args = search (logic_rules, tt)

  pub read_file_call : (f : String) → Has K (read_file env f)
  unfolding read_file
  read_file_call f = search (logic_rules, tt)

  start_result_call :
      (exe : String) (args : List String) (r : Result ℕ) → Has K (start_result env exe args r)
  start_result_call exe args (ok pid) = search logic_rules
  start_result_call exe args (err e) = search logic_rules

  start_logged_call :
      (log exe : String) (args : List String)
      → StartsWith K env exe args
      → (e : Option Error) → Has K (start_logged env log exe args e)
  start_logged_call log exe args starts none = search (logic_rules, start_result_call)
  start_logged_call log exe args starts (some e) = search logic_rules

  pub start_command_call :
      (log exe : String) (args : List String)
      → StartsWith K env exe args
      → Has K (start_command env log exe args)
  unfolding start_command
  start_command_call log exe args starts = search (logic_rules, start_logged_call, tt)

module _ {K : (A : Type 0) → Go A → Type 0} (L : Logic K IsDbCall) (env : Env) where
  pub with_connection_call :
      {A : Type 0} (config : DbHelperConfig) (m : Go A)
      → Has K (deferring closed_db m)
      → Has K (with_connection env config m)
  unfolding with_connection
  with_connection_call config m p = search (logic_rules, tt)

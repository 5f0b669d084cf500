-- ===== src/DbHelper/Confined.antt =====
-- `GaleraDBHelper` of db_helper/db_helper.go: the events that its operations record, and whether they
-- end.
use mariadb_ctrl.Prelude.{String, List}
use mariadb_ctrl.Go.World.{closed_db}
use mariadb_ctrl.Go.Action.{Go}
use mariadb_ctrl.Go.Logic.{Has, Logic-restrict, on_call}
use mariadb_ctrl.Go.Rules.{Moves-deferring}
use mariadb_ctrl.Go.Relations.{Adds-IsPreorder}
use mariadb_ctrl.Go.Adds.{AddsOnly, AddsOnly-Logic, Adds-logged}
use mariadb_ctrl.Go.Ends.{Ends, Ends-Logic, Ends-deferring}
use mariadb_ctrl.Go.Quiet.{Quiet, Quiet-of_Adds}
use mariadb_ctrl.Env.{Env}
use mariadb_ctrl.Config.{DbHelperConfig}
use mariadb_ctrl.DbHelper.{DbHelper}
use mariadb_ctrl.DbHelper.Sql.{with_connection}
use mariadb_ctrl.DbHelper.Calls.{
  StartsWith, IsDbCall, with_connection_call, IsDbCall-of_IsInnerCall,
}
use mariadb_ctrl.DbHelper.Operations.{Every, Every-map2, new_db_helper-Every}
use mariadb_ctrl.DbHelper.Galera.{new_db_helper}

-- The calls of the helper run commands, read files and talk to the database; they write no file,
-- send no signal, do not sleep or serve, and leave the exit channels and the starter's command.
abbrev pub IsConfined : DbHelper → Type 0
IsConfined db = Every (AddsOnly IsDbCall) db

-- The calls of the helper end.
abbrev pub IsPrompt : DbHelper → Type 0
IsPrompt db = Every Ends db

-- The calls of the helper end, and leave the channels and the starter's command alone.
abbrev pub IsQuiet : DbHelper → Type 0
IsQuiet db = Every Quiet db

pub IsQuiet-of_IsConfined : {db : DbHelper} → IsConfined db → IsPrompt db → IsQuiet db
IsQuiet-of_IsConfined = Every-map2 (λ A m p q. Quiet-of_Adds p q)

module _ (env : Env) where
  connection_is_confined :
      (A : Type 0) (config : DbHelperConfig) (m : Go A)
      → Has (AddsOnly IsDbCall) m
      → Has (AddsOnly IsDbCall) (with_connection env config m)
  connection_is_confined A config m p = with_connection_call AddsOnly-Logic env config m (record {
    holds =
        Moves-deferring (Adds-IsPreorder IsDbCall) closed_db m (Adds-logged closed_db tt) p.holds;
  })

  pub connection-Ends :
      (A : Type 0) (config : DbHelperConfig) (m : Go A)
      → Has Ends m
      → Has Ends (with_connection env config m)
  connection-Ends A config m p =
      with_connection_call (Logic-restrict Ends-Logic (λ e h. tt)) env config m
        (record { holds = Ends-deferring closed_db m p.holds })

  -- However they end, the operations of `GaleraDBHelper` only run commands, start mysqld, append to its
  -- log, read files and talk to the database: they write no file, send no signal, and leave the exit
  -- channels and the starter's command alone.
  pub new_db_helper-IsConfined :
      (config : DbHelperConfig) (log : String) → IsConfined (new_db_helper env config log)
  new_db_helper-IsConfined =
      new_db_helper-Every (Logic-restrict AddsOnly-Logic IsDbCall-of_IsInnerCall) env
        connection_is_confined (starts _) (starts _) (starts _)
    where
      starts : (args : List String) → StartsWith (AddsOnly IsDbCall) env "mysqld" args
      starts args = on_call AddsOnly-Logic _ _ (λ _. tt)

  pub new_db_helper-IsPrompt :
      (config : DbHelperConfig) (log : String) → IsPrompt (new_db_helper env config log)
  new_db_helper-IsPrompt =
      new_db_helper-Every (Logic-restrict Ends-Logic (λ e h. tt)) env connection-Ends (starts _)
        (starts _) (starts _)
    where
      starts : (args : List String) → StartsWith Ends env "mysqld" args
      starts args = on_call Ends-Logic _ _ (λ _. tt)

  -- The operations of `GaleraDBHelper` end, and leave the channels and the starter's command alone.
  pub new_db_helper-IsQuiet :
      (config : DbHelperConfig) (log : String) → IsQuiet (new_db_helper env config log)
  new_db_helper-IsQuiet config log =
      IsQuiet-of_IsConfined (new_db_helper-IsConfined config log)
        (new_db_helper-IsPrompt config log)

-- ===== src/Upgrader/Ending.antt =====
-- `Upgrade` of upgrader/upgrader.go: its end.
use mariadb_ctrl.Prelude.{ℕ, zero, suc, String, Option}
use mariadb_ctrl.Go.Error.{Error, wrap}
use mariadb_ctrl.Go.World.{World}
use mariadb_ctrl.Go.Action.{◌>>◌, check}
use mariadb_ctrl.Go.Logic.{Has, on_bind, on_if, on_pure, on_fail, on_check}
use mariadb_ctrl.Go.Total.{Total, Total-bind, IsSound}
use mariadb_ctrl.Go.Quiet.{
  Quiet, Quiet-Logic, sleep-Quiet, wait_for_command-Total, ProcessesEnd, receive-Total, open_then,
  sound_then, Quiet-IsSound,
}
use mariadb_ctrl.Env.{Env}
use mariadb_ctrl.DbHelper.{DbHelper}
use mariadb_ctrl.DbHelper.Confined.{IsQuiet}
use mariadb_ctrl.Upgrader.{
  upgrade, upgrade_error, wait_for_tries, wait_until_mysql_reachable, db_reachable_polling_attempts,
}

module _ (env : Env) (db : DbHelper) (quiet : IsQuiet db) where
  wait_for_tries-Quiet : (tries : ℕ) → Has Quiet (wait_for_tries env db tries)
  unfolding wait_for_tries
  wait_for_tries-Quiet zero = on_fail Quiet-Logic _
  wait_for_tries-Quiet (suc tries) = on_bind Quiet-Logic _ _ quiet.is_database_reachable (λ b.
      on_if b _ _ (on_pure Quiet-Logic tt)
        (on_bind Quiet-Logic _ _ (sleep-Quiet _) (λ _. wait_for_tries-Quiet tries)))

  wait-Quiet : Has Quiet (wait_until_mysql_reachable env db)
  unfolding wait_until_mysql_reachable
  wait-Quiet = wait_for_tries-Quiet db_reachable_polling_attempts

  checks-Quiet :
      (e : Option Error) (r : String × Option Error)
      → Has Quiet (do check (wrap e "mysqld failed during upgrade"); check (upgrade_error r))
  checks-Quiet e r = on_bind Quiet-Logic _ _ (on_check Quiet-Logic _) (λ _. on_check Quiet-Logic _)

  module _ (exits : ProcessesEnd env) where
    -- With a helper whose calls end and leave the channels alone, and only existing channels received
    -- from, `Upgrade` comes to an end if every process does: it receives from the exit channel of its
    -- mysqld once only. When it returns, still only existing channels have been received from.
    pub upgrade-Total : (w : World) → IsSound w → Total (λ _ v. IsSound v) (upgrade env db w)
    unfolding upgrade
    upgrade-Total w s = sound_then _ _ _ quiet.start_mysqld_for_upgrade w s λ cmd w1 s1.
        Total-bind _ _ _ _ w1 (wait_for_command-Total cmd w1 s1) λ ch w2 h2.
          open_then ch _ _ _ wait-Quiet w2 h2.0 λ _ w3 h3.
            open_then ch _ _ _ quiet.upgrade w3 h3 λ r w4 h4.
              open_then ch _ _ _ quiet.stop_mysqld w4 h4 λ _ w5 h5.
                Total-bind _ _ _ _ w5 (receive-Total env exits ch w5 h5)
                  λ e w6 s6. Quiet-IsSound _ (checks-Quiet e r) w6 s6

-- ===== src/Tests/Witnesses.antt =====
-- The theorems on starting, supervising and ending at concrete inputs.
use mariadb_ctrl.Prelude.{◌≡◌, ◌↔◌, true, none, some, [], arith}
use mariadb_ctrl.Go.World.{polled}
use mariadb_ctrl.Go.Action.{returned, final, logged}
use mariadb_ctrl.Go.Total.{Total}
use mariadb_ctrl.Env.Files.{contents, result}
use mariadb_ctrl.ClusterHealth.Probing.{any_healthy-Quiet}
use mariadb_ctrl.Starter.{start_node_from_state, wait_for_database}
use mariadb_ctrl.Starter.Waiting as StarterWaiting
use mariadb_ctrl.Starter.Waiting.{wait_for_database_iff}
use mariadb_ctrl.Starter.Running.{IsReady, start_node_from_state-Total}
use mariadb_ctrl.StartManager.{get_current_node_state}
use mariadb_ctrl.StartManager.NodeState.{node_state, get_current_node_state-eq-node_state}
use mariadb_ctrl.Main.{execute_configured, main}
use mariadb_ctrl.Main.Ending.{
  new_db_helper-Launches, HasExecuted, Finished, execute_configured-Total, main-Total,
}
use mariadb_ctrl.Main.Probed.{Probed}
use mariadb_ctrl.Main.Exclusive.{Ordered}
use mariadb_ctrl.Main.Exclusive.Running.{execute_configured-Ordered}
use mariadb_ctrl.Main.Signalling.{Attends}
use mariadb_ctrl.Main.Signalling.Ending.{execute_configured-Attends}
use mariadb_ctrl.Main.Renewing.{execute_configured-Probed}
use mariadb_ctrl.Tests.{calm, warm, sample, fresh, files, still, mysqld_chan, running}
use mariadb_ctrl.Tests.Settings.{warm-ProcessesEnd, warm-Wakes, warm-Settles, still-Shows}
use mariadb_ctrl.DbHelper.Galera.{new_db_helper}
use mariadb_ctrl.DbHelper.Confined.{new_db_helper-IsQuiet}
use mariadb_ctrl.DbHelper.Reachable.{is_database_reachable-Answers}
use mariadb_ctrl.Go.Total.{Answers}
use mariadb_ctrl.Tests.Parts.{db, checker, db-Answers, answered}

execute_configured-Probed_example :
    Probed 13 sample.manager.cluster_ips fresh (final (execute_configured calm sample 9 fresh))
execute_configured-Probed_example = execute_configured-Probed calm sample 9 (omega arith) fresh

execute_configured-Total_example :
    Total (λ _ v. HasExecuted warm sample 9 fresh v) (execute_configured warm sample 9 fresh)
execute_configured-Total_example =
    execute_configured-Total warm sample 9 warm-ProcessesEnd warm-Wakes warm-Settles fresh tt

main-Total_example : Total (Finished warm sample 9 fresh) (main warm sample 9 (λ _. []) none fresh)
main-Total_example =
    main-Total warm sample 9 warm-ProcessesEnd warm-Wakes warm-Settles (λ _. []) none fresh tt

get_current_node_state-eq-node_state_example :
    result (get_current_node_state still sample.manager fresh)
    ≡ some (node_state 3 true (contents " SINGLE_NODE\n"))
get_current_node_state-eq-node_state_example =
    get_current_node_state-eq-node_state still sample.manager files fresh still-Shows

warm_db-Answers : Answers (new_db_helper warm sample.db "log").is_database_reachable
unfolding new_db_helper
warm_db-Answers = is_database_reachable-Answers warm sample.db

start_node_from_state-Total_example : Total (IsReady "NEEDS_BOOTSTRAP") (
    start_node_from_state warm sample.manager
      (new_db_helper warm sample.db "log")
      checker
      9
      "NEEDS_BOOTSTRAP"
      fresh)
start_node_from_state-Total_example =
    start_node_from_state-Total warm sample.manager (new_db_helper warm sample.db "log") checker
      (new_db_helper-IsQuiet warm sample.db "log") (new_db_helper-Launches warm sample.db "log")
      (any_healthy-Quiet 13 calm sample.manager.cluster_ips) 9 warm_db-Answers warm-Settles
      "NEEDS_BOOTSTRAP" fresh tt

wait_for_database_iff_example :
    (wait_for_database calm sample.manager db checker 9 mysqld_chan running
      ≡ returned tt (answered (logged (polled 0) running)))
    ↔ StarterWaiting.Waited calm db mysqld_chan 9 running
        (returned tt (answered (logged (polled 0) running)))
wait_for_database_iff_example =
    wait_for_database_iff calm sample.manager db checker mysqld_chan db-Answers 9 running
      (returned tt (answered (logged (polled 0) running)))

execute_configured-Ordered_example : Ordered fresh (final (execute_configured calm sample 9 fresh))
execute_configured-Ordered_example = execute_configured-Ordered calm sample 9 fresh

execute_configured-Attends_example :
    Attends sample.manager.state_file_location fresh
      (final (execute_configured calm sample 9 fresh))
execute_configured-Attends_example = execute_configured-Attends calm sample 9 fresh

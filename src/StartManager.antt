-- ===== src/StartManager.antt =====
-- start_manager/start_manager.go
pub mod NodeState
pub mod Supervision
pub mod Ending
pub mod Concurrent
use mariadb_ctrl.Prelude.{String, ◌==◌, Bool, not, ◌&&◌, nat_eq, ltb, length, if◌then◌else◌}
use mariadb_ctrl.Go.World.{Chan}
use mariadb_ctrl.Go.Action.{Go, pure, ◌>>=◌, ◌>>◌, check}
use mariadb_ctrl.Go.Channel.{receive, receive_or_done}
use mariadb_ctrl.Env.{Env, Wake, exit, done}
use mariadb_ctrl.Config.{StartManagerConfig}
use mariadb_ctrl.Text.{trim_space}
use mariadb_ctrl.OsHelper.{sigterm, file_exists, read_file, write_string_to_file, kill_command}
use mariadb_ctrl.DbHelper.{DbHelper}
use mariadb_ctrl.Upgrader.{Upgrader}
use mariadb_ctrl.StatusServer.{ServiceStatus}
use mariadb_ctrl.Starter.{Starter, clustered, needs_bootstrap, single_node}

-- the interface `StartManager`
pub record StartManager : Type 0 where
  pub execute : Go Unit
  pub shutdown : Go Unit

module _ (env : Env) (config : StartManagerConfig) where
  unfoldable pub first_time_deploy : Go Bool
  unfolding file_exists
  first_time_deploy = do exists ← file_exists env config.state_file_location; pure (not exists)

  unfoldable pub read_state_from_file : Go String
  unfolding read_file trim_space
  read_state_from_file = do
    state ← read_file env config.state_file_location
    pure (trim_space state)

  unfoldable pub get_current_node_state : Go String
  unfolding first_time_deploy read_state_from_file
  get_current_node_state = if nat_eq (length config.cluster_ips) 1 then pure single_node else do
    first ← first_time_deploy
    if first then pure (if config.bootstrap_node then needs_bootstrap else clustered) else do
      state ← read_state_from_file
      if state == single_node && ltb 1 (length config.cluster_ips)
          then pure needs_bootstrap
          else pure state

  unfoldable pub write_string : String → Go Unit
  unfolding write_string_to_file
  write_string contents = write_string_to_file env config.state_file_location contents

module _ (env : Env) (config : StartManagerConfig) (db : DbHelper) (upgrader : Upgrader)
    (starter : Starter) (status_server : ServiceStatus) where
  unfoldable pub shutdown : Go Unit
  shutdown = db.stop_mysqld

  -- after the `select`
  abbrev pub terminate : Chan → Wake → Go Unit
  terminate ch (exit e) = check e
  terminate ch done = do
    cmd ← starter.get_mysql_cmd
    kill_command env cmd sigterm
    e ← receive env ch
    check e

  -- from the status server on
  unfoldable pub supervise : Chan → Go Unit
  supervise ch = do status_server.start; wake ← receive_or_done env ch; terminate ch wake

  -- up to the start of the node
  unfoldable pub prepare : Go String
  prepare = do
    running ← db.is_process_running
    if running then shutdown else pure tt
    needs_upgrade ← upgrader.needs_upgrade
    if needs_upgrade then upgrader.upgrade else pure tt
    get_current_node_state env config

  unfoldable pub execute : Go Unit
  execute = do
    current_state ← prepare
    (new_node_state, mysqld_chan) ← starter.start_node_from_state current_state
    write_string env config new_node_state
    supervise mysqld_chan

  -- `New`
  abbrev pub new_start_manager : StartManager
  new_start_manager = record { execute = execute; shutdown = shutdown }

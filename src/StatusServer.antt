-- ===== src/StatusServer.antt =====
-- galera_init_status_server/galera_init_status_server.go: the server runs in a goroutine, and
-- answers every request alike.
use mariadb_ctrl.Prelude.{String}
use mariadb_ctrl.Go.World.{served}
use mariadb_ctrl.Go.Action.{Go, returned, logged}

-- the interface `ServiceStatus` of start_manager/start_manager.go
pub record ServiceStatus : Type 0 where
  pub start : Go Unit

-- `Start`, which begins to serve and returns nil
unfoldable pub start : Go Unit
start w = returned tt (logged served w)

-- `Status`, for a request of a method and a path
unfoldable pub status : String → String → String
status method path = "galera init done"

-- `NewGaleraInitStatusServer`
abbrev pub new_galera_init_status_server : ServiceStatus
new_galera_init_status_server = record { start = start }

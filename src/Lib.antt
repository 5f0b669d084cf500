-- ===== src/Lib.antt =====
-- galera-init, the program that starts mysqld on a node of a Galera cluster and stays with it.
--
-- The parts and how they interact. cmd/start/main.go reads and validates the configuration, puts the
-- parts together and turns the end of `Execute` into the exit status. `Execute` of
-- start_manager/start_manager.go stops a mysqld that still runs, lets the upgrader of
-- upgrader/upgrader.go upgrade the data directory when the version files differ, decides on a node
-- state from the state file, hands it to the starter of start_manager/node_starter/starter.go, records
-- the new state, starts the status server of
-- galera_init_status_server/galera_init_status_server.go, and waits for mysqld or for the end of the
-- context, in which case it sends SIGTERM. The starter bootstraps or joins, asks
-- cluster_health_checker/cluster_health_checker.go which of the two when a new cluster may be needed,
-- waits until the database is reachable, and seeds it. All of them use db_helper/ (mysqld and SQL) and
-- os_helper/os_helper.go (processes, files, time).
--
-- How code is modelled. A Go function with effects is an action (Go/Action): a function from a world to
-- an outcome, which is a value, an error, a panic, or a wait that never ends. The world (Go/World)
-- holds the trace of all calls with their answers, the command that the starter keeps, and the
-- channels of `WaitForCommand`, each of which gives one value (Go/Channel). What is not the program's
-- own code is the environment (Env): the operating system, the MySQL driver and server, HTTP and the
-- scheduler are functions of the trace, so that an answer may depend on all that was done before. A
-- `select` on the exit of mysqld and on the context is decided by the environment. Log lines are
-- dropped, except `Fatal`, which panics. Interfaces of the source are records (DbHelper, Seeder,
-- UserSeeder, Upgrader, Starter, ClusterHealthChecker, ServiceStatus, StartManager), and the
-- constructors of the source fill them (`NewStarter` is `new_starter`).
--
-- The goroutines. The functions above follow `Execute`, and the environment decides what the other
-- goroutines do meanwhile. StartManager/Concurrent models the goroutines themselves from the `select` of
-- `Execute` on: `Execute`, the goroutine of `WaitForCommand` (os_helper/os_helper.go), the handler of
-- `setupSignals` (cmd/start/main.go) and the goroutine of the status server, as the steps of a system
-- in every order, together with the exit of mysqld and SIGTERM. Replayed relates the two models.
-- Main/Restarting models the program over its restarts, each run of which may be stopped after any call;
-- in Main/Crashing a write may also fail halfway, or a run be stopped inside one, with Main/Tearing on
-- what the state file may then hold.
--
-- The files. Prelude and Go/ are shared: Rules, Logic and Relations say how a property of actions is
-- proved from its calls, Adds, Ends, Quiet, Plain, Total, Safe and Exact are the properties used.
-- Env/Files describes files that stay as they are. Text holds the functions of strings, fmt and regexp
-- that are called, over texts as sequences of characters. Config, OsHelper, ClusterHealth, DbHelper,
-- Upgrader, StatusServer, Starter, StartManager and Main follow the packages of the source, with the
-- definitions at the top or in children named after files and types (DbHelper/Sql, Seeder, UserSeeder,
-- Mysqld, Seeding, Galera) and the proofs in children named after what they prove; DbHelper/Texts holds the
-- SQL that these descriptions expect, apart from the code's own. Fakes holds the fakes
-- that counterfeiter generates for the interfaces (the packages */*fakes): Table the maps, Method the
-- functions of one method, which are the same for each up to its types, one file for each fake, and
-- History, Refined, Copies and OsHelper/Recording what a test may rely on. Docker models the helpers of
-- integration_test/test_helpers/docker.go over a parameter for go-dockerclient. A method keeps its
-- name in snake case (`StartNodeFromState` is `start_node_from_state`). Tests holds sample environments,
-- runs and the theorems at concrete inputs.
--
-- Bounds and fuel. The wait for the database in the starter has no bound in the source; it runs on
-- fuel, and without fuel it has not ended, which counts as a wait for ever. Theorems about its end take
-- as a condition that a mysqld that has just been started exits or becomes reachable within the fuel's
-- rounds. The upgrader's thirty
-- tries are structural recursion. The probe timeout is computed in 64 bits.
--
-- Not modelled. The libraries that read flags and YAML (a parameter of `NewConfig`), the validator's
-- reflection (a parameter), the open rows of one query, the bodies of HTTP responses, log lines, a stub
-- of a fake that uses the same fake, and the test suites. vendor/ holds copies of other projects; of
-- vendor/github.com/pkg/errors only what `Wrap` and `Wrapf` return is needed, and it is a value of its own
-- (Go/Error). A list of the operations of os_helper/os_helper.go is left out: its interface has one
-- implementation, which the other parts call directly. Bytes that are no valid text do not occur.
pub mod Prelude
pub mod Go
pub mod Env
pub mod Text
pub mod Config
pub mod OsHelper
pub mod ClusterHealth
pub mod DbHelper
pub mod Upgrader
pub mod StatusServer
pub mod Starter
pub mod StartManager
pub mod Main
pub mod Fakes
pub mod Docker
mod Tests

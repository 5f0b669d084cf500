-- ===== src/Go/World.antt =====
-- What the program keeps and what it has done: the trace of its calls of the operating system, the
-- database and the network with their answers, the `mysqlCmd` field of the starter, and the
-- channels of `WaitForCommand`.
use mariadb_ctrl.Prelude.{ℕ, String, Bool, Option, List}
use mariadb_ctrl.Go.Error.{Error, Result}

-- `*exec.Cmd`; `process` is `cmd.Process`, nil until the command is started.
pub record Cmd : Type 0 where
  pub executable : String
  pub args : List String
  pub process : Option ℕ

-- The channel that `WaitForCommand` makes for a command; `ref` is its identity.
pub record Chan : Type 0 where
  pub ref : ℕ
  pub cmd : Cmd

pub data Event : Type 0 where
  ran : String → List String → String → Option Error → Event
  opened_log : String → Option Error → Event
  started : String → List String → Result ℕ → Event
  checked : String → Bool → Event
  read : String → Result String → Event
  wrote : String → String → ℕ → Option Error → Event
  slept : ℕ → Event
  signalled : ℕ → ℕ → Option Error → Event
  polled : ℕ → Event
  received : ℕ → Option Error → Event
  cancelled : Event
  opened_db : String → Option Error → Event
  closed_db : Event
  queried_row : String → Result (String × String) → Event
  queried : String → Result Bool → Event
  executed : String → Option Error → Event
  probed : String → ℕ → Option ℕ → Event
  listened : String → Option Error → Event
  served : Event

-- The newest event is the first.
abbrev pub Trace : Type 0
Trace = List Event

-- `drained` holds the channels whose one value has been received.
pub record World : Type 0 where
  pub trace : Trace
  pub mysql_cmd : Option Cmd
  pub next_chan : ℕ
  pub drained : List ℕ

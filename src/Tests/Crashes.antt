-- ===== src/Tests/Crashes.antt =====
-- A node whose disk is full when it records CLUSTERED for the first time, and its restart.
use mariadb_ctrl.Prelude.{
  ℕ, zero, suc, String, ◌==◌, Option, none, some, [], ◌∷◌, ◌++◌, if◌then◌else◌, false,
}
use mariadb_ctrl.Go.Error.{Error, Result, ok, err, message}
use mariadb_ctrl.Go.World.{World, Event, Trace, wrote}
use mariadb_ctrl.Go.Action.{final}
use mariadb_ctrl.Env.{Env}
use mariadb_ctrl.Config.{Config}
use mariadb_ctrl.DbHelper.Mysqld as Mysqld
use mariadb_ctrl.Main.{execute_configured}
use mariadb_ctrl.Go.Safe.{Safe}
use mariadb_ctrl.Tests.{calm, sample, fresh, or_else, is_some}

-- what a write leaves: the first three characters, if it fails
abbrev first : ℕ → String → String
first zero s = String.[]
first (suc n) String.[] = String.[]
first (suc n) (String.◌∷◌ c s) = String.◌∷◌ c (first n s)

abbrev left : Option Error → String → String
left none c = c
left (some e) c = first 3 c

abbrev left_of : String → Event → Option String
left_of f (wrote g c m x) = if g == f then some (left x c) else none
left_of f _ = none

abbrev last_left : String → Trace → Option String
last_left f [] = none
last_left f (e ∷ t) = or_else (left_of f e) (last_left f t)

abbrev or_missing : Option String → Result String
or_missing none = err (message "no file")
or_missing (some c) = ok c

abbrev full : Env
full = record calm {
  stat = λ t f. is_some (last_left f t);
  read_file = λ t f. or_missing (last_left f t);
}

-- deployed without the bootstrap flag
abbrev joiner : Config
joiner = record sample { manager = record sample.manager { bootstrap_node = false } }

abbrev deployed : World
deployed = final (execute_configured full joiner 9 fresh)

-- The calls of a run before and after its write of the state file, the newest first.
abbrev until_write : Trace → Trace
until_write [] = []
until_write (wrote g c m x ∷ t) = t
until_write (e ∷ t) = until_write t

abbrev after_write : Trace → Trace
after_write [] = []
after_write (wrote g c m x ∷ t) = []
after_write (e ∷ t) = e ∷ after_write t

-- stopped inside that write
abbrev stopped_early : Trace
stopped_early =
    wrote "state" "CLUSTERED" 0o644 (some (message "no space")) ∷ (until_write deployed.trace ++ [])

-- one more run after that, to its end
abbrev again : World
again = record fresh { trace = stopped_early }

abbrev restarted : World
restarted = final (execute_configured full joiner 9 again)

abbrev drop_as_many : Trace → Trace → Trace
drop_as_many t [] = t
drop_as_many [] (e ∷ u) = []
drop_as_many (d ∷ t) (e ∷ u) = drop_as_many t u

-- the events of the first trace beyond as many as the second has
abbrev beyond : Trace → Trace → Trace
beyond [] rest = []
beyond (e ∷ t) [] = []
beyond (e ∷ t) (d ∷ rest) = e ∷ beyond t rest

abbrev new_calls : Trace
new_calls = beyond restarted.trace (drop_as_many restarted.trace stopped_early)

-- ===== src/Env/Files.antt =====
-- A file system as the environment may show it: what each file holds, as long as files are only
-- looked at.
use mariadb_ctrl.Prelude.{String, ◌≡◌, Bool, true, false, Option, none, some, List, ◌++◌, All}
use mariadb_ctrl.Go.Error.{Error, Result, ok, err}
use mariadb_ctrl.Go.World.{Event, Trace, checked, read}
use mariadb_ctrl.Go.Action.{Outcome, returned, failed, panicked, blocked}
use mariadb_ctrl.Env.{Env}

-- `missing` and `unreadable` hold the error of a read.
pub data File : Type 0 where
  missing : Error → File
  unreadable : Error → File
  contents : String → File

abbrev pub exists : File → Bool
exists (missing e) = false
exists (unreadable e) = true
exists (contents text) = true

abbrev pub read_result : File → Result String
read_result (missing e) = err e
read_result (unreadable e) = err e
read_result (contents text) = ok text

abbrev pub IsRead : Event → Type 0
IsRead (checked f b) = Unit
IsRead (read f r) = Unit
IsRead _ = ⊥

-- From the trace on, and after any further reads, the environment shows the files `fs`.
pub record Shows (env : Env) (fs : String → File) (t : Trace) : Type 0 where
  pub stat : (es : List Event) → All IsRead es → (f : String) → env.stat (es ++ t) f ≡ exists (fs f)
  pub read :
      (es : List Event)
      → All IsRead es
      → (f : String) → env.read_file (es ++ t) f ≡ read_result (fs f)

-- What a function of type `(A, error)` has returned, if it has.
abbrev pub result : {A : Type 0} → Outcome A → Option (Result A)
result (returned a w) = some (ok a)
result (failed e w) = some (err e)
result (panicked e w) = none
result (blocked w) = none

-- ===== src/Go/Error.antt =====
-- Error values: those of os/exec and of database/sql that the program tells apart, plain messages,
-- and what the errors package makes of an error that it wraps, of which the program looks at nothing.
use mariadb_ctrl.Prelude.{ℕ, String, Option, none, some, List, []}

-- `syscall.WaitStatus` of a process that has ended.
pub data WaitStatus : Type 0 where
  exited : ℕ → WaitStatus
  signaled : ℕ → WaitStatus

-- `exit_error` is an `*exec.ExitError`, `no_rows` is `sql.ErrNoRows`, and `wrapped` is what
-- `errors.Wrap` and `errors.Wrapf` return: another type of error, with the cause inside and the
-- message as its format and the arguments of the format.
pub data Error : Type 0 where
  exit_error : WaitStatus → Error
  no_rows : Error
  message : String → Error
  wrapped : String → List String → Error → Error

-- What a Go function of type `(A, error)` hands to a caller that looks at the error.
pub data Result {ℓ} (A : Type ℓ) : Type ℓ where
  ok : A → Result A
  err : Error → Result A

-- `errors.Wrap`, as it is documented: nil stays nil.
unfoldable pub wrap : Option Error → String → Option Error
wrap none msg = none
wrap (some e) msg = some (wrapped msg [] e)

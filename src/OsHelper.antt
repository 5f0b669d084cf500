-- ===== src/OsHelper.antt =====
-- os_helper/os_helper.go: `OsHelperImpl`, over the environment.
use mariadb_ctrl.Prelude.{ℕ, ◌+◌, String, Bool, List, [], ◌∷◌, Option, none, some}
use mariadb_ctrl.Go.Error.{Error, Result, ok, err, message, wrapped, wrap}
use mariadb_ctrl.Go.World.{
  Cmd, Chan, ran, opened_log, started, checked, read, wrote, slept, signalled,
}
use mariadb_ctrl.Go.Action.{Go, pure, fail, returned, ◌>>=◌, check, lift, call, logged}
use mariadb_ctrl.Env.{Env}

-- `time.Second`, in nanoseconds
abbrev pub second : ℕ
second = 1000000000

abbrev pub sigterm : ℕ
sigterm = 15

-- `ch := make(chan error, 1)` with the goroutine that sends it the result of `cmd.Wait`
unfoldable pub wait_for_command : Cmd → Go Chan
wait_for_command cmd w =
    returned (record { ref = w.next_chan; cmd = cmd }) (record w { next_chan = w.next_chan + 1 })

unfoldable pub sleep : ℕ → Go Unit
sleep duration w = returned tt (logged (slept duration) w)

module _ (env : Env) where
  unfoldable pub run_command : String → List String → Go (String × Option Error)
  run_command executable args =
      call (λ t. env.combined_output t executable args) (λ a. ran executable args a.0 a.1)

  -- After `cmd.Start`. With an error Go returns the command too, and no caller looks at it.
  abbrev pub start_result : String → List String → Result ℕ → Go Cmd
  start_result executable args (ok pid) =
      pure (record { executable = executable; args = args; process = some pid })
  start_result executable args (err e) = fail (wrapped "error starting %q" (executable ∷ []) e)

  abbrev pub start_logged : String → String → List String → Option Error → Go Cmd
  start_logged log_file executable args (some e) =
      fail (
        wrapped "error logging output for command %q to filename %q" (executable ∷ log_file ∷ []) e)
  start_logged log_file executable args none = do
    r ← call (λ t. env.start t executable args) (started executable args)
    start_result executable args r

  unfoldable pub start_command : String → String → List String → Go Cmd
  start_command log_file executable args = do
    e ← call (λ t. env.open_log t log_file) (opened_log log_file)
    start_logged log_file executable args e

  unfoldable pub file_exists : String → Go Bool
  file_exists filename = call (λ t. env.stat t filename) (checked filename)

  unfoldable pub read_file : String → Go String
  read_file filename = do r ← call (λ t. env.read_file t filename) (read filename); lift r

  -- `ioutil.WriteFile(filename, contents, mode)`
  unfoldable pub write_file : String → String → ℕ → Go Unit
  write_file filename contents mode = do
    e ← call (λ t. env.write_file t filename contents mode) (wrote filename contents mode)
    check e

  unfoldable pub write_string_to_file : String → String → Go Unit
  unfolding write_file
  write_string_to_file filename contents = write_file filename contents 0o644

  abbrev pub send_signal : Option ℕ → ℕ → Go Unit
  send_signal none signal = fail (message "process-was-not-started")
  send_signal (some pid) signal = do
    e ← call (λ t. env.signal t pid signal) (signalled pid signal)
    check (wrap e "unable-to-kill-process")

  unfoldable pub kill_command : Option Cmd → ℕ → Go Unit
  unfolding wrap
  kill_command none signal = fail (message "process-was-not-started")
  kill_command (some cmd) signal = send_signal cmd.process signal

-- ===== src/Go/Plain.antt =====
-- What the actions of the runtime add to the trace: a property of events that holds of plain events,
-- and for the last of the actions also of closing ones, holds of what they add.
use mariadb_ctrl.Prelude.{ℕ, String, Bool, true, false, Option, none, some, refl, ◌≡◌, [], ◌∷◌}
use mariadb_ctrl.Go.Error.{Error}
use mariadb_ctrl.Go.World.{
  World, Event, Cmd, Chan, started, wrote, polled, received, cancelled, slept, signalled, served,
}
use mariadb_ctrl.Go.Action.{final}
use mariadb_ctrl.Go.Logic.{Has, on_bind, on_call, on_check, on_lift, on_fail}
use mariadb_ctrl.Go.Relations.{Extends}
use mariadb_ctrl.Go.Safe.{ExtendsOnly, ExtendsOnly-Logic, Extends-logged}
use mariadb_ctrl.Go.Channel.{poll, receive, receive_or_done, is_drained, drain}
use mariadb_ctrl.Env.{Env, Wake, exit, done}
use mariadb_ctrl.OsHelper.{
  wait_for_command, sleep, file_exists, read_file, kill_command, send_signal,
}

-- what the end of `Execute` does: the status server, the end of the context and the signal
abbrev pub IsClosing : Event → Type 0
IsClosing served = Unit
IsClosing cancelled = Unit
IsClosing (signalled pid signal e) = Unit
IsClosing _ = ⊥

-- no start of a command, no write of a file, and nothing that closes
abbrev pub IsPlain : Event → Type 0
IsPlain (started exe args r) = ⊥
IsPlain (wrote f c m e) = ⊥
IsPlain served = ⊥
IsPlain cancelled = ⊥
IsPlain (signalled pid signal e) = ⊥
IsPlain _ = Unit

module _ {P : Event → Type 0} (plain : (e : Event) → IsPlain e → P e) (env : Env) where
  pub same_trace : (w v : World) → v.trace ≡ w.trace → Extends P w v
  same_trace w v e = record { added = []; grown = e; all = tt }

  pub wait_for_command-Extends : (cmd : Cmd) → Has (ExtendsOnly P) (wait_for_command cmd)
  unfolding wait_for_command
  wait_for_command-Extends cmd = record { holds = record { at = λ w. same_trace w _ refl } }

  pub sleep-Extends : (d : ℕ) → Has (ExtendsOnly P) (sleep d)
  unfolding sleep
  sleep-Extends d = record {
    holds = record { at = λ w. Extends-logged (slept d) (plain (slept d) tt) w };
  }

  pub file_exists-Extends : (f : String) → Has (ExtendsOnly P) (file_exists env f)
  unfolding file_exists
  file_exists-Extends f = on_call ExtendsOnly-Logic _ _ (λ b. plain _ tt)

  pub read_file-Extends : (f : String) → Has (ExtendsOnly P) (read_file env f)
  unfolding read_file
  read_file-Extends f =
      on_bind ExtendsOnly-Logic _ _ (on_call ExtendsOnly-Logic _ _ (λ b. plain _ tt))
        (on_lift ExtendsOnly-Logic)

  drained-Extends : (ch : Chan) (e : Option Error) (w : World) → Extends P w (drain ch e w)
  drained-Extends ch e w = record {
    added = received ch.ref e ∷ [];
    grown = refl;
    all = (plain (received ch.ref e) tt, tt);
  }

  poll_cases :
      (ch : Chan) (w : World) (d : Bool) (r : Option (Option Error))
      → is_drained ch w ≡ d
      → env.poll_exit w.trace ch.cmd ≡ r
      → Extends P w (final (poll env ch w))
  unfolding poll
  poll_cases ch w true r p q = rw p (Extends-logged _ (plain (polled ch.ref) tt) w)
  poll_cases ch w false none p q = rw (p, q) (Extends-logged _ (plain (polled ch.ref) tt) w)
  poll_cases ch w false (some e) p q = rw (p, q) (drained-Extends ch e w)

  pub poll-Extends : (ch : Chan) → Has (ExtendsOnly P) (poll env ch)
  poll-Extends ch = record { holds = record { at = λ w. poll_cases ch w _ _ refl refl } }

  receive_cases :
      (ch : Chan) (w : World) (d : Bool) (r : Option (Option Error))
      → is_drained ch w ≡ d
      → env.wait_exit w.trace ch.cmd ≡ r
      → Extends P w (final (receive env ch w))
  unfolding receive
  receive_cases ch w true r p q = rw p (same_trace w w refl)
  receive_cases ch w false none p q = rw (p, q) (same_trace w w refl)
  receive_cases ch w false (some e) p q = rw (p, q) (drained-Extends ch e w)

  pub receive-Extends : (ch : Chan) → Has (ExtendsOnly P) (receive env ch)
  receive-Extends ch = record { holds = record { at = λ w. receive_cases ch w _ _ refl refl } }

  module _ (closing : (e : Event) → IsClosing e → P e) where
    send_signal-Extends : (p : Option ℕ) (s : ℕ) → Has (ExtendsOnly P) (send_signal env p s)
    send_signal-Extends none s = on_fail ExtendsOnly-Logic _
    send_signal-Extends (some pid) s =
        on_bind ExtendsOnly-Logic _ _ (on_call ExtendsOnly-Logic _ _ (λ b. closing _ tt))
          (λ e. on_check ExtendsOnly-Logic _)

    pub kill_command-Extends :
        (cmd : Option Cmd) (s : ℕ) → Has (ExtendsOnly P) (kill_command env cmd s)
    unfolding kill_command
    kill_command-Extends none s = on_fail ExtendsOnly-Logic _
    kill_command-Extends (some cmd) s = send_signal-Extends cmd.process s

    select_cases :
        (ch : Chan) (w : World) (d : Bool) (r : Option Wake)
        → is_drained ch w ≡ d
        → env.select_exit w.trace ch.cmd ≡ r
        → Extends P w (final (receive_or_done env ch w))
    unfolding receive_or_done
    select_cases ch w true none p q = rw (p, q) (same_trace w w refl)
    select_cases ch w true (some (exit e)) p q = rw (p, q) (same_trace w w refl)
    select_cases ch w true (some done) p q = rw (p, q) (Extends-logged _ (closing cancelled tt) w)
    select_cases ch w false none p q = rw (p, q) (same_trace w w refl)
    select_cases ch w false (some (exit e)) p q = rw (p, q) (drained-Extends ch e w)
    select_cases ch w false (some done) p q = rw (p, q) (Extends-logged _ (closing cancelled tt) w)

    pub receive_or_done-Extends : (ch : Chan) → Has (ExtendsOnly P) (receive_or_done env ch)
    receive_or_done-Extends ch = record {
      holds = record { at = λ w. select_cases ch w _ _ refl refl };
    }

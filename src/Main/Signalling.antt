-- ===== src/Main/Signalling.antt =====
-- The supervision at the end of a run of `Execute`, and what has preceded it.
pub mod Starting
pub mod Waiting
pub mod Ending
use mariadb_ctrl.Prelude.{
  ℕ, String, ◌≡◌, refl, sym, ap, ◌∙◌, Option, none, some, List, [], ◌∷◌, ◌++◌, append_assoc, All,
  All-append,
}
use mariadb_ctrl.Go.Error.{Error, Result, ok, err}
use mariadb_ctrl.Go.World.{
  World, Event, Trace, Chan, started, received, wrote, served, cancelled, signalled,
}
use mariadb_ctrl.Go.Action.{Outcome, returned, failed, panicked, blocked, Go, final, ◌>>=◌}
use mariadb_ctrl.Go.Logic.{Has}
use mariadb_ctrl.Go.Relations.{Extends}
use mariadb_ctrl.Go.Safe.{ExtendsOnly, Safe, Safe-bind}
use mariadb_ctrl.Go.Plain.{IsPlain}
use mariadb_ctrl.Go.Quiet.{Quiet}
use mariadb_ctrl.OsHelper.{sigterm}

-- not the status server, the end of the context or a signal
abbrev pub IsEarly : Event → Type 0
IsEarly served = ⊥
IsEarly cancelled = ⊥
IsEarly (signalled pid signal e) = ⊥
IsEarly _ = Unit

-- early, no start of a command and no exit that is received
abbrev pub IsStill : Event → Type 0
IsStill (started exe args r) = ⊥
IsStill (received ref e) = ⊥
IsStill e = IsEarly e

abbrev pub alive_after : Event → Option ℕ → Option ℕ
alive_after (started exe args (ok pid)) p = some pid
alive_after (received ref e) p = none
alive_after e p = p

-- The process of the command that was started last, until an exit is received.
abbrev pub alive : Trace → Option ℕ
alive [] = none
alive (e ∷ t) = alive_after e (alive t)

-- The end of a run that has started the process `pid`: the status server is started, and the run waits
-- for the exit, or has received it, or the context has ended and SIGTERM is sent to the process, once,
-- and then, if that has not failed, an exit may be received.
pub data Attended (pid : ℕ) : Trace → Type 0 where
  waits : Attended pid (served ∷ [])
  exits : (ref : ℕ) (e : Option Error) → Attended pid (received ref e ∷ served ∷ [])
  signals : (e : Option Error) → Attended pid (signalled pid sigterm e ∷ cancelled ∷ served ∷ [])
  ends :
      (ref : ℕ) (e : Option Error)
      → Attended pid (received ref e ∷ signalled pid sigterm none ∷ cancelled ∷ served ∷ [])

-- A run from `w` to `v`, whose state file is `file`: it has not come to the supervision; or the state has
-- been written, without an error, with mysqld alive, and then there is only the supervision of that
-- mysqld.
pub data Attends (file : String) (w v : World) : Type 0 where
  unattended : Extends IsEarly w v → Attends file w v
  attended :
      (before tail : Trace) (pid : ℕ) (state : String)
      → All IsEarly before
      → alive before ≡ some pid
      → Attended pid tail
      → v.trace ≡ tail ++ (wrote file state 0o644 none ∷ (before ++ w.trace))
      → Attends file w v

-- mysqld is alive, with this channel, and its command is kept.
pub record Live (w : World) (ch : Chan) (v : World) : Type 0 where
  pub added : Trace
  pub grown : v.trace ≡ added ++ w.trace
  pub early : All IsEarly added
  pub pid : ℕ
  pub lives : alive added ≡ some pid
  pub process : ch.cmd.process ≡ some pid
  pub kept : v.mysql_cmd ≡ some ch.cmd

pub Extends-Live : (w : World) (ch : Chan) (v : World) → Live w ch v → Extends IsEarly w v
Extends-Live w ch v h = record { added = h.added; grown = h.grown; all = h.early }

IsEarly-still : (e : Event) → IsStill e → IsEarly e
IsEarly-still (started exe args r) h = absurd h
IsEarly-still (received ref x) h = absurd h
IsEarly-still served h = h
IsEarly-still cancelled h = h
IsEarly-still (signalled pid s x) h = h
IsEarly-still _ h = tt

alive-still : (e : Event) (p : Option ℕ) → IsStill e → alive_after e p ≡ p
alive-still (started exe args r) p h = absurd h
alive-still (received ref x) p h = absurd h
alive-still _ p h = refl

alive-append : (es t : Trace) → All IsStill es → alive (es ++ t) ≡ alive t
alive-append [] t h = refl
alive-append (e ∷ es) t (p, h) = alive-still e (alive (es ++ t)) p ∙ alive-append es t h

early_of_still : (es : Trace) → All IsStill es → All IsEarly es
early_of_still [] h = tt
early_of_still (e ∷ es) (p, h) = (IsEarly-still e p, early_of_still es h)

-- What starts and receives nothing leaves mysqld alive.
pub Live-Extends :
    (w : World) (ch : Chan) (u v : World)
    → Extends IsStill u v
    → v.mysql_cmd ≡ u.mysql_cmd
    → Live w ch u
    → Live w ch v
Live-Extends w ch u v x same h = record {
  added = x.added ++ h.added;
  grown = x.grown ∙ ap (λ t. x.added ++ t) h.grown ∙ sym (append_assoc x.added h.added w.trace);
  early = All-append IsEarly x.added h.added (early_of_still x.added x.all) h.early;
  pid = h.pid;
  lives = alive-append x.added h.added x.all ∙ h.lives;
  process = h.process;
  kept = same ∙ h.kept;
}

Safe-of_Live :
    {A : Type 0} (w : World) (ch : Chan) (o : Outcome A)
    → Live w ch (final o)
    → Safe (Extends IsEarly w) (λ _ v. Live w ch v) o
Safe-of_Live w ch (returned a v) h = h
Safe-of_Live w ch (failed e v) h = Extends-Live w ch v h
Safe-of_Live w ch (panicked e v) h = Extends-Live w ch v h
Safe-of_Live w ch (blocked v) h = Extends-Live w ch v h

-- Such an action, and the rest.
pub live_then :
    {A B : Type 0} (w : World) (ch : Chan) (R : B → World → Type 0) (m : Go A) (f : A → Go B)
    → Has (ExtendsOnly IsStill) m
    → Has Quiet m
    → (u : World) → Live w ch u
    → ((a : A) (v : World) → Live w ch v → Safe (Extends IsEarly w) R (f a v))
    → Safe (Extends IsEarly w) R ((m >>= f) u)
live_then w ch R m f p q u h k =
    Safe-bind (Extends IsEarly w) (λ _ v. Live w ch v) R m f u
      (Safe-of_Live w ch (m u)
        (Live-Extends w ch u (final (m u)) (p.holds.at u) (q.holds.framed.at u).same_cmd h))
      k

pub IsEarly-plain : (e : Event) → IsPlain e → IsEarly e
IsEarly-plain served h = h
IsEarly-plain cancelled h = h
IsEarly-plain (signalled pid s x) h = h
IsEarly-plain _ h = tt

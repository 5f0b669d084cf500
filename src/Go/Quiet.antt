-- ===== src/Go/Quiet.antt =====
-- Actions that come to an end and leave the channels and the starter's command alone, and the
-- channels that can still be received from.
use mariadb_ctrl.Prelude.{
  ℕ, ◌<◌, ◌≡◌, ◌≢◌, refl, sym, ap, ◌∙◌, subst, false, Option, none, some, contains, All, arith,
}
use mariadb_ctrl.Go.Error.{Error}
use mariadb_ctrl.Go.World.{World, Event, Trace, Cmd, Chan}
use mariadb_ctrl.Go.Action.{returned, Go, final, logged, ◌>>=◌}
use mariadb_ctrl.Go.Rules.{
  Moves, Moves-pure, Moves-fail, Moves-panic, Moves-bind, Moves-attempt, Moves-call,
}
use mariadb_ctrl.Go.Relations.{Frame, Frame-IsPreorder, Frame-of_Adds}
use mariadb_ctrl.Go.Logic.{Logic, Has}
use mariadb_ctrl.Go.Adds.{AddsOnly}
use mariadb_ctrl.Go.Ends.{Ends, Ends-Logic}
use mariadb_ctrl.Go.Total.{
  Total, Total-bind, Total_of_final, IsSound, not_drained_of_below, All-lt-suc,
}
use mariadb_ctrl.Go.Channel.{receive, is_drained}
use mariadb_ctrl.Env.{Env}
use mariadb_ctrl.OsHelper.{wait_for_command, sleep}

pub record Quiet (A : Type 0) (m : Go A) : Type 0 where
  pub ends : Ends A m
  pub framed : Moves Frame m

pub Frame-logged : (e : Event) (w : World) → Frame w (logged e w)
Frame-logged e w = record { same_cmd = refl; same_next = refl; same_drained = refl }

pub Quiet-Logic : Logic Quiet (λ _. Unit {0})
Quiet-Logic = record {
  on_pure = λ A a. record { ends = Ends-Logic.on_pure A a; framed = Moves-pure Frame-IsPreorder a };
  on_fail = λ A e. record { ends = Ends-Logic.on_fail A e; framed = Moves-fail Frame-IsPreorder e };
  on_panic =
      λ A e. record { ends = Ends-Logic.on_panic A e; framed = Moves-panic Frame-IsPreorder e };
  on_bind = λ A B m f p q. record {
    ends = Ends-Logic.on_bind A B m f p.ends (λ a. (q a).ends);
    framed = Moves-bind Frame-IsPreorder m f p.framed (λ a. (q a).framed);
  };
  on_attempt = λ A m p. record {
    ends = Ends-Logic.on_attempt A m p.ends;
    framed = Moves-attempt m p.framed;
  };
  on_call = λ A answer event p. record {
    ends = Ends-Logic.on_call A answer event p;
    framed = Moves-call answer event (λ w a. Frame-logged (event a) w);
  };
}

pub Quiet-of_Adds :
    {A : Type 0} {P : Event → Type 0} {m : Go A} → AddsOnly P A m → Ends A m → Quiet A m
Quiet-of_Adds {m} p q = record { ends = q; framed = record { at = λ w. Frame-of_Adds (p.at w) } }

pub sleep-Quiet : (d : ℕ) → Has Quiet (sleep d)
unfolding sleep
sleep-Quiet d = record {
  holds = record { ends = λ w. tt; framed = record { at = λ w. Frame-logged _ w } };
}

pub Total_of_Quiet :
    {A : Type 0} (m : Go A) → Has Quiet m → (w : World) → Total (λ _ v. Frame w v) (m w)
Total_of_Quiet m q w = Total_of_final (Frame w) (m w) (q.holds.ends w) (q.holds.framed.at w)

-- The channel exists, and its value has not been received.
pub record IsOpen (ch : Chan) (w : World) : Type 0 where
  pub sound : IsSound w
  pub below : ch.ref < w.next_chan
  pub undrained : is_drained ch w ≡ false

pub IsSound-Frame : {w v : World} → Frame w v → IsSound w → IsSound v
IsSound-Frame {w} {v} f h =
    subst (λ n. All (λ r. r < n) v.drained) (sym f.same_next)
      (subst (All (λ r. r < w.next_chan)) (sym f.same_drained) h)

pub IsOpen-Frame : {w v : World} {ch : Chan} → Frame w v → IsOpen ch w → IsOpen ch v
IsOpen-Frame {w} {v} {ch} f h = record {
  sound = IsSound-Frame f h.sound;
  below = omega arith;
  undrained = ap (λ rs. contains rs ch.ref) f.same_drained ∙ h.undrained;
}

-- A channel that is made is open, and is a channel of the command.
pub wait_for_command-Total :
    (cmd : Cmd) (w : World)
    → IsSound w
    → Total
        (λ ch v. IsOpen ch v × (ch.cmd ≡ cmd) × (v.mysql_cmd ≡ w.mysql_cmd))
        (wait_for_command cmd w)
unfolding wait_for_command
wait_for_command-Total cmd w h = (
  record {
    sound = All-lt-suc w.next_chan w.drained h;
    below = omega arith;
    undrained = not_drained_of_below w.next_chan w.drained h;
  },
  refl,
  refl,
)

-- Every process ends at last.
abbrev pub ProcessesEnd : Env → Type 0
ProcessesEnd env = (t : Trace) (cmd : Cmd) → env.wait_exit t cmd ≢ none

module _ (env : Env) (exits : ProcessesEnd env) where
  receive_cases :
      (ch : Chan) (w : World) (r : Option (Option Error))
      → env.wait_exit w.trace ch.cmd ≡ r
      → IsOpen ch w
      → Total (λ _ v. IsSound v) (receive env ch w)
  unfolding receive
  receive_cases ch w none p h = absurd (exits w.trace ch.cmd p)
  receive_cases ch w (some e) p h = rw (h.undrained, receive) (rw p (h.below, h.sound))

  -- A receive from an open channel ends.
  pub receive-Total :
      (ch : Chan) (w : World) → IsOpen ch w → Total (λ _ v. IsSound v) (receive env ch w)
  receive-Total ch w h = receive_cases ch w _ refl h

-- A quiet action, and the rest.
frame_then :
    {A B : Type 0} (I : World → Type 0) (R : B → World → Type 0) (m : Go A) (f : A → Go B)
    → ((u v : World) → Frame u v → I u → I v)
    → Has Quiet m
    → (w : World) → I w
    → ((a : A) (v : World) → I v → Total R (f a v))
    → Total R ((m >>= f) w)
frame_then I R m f stays q w h k =
    Total-bind (λ _ v. Frame w v) R m f w (Total_of_Quiet m q w) (λ a v fr. k a v (stays w v fr h))

pub open_then :
    {A B : Type 0} (ch : Chan) (R : B → World → Type 0) (m : Go A) (f : A → Go B)
    → Has Quiet m
    → (w : World) → IsOpen ch w
    → ((a : A) (v : World) → IsOpen ch v → Total R (f a v))
    → Total R ((m >>= f) w)
open_then ch R m f = frame_then (IsOpen ch) R m f (λ u v fr h. IsOpen-Frame fr h)

pub sound_then :
    {A B : Type 0} (R : B → World → Type 0) (m : Go A) (f : A → Go B)
    → Has Quiet m
    → (w : World) → IsSound w
    → ((a : A) (v : World) → IsSound v → Total R (f a v))
    → Total R ((m >>= f) w)
sound_then R m f = frame_then IsSound R m f (λ u v fr h. IsSound-Frame fr h)

-- A quiet action keeps the channels sound.
pub Quiet-IsSound :
    {A : Type 0} (m : Go A) → Has Quiet m → (w : World) → IsSound w → Total (λ _ v. IsSound v) (m w)
Quiet-IsSound m q w h =
    Total_of_final IsSound (m w) (q.holds.ends w) (IsSound-Frame (q.holds.framed.at w) h)

pub Frame-of_returned :
    {A : Type 0} (m : Go A) (w v : World) (a : A) → Has Quiet m → m w ≡ returned a v → Frame w v
Frame-of_returned m w v a q e = subst (λ o. Frame w (final o)) e (q.holds.framed.at w)

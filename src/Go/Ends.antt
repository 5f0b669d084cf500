-- ===== src/Go/Ends.antt =====
-- Actions that do not wait for ever, as a property of actions.
use mariadb_ctrl.Go.World.{World, Event}
use mariadb_ctrl.Go.Action.{
  Outcome, returned, failed, panicked, blocked, Go, caught, deferring, finished, ◌>>=◌, continue,
}
use mariadb_ctrl.Go.Logic.{Logic}

abbrev pub IsEnd : {A : Type 0} → Outcome A → Type 0
IsEnd (blocked w) = ⊥
IsEnd _ = Unit

-- The action comes to an end from every world.
abbrev pub Ends : (A : Type 0) → Go A → Type 0
Ends A m = (w : World) → IsEnd (m w)

module _ {A : Type 0} where
  IsEnd-caught : (r : Outcome A) → IsEnd r → IsEnd (caught r)
  IsEnd-caught (returned a w) h = tt
  IsEnd-caught (failed e w) h = tt
  IsEnd-caught (panicked e w) h = tt
  IsEnd-caught (blocked w) h = h

  pub IsEnd-finished : (e : Event) (r : Outcome A) → IsEnd r → IsEnd (finished e r)
  IsEnd-finished e (returned a w) h = tt
  IsEnd-finished e (failed x w) h = tt
  IsEnd-finished e (panicked x w) h = tt
  IsEnd-finished e (blocked w) h = h

  pub Ends-deferring : (e : Event) (m : Go A) → Ends A m → Ends A (deferring e m)
  unfolding deferring
  Ends-deferring e m h = λ w. IsEnd-finished e (m w) (h w)

IsEnd-continue :
    {A B : Type 0} (r : Outcome A) (f : A → Go B)
    → IsEnd r
    → ((a : A) → Ends B (f a))
    → IsEnd (continue r f)
IsEnd-continue (returned a w) f h k = k a w
IsEnd-continue (failed e w) f h k = tt
IsEnd-continue (panicked e w) f h k = tt
IsEnd-continue (blocked w) f h k = h

pub Ends-Logic : Logic Ends (λ _. Unit {0})
unfolding ◌>>=◌
Ends-Logic = record {
  on_pure = λ A a w. tt;
  on_fail = λ A e w. tt;
  on_panic = λ A e w. tt;
  on_bind = λ A B m f p q w. IsEnd-continue (m w) f (p w) q;
  on_attempt = λ A m p w. IsEnd-caught (m w) (p w);
  on_call = λ A answer event p w. tt;
}

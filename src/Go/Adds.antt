-- ===== src/Go/Adds.antt =====
-- `Adds` and `Frame` as properties of actions.
use mariadb_ctrl.Prelude.{refl, [], ◌∷◌}
use mariadb_ctrl.Go.World.{World, Event}
use mariadb_ctrl.Go.Action.{Go, logged}
use mariadb_ctrl.Go.Rules.{
  Moves, Moves-pure, Moves-fail, Moves-panic, Moves-bind, Moves-attempt, Moves-call,
}
use mariadb_ctrl.Go.Logic.{Logic}
use mariadb_ctrl.Go.Relations.{Adds, Adds-IsPreorder}

-- Whatever happens, the action adds to the trace events that have `P`, and changes nothing else.
abbrev pub AddsOnly : (Event → Type 0) → (A : Type 0) → Go A → Type 0
AddsOnly P A m = Moves (Adds P) m

module _ {P : Event → Type 0} where
  pub Adds-logged : (e : Event) → P e → (w : World) → Adds P w (logged e w)
  Adds-logged e p w = record { added = e ∷ []; grown = refl; all = (p, tt) }

  pub AddsOnly-Logic : Logic (AddsOnly P) P
  AddsOnly-Logic = record {
    on_pure = λ A a. Moves-pure (Adds-IsPreorder P) a;
    on_fail = λ A e. Moves-fail (Adds-IsPreorder P) e;
    on_panic = λ A e. Moves-panic (Adds-IsPreorder P) e;
    on_bind = λ A B m f p q. Moves-bind (Adds-IsPreorder P) m f p q;
    on_attempt = λ A m p. Moves-attempt m p;
    on_call = λ A answer event p. Moves-call answer event (λ w a. Adds-logged (event a) (p a) w);
  }

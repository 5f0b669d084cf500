-- ===== src/Main/Growing.antt =====
-- What the runs of the program, one after the other, add to the trace.
use mathlib.Core.List.{append_cancel_right}
use mariadb_ctrl.Prelude.{ℕ, ◌≡◌, sym, subst, ap, ◌∙◌, [], ◌∷◌, ◌++◌, append_assoc, All, All-append}
use mariadb_ctrl.Go.World.{World, Event, Trace}
use mariadb_ctrl.Go.Action.{final}
use mariadb_ctrl.Go.Relations.{Extends}
use mariadb_ctrl.Env.{Env}
use mariadb_ctrl.Config.{Config}
use mariadb_ctrl.Main.{execute_configured}

-- What was added to a trace has `P`.
pub record Grows (P : Event → Type 0) (t u : Trace) : Type 0 where
  pub added : Trace
  pub grown : u ≡ added ++ t
  pub all : All P added

All-later : (P : Event → Type 0) (xs ys : Trace) → All P (xs ++ ys) → All P ys
All-later P [] ys h = h
All-later P (x ∷ xs) ys (p, h) = All-later P xs ys h

pub Grows-append :
    {P : Event → Type 0} (t u v added : Trace)
    → v ≡ added ++ u
    → All P added
    → Grows P t u
    → Grows P t v
Grows-append {P} t u v added grown h g = record {
  added = added ++ g.added;
  grown = grown ∙ ap (λ x. added ++ x) g.grown ∙ sym (append_assoc added g.added t);
  all = All-append P added g.added h g.all;
}

-- The calls of one run, as far as it gets.
pub run-All :
    (env : Env) (cfg : Config) (fuel : ℕ) (P : Event → Type 0) (K : Trace → Type 0)
    → ((w : World) → K w.trace → Extends P w (final (execute_configured env cfg fuel w)))
    → (w : World) (u added later : Trace) → w.trace ≡ u
    → (final (execute_configured env cfg fuel w)).trace ≡ later ++ (added ++ u)
    → K u
    → All P added
run-All env cfg fuel P K runs w u added later same reached k =
    let x = runs w (subst K (sym same) k) in
    let e : x.added ≡ later ++ added = append_cancel_right x.added (later ++ added) u (
      ap (λ t. x.added ++ t) (sym same)
      ∙ sym x.grown
      ∙ reached
      ∙ sym (append_assoc later added u)) in
    All-later P later added (subst (All P) e x.all)

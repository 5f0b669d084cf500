-- ===== src/Main/Crashing.antt =====
-- The program over its restarts, when writes of the state file may break off: a run may be stopped
-- after any of its calls or inside a write, and a write may fail.
pub mod Joining
pub mod Stalling
use mariadb_ctrl.Prelude.{ℕ, String, ◌≡◌, refl, sym, subst, some, Option, [], ◌∷◌, ◌++◌, All}
use mariadb_ctrl.Go.Error.{Error}
use mariadb_ctrl.Go.World.{World, Event, Trace, wrote}
use mariadb_ctrl.Go.Action.{final}
use mariadb_ctrl.Go.Relations.{Extends}
use mariadb_ctrl.Env.{Env}
use mariadb_ctrl.Config.{Config}
use mariadb_ctrl.Main.{execute_configured}
use mariadb_ctrl.Main.Growing.{Grows, Grows-append, run-All}

-- A run begins in a world `w` that has the trace of the last one, whatever its memory holds.
pub data Crashes (env : Env) (cfg : Config) (fuel : ℕ) (t : Trace) : Trace → Type 0 where
  begun : Crashes env cfg fuel t t
  -- it gets as far as the calls `added`; `later` are those that it would have made
  stopped :
      {u v : Trace}
      → Crashes env cfg fuel t u
      → (w : World) (added later : Trace) → w.trace ≡ u
      → (final (execute_configured env cfg fuel w)).trace ≡ later ++ (added ++ u)
      → v ≡ added ++ u
      → Crashes env cfg fuel t v
  -- it is stopped inside a write, which leaves the file as a failed write does
  inside_write :
      {u v : Trace}
      → Crashes env cfg fuel t u
      → (w : World) (added later : Trace) (g c : String) (m : ℕ) (x : Option Error) (e : Error)
      → w.trace ≡ u
      → (final (execute_configured env cfg fuel w)).trace ≡ later ++ (wrote g c m x ∷ (added ++ u))
      → v ≡ wrote g c m (some e) ∷ (added ++ u)
      → Crashes env cfg fuel t v

module _ (env : Env) (cfg : Config) (fuel : ℕ) where
  abbrev pub f : String
  f = cfg.manager.state_file_location

  -- Something that holds of the trace when a run begins, that keeps a run to events with `P`, and that
  -- such events keep.
  module _ (P : Event → Type 0) (K : Trace → Type 0)
      (runs : (w : World) → K w.trace → Extends P w (final (execute_configured env cfg fuel w)))
      (breaks : (g c : String) (m : ℕ) (x : Option Error) (e : Error)
        → P (wrote g c m x)
        → P (wrote g c m (some e)))
      (keeps : (t : Trace) (e : Event) → P e → K t → K (e ∷ t)) where
    all_keep : (t es : Trace) → All P es → K t → K (es ++ t)
    all_keep t [] h k = k
    all_keep t (e ∷ es) (p, h) k = keeps (es ++ t) e p (all_keep t es h k)

    grow :
        (t u v added : Trace) → v ≡ added ++ u → All P added → Grows P t u × K u → Grows P t v × K v
    grow t u v added grown h (g, k) =
        (Grows-append t u v added grown h g, subst K (sym grown) (all_keep u added h k))

    pub Crashes-Grows : (t u : Trace) → K t → Crashes env cfg fuel t u → Grows P t u × K u
    Crashes-Grows t u k begun = (record { added = []; grown = refl; all = tt }, k)
    Crashes-Grows t v k (stopped {u} before w added later same reached grown) =
        let so_far = Crashes-Grows t u k before in
        grow t u v added grown (run-All env cfg fuel P K runs w u added later same reached so_far.1)
          so_far
    Crashes-Grows t v k (inside_write {u} before w added later g c m x e same reached grown) =
        let so_far = Crashes-Grows t u k before in
        let (p, h) =
          run-All env cfg fuel P K runs w u (wrote g c m x ∷ added) later same reached so_far.1 in
        grow t u v (wrote g c m (some e) ∷ added) grown (breaks g c m x e p, h) so_far

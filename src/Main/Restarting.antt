-- ===== src/Main/Restarting.antt =====
-- The program over its restarts: every run of `Execute` begins where the last one was stopped, and
-- may be stopped after any of its calls.
use mariadb_ctrl.Prelude.{ℕ, String, ◌≡◌, refl, sym, subst, ap, none, [], ◌∷◌, ◌++◌, All}
use mariadb_ctrl.Go.World.{World, Event, Trace, wrote}
use mariadb_ctrl.Go.Action.{final}
use mariadb_ctrl.Go.Relations.{Extends}
use mariadb_ctrl.Env.{Env}
use mariadb_ctrl.Config.{Config}
use mariadb_ctrl.Main.{execute_configured}
use mariadb_ctrl.Main.Growing.{Grows, Grows-append, run-All}
use mariadb_ctrl.Main.Recording.{Recorded, Joins}

-- an event that is no failed write
abbrev pub IsWritten : Event → Type 0
IsWritten (wrote f c m e) = e ≡ none
IsWritten _ = Unit

-- A run begins in a world `w` that has the trace of the last one, whatever its memory holds, and
-- gets as far as the calls `added`; `later` are those that it would have made if it had not been
-- stopped. No write of a file fails.
pub data Restarts (env : Env) (cfg : Config) (fuel : ℕ) (t : Trace) : Trace → Type 0 where
  begun : Restarts env cfg fuel t t
  again :
      {u v : Trace}
      → Restarts env cfg fuel t u
      → (w : World) (added later : Trace) → w.trace ≡ u
      → (final (execute_configured env cfg fuel w)).trace ≡ later ++ (added ++ u)
      → All IsWritten added
      → v ≡ added ++ u
      → Restarts env cfg fuel t v

-- The last successful write is still one of CLUSTERED.
pub one-Recorded :
    (f : String) (t : Trace) (e : Event)
    → Joins f e
    → IsWritten e
    → Recorded f t
    → Recorded f (e ∷ t)
one-Recorded f t (wrote g c m x) (same_file, same_state) done r = record {
  later = [];
  earlier = t;
  mode = m;
  split = cc;
  kept = tt;
}
one-Recorded f t e j k r = record {
  later = e ∷ r.later;
  earlier = r.earlier;
  mode = r.mode;
  split = ap (λ u. e ∷ u) r.split;
  kept = (tt, r.kept);
}

module _ (env : Env) (cfg : Config) (fuel : ℕ) where
  abbrev pub f : String
  f = cfg.manager.state_file_location

  -- Something that holds of the trace when a run begins, that makes the run join, and that the calls
  -- of a joining run keep as long as no write fails.
  module _ (K : Trace → Type 0)
      (joins : (w : World)
        → K w.trace
        → Extends (Joins f) w (final (execute_configured env cfg fuel w)))
      (keeps : (t : Trace) (e : Event) → Joins f e → IsWritten e → K t → K (e ∷ t)) where
    all_keep : (t es : Trace) → All (Joins f) es → All IsWritten es → K t → K (es ++ t)
    all_keep t [] j k r = r
    all_keep t (e ∷ es) (j, js) (k, ks) r = keeps (es ++ t) e j k (all_keep t es js ks r)

    pub Restarts-Grows : (t u : Trace) → K t → Restarts env cfg fuel t u → Grows (Joins f) t u × K u
    Restarts-Grows t u r begun = (record { added = []; grown = refl; all = tt }, r)
    Restarts-Grows t v r (again {u} before w added later same reached written grown) =
        let (g, now) = Restarts-Grows t u r before in
        let joined = run-All env cfg fuel (Joins f) K joins w u added later same reached now in
        (
          Grows-append t u v added grown joined g,
          subst K (sym grown) (all_keep u added joined written now),
        )

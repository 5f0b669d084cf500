-- ===== src/Main/Tearing.antt =====
-- The state file when a write of it may break off: what it may hold on a node that joins.
use mariadb_ctrl.Prelude.{
  ℕ, String, ◌==◌, ◌≡◌, refl, sym, subst, ap, ◌∙◌, ◌⊎◌, inl, inr, Bool, false, ◌||◌, Option, none,
  some, [], ◌∷◌, ◌++◌, append_assoc, All, All-append,
}
use mariadb_ctrl.Go.Error.{Error}
use mariadb_ctrl.Go.World.{Event, Trace, wrote}
use mariadb_ctrl.Env.{Env}
use mariadb_ctrl.Env.Files.{File, missing, unreadable, contents, exists, read_result}
use mariadb_ctrl.Text.{trim_space}
use mariadb_ctrl.Text.Prefixes.{IsPrefix, at_prefix}
use mariadb_ctrl.Starter.{clustered, needs_bootstrap, single_node}
use mariadb_ctrl.StartManager.NodeState.{recorded}
use mariadb_ctrl.Main.Recording.{Stores, IsKept, Joins}

-- The file is as described, until it is written again.
pub record Holds (env : Env) (f : String) (t : Trace) (file : File) : Type 0 where
  pub stat : (es : Trace) → All (IsKept f) es → env.stat (es ++ t) f ≡ exists file
  pub read : (es : Trace) → All (IsKept f) es → env.read_file (es ++ t) f ≡ read_result file

-- After a write of a text has failed, the file is as it was, or holds the beginning of the text: it is
-- opened and emptied first, and may be written in pieces.
pub record Torn (env : Env) (f : String) (t : Trace) (before : File) (c : String) : Type 0 where
  pub left : File
  pub holds : Holds env f t left
  pub old_or_part : (left ≡ before) ⊎ ((s : String) × (left ≡ contents s) × IsPrefix s c)

-- `ioutil.WriteFile` and nothing else changes the file.
pub record Tears (env : Env) (f : String) : Type 0 where
  pub whole : (t : Trace) (c : String) (m : ℕ) → Holds env f (wrote f c m none ∷ t) (contents c)
  pub torn :
      (t : Trace) (before : File) (c : String) (m : ℕ) (e : Error)
      → Holds env f t before
      → Torn env f (wrote f c m (some e) ∷ t) before c

pub Stores-Tears : {env : Env} {f : String} → Tears env f → Stores env f
Stores-Tears w = record {
  stat = λ es t c m h. (w.whole t c m).stat es h;
  read = λ es t c m h. (w.whole t c m).read es h;
}

pub Holds-append :
    (env : Env) (f : String) (es t : Trace) (file : File)
    → All (IsKept f) es
    → Holds env f t file
    → Holds env f (es ++ t) file
Holds-append env f es t file k h = record {
  stat = λ ds p.
      ap (λ u. env.stat u f) (sym (append_assoc ds es t))
      ∙ h.stat (ds ++ es) (All-append (IsKept f) ds es p k);
  read = λ ds p.
      ap (λ u. env.read_file u f) (sym (append_assoc ds es t))
      ∙ h.read (ds ++ es) (All-append (IsKept f) ds es p k);
}

-- What the state file of a node that joins may be, with the bootstrap flag or without: CLUSTERED or the
-- beginning of it; and without the flag it may be missing.
abbrev pub IsBegun : Bool → File → Type 0
IsBegun b (missing e) = b ≡ false
IsBegun b (unreadable e) = Unit
IsBegun b (contents s) = IsPrefix s clustered

-- one of the states that the program starts from
abbrev pub is_known : String → Bool
is_known s = s == single_node || s == needs_bootstrap || s == clustered

-- The beginnings of CLUSTERED are no states, but for CLUSTERED itself.
pub begun_cases :
    (n : ℕ) (s : String)
    → IsPrefix s clustered
    → (s ≡ clustered) ⊎ (is_known (recorded n (trim_space s)) ≡ false)
unfolding trim_space
begun_cases n s h =
    at_prefix (λ x. (x ≡ clustered) ⊎ (is_known (recorded n (trim_space x)) ≡ false)) s clustered h
      (
        inr refl,
        (
          inr refl,
          (
            inr refl,
            (inr refl, (inr refl, (inr refl, (inr refl, (inr refl, (inr refl, inl refl)))))),
          ),
        ),
      )

pub record Begun (env : Env) (f : String) (b : Bool) (t : Trace) : Type 0 where
  pub file : File
  pub holds : Holds env f t file
  pub begun : IsBegun b file

whole_clustered : IsPrefix clustered clustered
whole_clustered = (refl, (refl, (refl, (refl, (refl, (refl, (refl, (refl, (refl, tt)))))))))

module _ (env : Env) (f : String) (tears : Tears env f) (b : Bool) where
  Torn-Begun :
      (t : Trace) (file : File) → Torn env f t file clustered → IsBegun b file → Begun env f b t
  Torn-Begun t file r h = left_Begun r.left r.holds r.old_or_part
    where
      left_Begun :
          (left : File)
          → Holds env f t left
          → (left ≡ file) ⊎ ((s : String) × (left ≡ contents s) × IsPrefix s clustered)
          → Begun env f b t
      left_Begun left k (inl e) = record {
        file = left;
        holds = k;
        begun = subst (IsBegun b) (sym e) h;
      }
      left_Begun left k (inr (s, e, p)) = record {
        file = left;
        holds = k;
        begun = subst (IsBegun b) (sym e) p;
      }

  written_Begun :
      (t : Trace) (m : ℕ) (x : Option Error)
      → Begun env f b t
      → Begun env f b (wrote f clustered m x ∷ t)
  written_Begun t m none h = record {
    file = contents clustered;
    holds = tears.whole t clustered m;
    begun = whole_clustered;
  }
  written_Begun t m (some e) h =
      Torn-Begun (wrote f clustered m (some e) ∷ t) h.file
        (tears.torn t h.file clustered m e h.holds) h.begun

  -- Each call of a joining run leaves the file so, also a write that fails.
  pub Begun-cons : (t : Trace) (e : Event) → Joins f e → Begun env f b t → Begun env f b (e ∷ t)
  Begun-cons t (wrote g c m x) (p, q) h =
      subst (λ y. Begun env f b (wrote y c m x ∷ t)) (sym p)
        (subst (λ y. Begun env f b (wrote f y m x ∷ t)) (sym q) (written_Begun t m x h))
  Begun-cons t e j h = record {
    file = h.file;
    holds = Holds-append env f (e ∷ []) t h.file (tt, tt) h.holds;
    begun = h.begun;
  }

-- ===== src/Text/Prefixes.antt =====
-- The beginnings of a text, as a write of it that breaks off may leave them.
use Prim.Native.String.{[], ◌∷◌}
use mariadb_ctrl.Prelude.{String, ◌≡◌, sym, subst}

-- The first text is the beginning of the second, or all of it.
abbrev pub IsPrefix : String → String → Type 0
IsPrefix [] t = Unit
IsPrefix (c ∷ s) [] = ⊥
IsPrefix (c ∷ s) (d ∷ t) = (c ≡ d) × IsPrefix s t

-- `P` of every beginning of a text, as a tuple where the text is known.
abbrev pub EachPrefix : (String → Type 0) → String → Type 0
EachPrefix P [] = P []
EachPrefix P (c ∷ t) = P [] × EachPrefix (λ s. P (c ∷ s)) t

pub at_prefix : (P : String → Type 0) (s t : String) → IsPrefix s t → EachPrefix P t → P s
at_prefix P [] [] h each = each
at_prefix P [] (d ∷ t) h each = each.0
at_prefix P (c ∷ s) [] h each = absurd h
at_prefix P (c ∷ s) (d ∷ t) (e, h) (p, each) =
    subst (λ x. P (x ∷ s)) (sym e) (at_prefix (λ x. P (d ∷ x)) s t h each)

-- ===== src/Text/Occurs.antt =====
-- What the tests for prefixes and parts of a text mean.
use Prim.Native.Char.{code}
use Prim.Native.String
use Prim.Native.String.{[], ◌∷◌}
use text.Mathlib.TextEquality.{Char-path}
use text.Mathlib.TextLemmas.{nil-append, cons-append}
use mariadb_ctrl.Prelude.{
  String, ◌≡◌, ◌↔◌, ◌⊎◌, inl, inr, refl, sym, ap, ◌∙◌, true, List, arith, Bool-cases,
}
use mariadb_ctrl.Text.{begins_with, occurs, matches_any}

infixr 67 ◌<>◌
abbrev pub ◌<>◌ : String → String → String
s <> t = String.◌++◌ s t

-- the text has the prefix
abbrev pub HasPrefix : String → String → Type 0
HasPrefix p s = (rest : String) × (s ≡ p <> rest)

-- the text has the part `p`
abbrev pub HasPart : String → String → Type 0
HasPart p s = (before : String) × (after : String) × (s ≡ before <> (p <> after))

abbrev pub HasAnyPart : List String → String → Type 0
HasAnyPart List.[] s = ⊥
HasAnyPart (List.◌∷◌ p ps) s = HasPart p s ⊎ HasAnyPart ps s

begins_with_sound : (p s : String) → begins_with p s ≡ true → HasPrefix p s
unfolding begins_with
begins_with_sound [] s h = (s, sym (nil-append s))
begins_with_sound (c ∷ p) [] h = cc
begins_with_sound (c ∷ p) (d ∷ s) h =
    let same : code d ≡ code c = ground arith in
    let later : begins_with p s ≡ true = ground arith in
    let (rest, e) = begins_with_sound p s later in
    (rest, ap (λ x. x ∷ s) (Char-path d c same) ∙ ap (λ t. c ∷ t) e ∙ sym (cons-append c p rest))

begins_with-append : (p rest : String) → begins_with p (p <> rest) ≡ true
unfolding begins_with
begins_with-append [] rest = refl
begins_with-append (c ∷ p) rest = rw cons-append (ground (arith, begins_with-append p rest))

occurs_sound : (p s : String) → occurs p s ≡ true → HasPart p s
unfolding occurs
occurs_sound p [] h = let (rest, e) = begins_with_sound p [] h in ([], rest, e ∙ sym (nil-append _))
occurs_sound p (c ∷ s) h = elim (Bool-cases (begins_with p (c ∷ s))) [
  | inl here ↦
      let (rest, e) = begins_with_sound p (c ∷ s) here in ([], rest, e ∙ sym (nil-append _))
  | inr not_here ↦
      let later : occurs p s ≡ true = ground arith in
      let (before, after, e) = occurs_sound p s later in
      (c ∷ before, after, ap (λ t. c ∷ t) e ∙ sym (cons-append c before (p <> after)))
]

occurs_of_begins_with : (p s : String) → begins_with p s ≡ true → occurs p s ≡ true
unfolding occurs
occurs_of_begins_with p [] h = h
occurs_of_begins_with p (c ∷ s) h = ground arith

occurs-append : (p before after : String) → occurs p (before <> (p <> after)) ≡ true
unfolding occurs
occurs-append p [] after =
    rw nil-append (occurs_of_begins_with p (p <> after) (begins_with-append p after))
occurs-append p (c ∷ before) after = rw cons-append (ground (arith, occurs-append p before after))

occurs_iff : (p s : String) → (occurs p s ≡ true) ↔ HasPart p s
occurs_iff p s = (occurs_sound p s, λ (before, after, e). rw e (occurs-append p before after))

-- An alternation of plain texts matches exactly the texts that have one of them as a part.
pub matches_any_iff : (ps : List String) (s : String) → (matches_any ps s ≡ true) ↔ HasAnyPart ps s
unfolding matches_any
matches_any_iff List.[] s = ground arith
matches_any_iff (List.◌∷◌ p ps) s = ground (arith, occurs_iff p s, matches_any_iff ps s)

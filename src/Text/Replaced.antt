-- ===== src/Text/Replaced.antt =====
-- `strings.Replace`: occurrences of the old text in the result.
use Prim.Native.Char.{Char, code}
use Prim.Native.String
use Prim.Native.String.{[], ◌∷◌}
use text.Mathlib.TextLemmas.{nil-append, cons-append}
use mariadb_ctrl.Prelude.{
  ℕ, zero, suc, ◌-◌, String, ◌≡◌, ◌≢◌, refl, sym, ◌∙◌, ap, Bool, true, false, not, ◌&&◌, ◌||◌,
  nat_eq, arith, Bool-cases, inl, inr,
}
use mariadb_ctrl.Text.{begins_with, occurs, replace_from, replace_all}
use mariadb_ctrl.Text.Occurs.{◌<>◌}

-- The texts differ at a place that both have.
unfoldable pub clashes : String → String → Bool
clashes [] q = false
clashes (c ∷ p) [] = false
clashes (c ∷ p) (d ∷ q) = not (nat_eq (code c) (code d)) || clashes p q

-- Each part at the end of the first text differs from the second in this way.
unfoldable pub tails_clash : String → String → Bool
unfolding clashes
tails_clash [] q = true
tails_clash (c ∷ p) q = clashes (c ∷ p) q && tails_clash p q

true≢false : true ≢ false
true≢false h = cc

clashes-begins : (p q x : String) → clashes p q ≡ true → begins_with p (q <> x) ≡ false
unfolding clashes begins_with
clashes-begins [] q x h = cc
clashes-begins (c ∷ p) [] x h = cc
clashes-begins (c ∷ p) (d ∷ q) x h = rw cons-append (ground (arith, clashes-begins p q x))

clashes-sym : (p q : String) → clashes p q ≡ true → clashes q p ≡ true
unfolding clashes
clashes-sym [] q h = cc
clashes-sym (c ∷ p) [] h = cc
clashes-sym (c ∷ p) (d ∷ q) h = ground (arith, clashes-sym p q)

-- A text whose ends do not fit the old text adds no occurrence.
occurs-clash : (old q x : String) → tails_clash q old ≡ true → occurs old (q <> x) ≡ occurs old x
unfolding occurs tails_clash
occurs-clash old [] x h = rw nil-append refl
occurs-clash old (c ∷ q) x h =
    let first : clashes (c ∷ q) old ≡ true = ground arith in
    let others : tails_clash q old ≡ true = ground arith in
    let here : begins_with old (c ∷ (q <> x)) ≡ false =
      ap (begins_with old) (sym (cons-append c q x))
      ∙ clashes-begins old (c ∷ q) x (clashes-sym (c ∷ q) old first) in
    ap (occurs old) (cons-append c q x) ∙ ground (arith, here, occurs-clash old q x others)

module _ (old new : String) (apart : tails_clash old new ≡ true)
    (back : tails_clash new old ≡ true) where
  abbrev replaced : ℕ → String → String
  replaced skip s = replace_from old new skip s

  abbrev jump : ℕ
  jump = String.count old - 1

  step_found :
      (c : Char) (s : String)
      → begins_with old (c ∷ s) ≡ true
      → replaced zero (c ∷ s) ≡ new <> replaced jump s
  unfolding replace_from
  step_found c s h = rw h refl

  step_kept :
      (c : Char) (s : String)
      → begins_with old (c ∷ s) ≡ false
      → replaced zero (c ∷ s) ≡ c ∷ replaced zero s
  unfolding replace_from
  step_kept c s h = rw h refl

  -- What the result begins with, the text has begun with.
  begins-kept :
      (p s : String)
      → tails_clash p new ≡ true
      → begins_with p (replaced zero s) ≡ true
      → begins_with p s ≡ true
  unfolding begins_with tails_clash replace_from
  begins-kept [] s h k = refl
  begins-kept (d ∷ p) [] h k = k
  begins-kept (d ∷ p) (c ∷ s) h k = elim (Bool-cases (begins_with old (c ∷ s))) [
    | inl found ↦
        let off : begins_with (d ∷ p) (new <> replaced jump s) ≡ false =
          clashes-begins (d ∷ p) new (replaced jump s) (ground arith) in
        let on : begins_with (d ∷ p) (new <> replaced jump s) ≡ true =
          ap (begins_with (d ∷ p)) (sym (step_found c s found)) ∙ k in
        absurd (true≢false (sym on ∙ off))
    | inr kept ↦
        let on : begins_with (d ∷ p) (c ∷ replaced zero s) ≡ true =
          ap (begins_with (d ∷ p)) (sym (step_kept c s kept)) ∙ k in
        let rest : tails_clash p new ≡ true = ground arith in ground (arith, begins-kept p s rest)
  ]

  not_begun :
      (c : Char) (s : String) (b : Bool)
      → begins_with old (c ∷ s) ≡ false
      → begins_with old (c ∷ replaced zero s) ≡ b
      → b ≡ false
  not_begun c s false kept h = refl
  not_begun c s true kept h =
      sym (begins-kept old (c ∷ s) apart (ap (begins_with old) (step_kept c s kept) ∙ h)) ∙ kept

  module _ (filled : begins_with old [] ≡ false) where
    free : (skip : ℕ) (s : String) → occurs old (replaced skip s) ≡ false
    unfolding occurs replace_from
    free skip [] = filled
    free (suc k) (c ∷ s) = free k s
    free zero (c ∷ s) = elim (Bool-cases (begins_with old (c ∷ s))) [
      | inl found ↦
          ap (occurs old) (step_found c s found)
          ∙ occurs-clash old new (replaced jump s) back
          ∙ free jump s
      | inr kept ↦
          let here : begins_with old (c ∷ replaced zero s) ≡ false = not_begun c s _ kept refl in
          ap (occurs old) (step_kept c s kept) ∙ ground (arith, here, free zero s)
    ]

    -- No occurrence of the old text is left, and the new text brings in none.
    pub occurs-replace_all : (s : String) → occurs old (replace_all s old new) ≡ false
    unfolding replace_all
    occurs-replace_all s = free zero s

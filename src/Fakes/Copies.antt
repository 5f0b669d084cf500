-- ===== src/Fakes/Copies.antt =====
-- The maps of invocations: what `recordInvocation` and the copy of `Invocations` change.
use mariadb_ctrl.Prelude.{
  String, ◌==◌, eq_iff, eq_refl, ◌≡◌, refl, ◌∙◌, inl, inr, Bool-cases, false, List, [], ◌∷◌, ◌++◌,
  Option, none, some, if◌then◌else◌, arith,
}
use mariadb_ctrl.Fakes.Table.{at, assign, copy_into}
use mariadb_ctrl.Fakes.Method.{Value, Invocations, or_empty, recorded, copied}

module _ {A : Type 0} where
  pub at-assign :
      (m : List (String × A)) (k n : String) (a : A)
      → at ◌==◌ (assign ◌==◌ k a m) n ≡ (if k == n then some a else at ◌==◌ m n)
  unfolding at assign
  at-assign [] k n a = refl
  at-assign ((j, b) ∷ m) k n a =
      ground (arith, at-assign m k n a, eq_iff j k, eq_iff k n, eq_iff j n)

  at-assign_other :
      (m : List (String × A)) (k j : String) (a : A)
      → at ◌==◌ m j ≡ none
      → (j == k) ≡ false
      → at ◌==◌ (assign ◌==◌ k a m) j ≡ none
  at-assign_other m k j a new other = ground (arith, at-assign m k j a, eq_iff k j, eq_refl k)

  -- A key stands for one entry, as in a Go map.
  abbrev pub IsUnique : List (String × A) → Type 0
  IsUnique [] = Unit
  IsUnique ((k, a) ∷ m) = (at ◌==◌ m k ≡ none) × IsUnique m

  pub assign-IsUnique :
      (m : List (String × A)) (k : String) (a : A) → IsUnique m → IsUnique (assign ◌==◌ k a m)
  unfolding assign at
  assign-IsUnique [] k a u = (refl, tt)
  assign-IsUnique ((j, b) ∷ m) k a (new, u) = elim (Bool-cases (j == k)) [
    | inl same ↦ rw same (new, u)
    | inr other ↦ rw other (at-assign_other m k j a new other, assign-IsUnique m k a u)
  ]

  abbrev or_else : Option A → Option A → Option A
  or_else none o = o
  or_else (some a) o = some a

  or_else-none : (o : Option A) → or_else o none ≡ o
  or_else-none none = refl
  or_else-none (some a) = refl

  at-copy_into :
      (m c : List (String × A)) (n : String)
      → IsUnique m
      → at ◌==◌ (copy_into ◌==◌ c m) n ≡ or_else (at ◌==◌ m n) (at ◌==◌ c n)
  unfolding copy_into at
  at-copy_into [] c n u = refl
  at-copy_into ((k, a) ∷ m) c n (new, u) =
      at-copy_into m (assign ◌==◌ k a c) n u ∙ ground (arith, at-assign c k n a, eq_iff k n)

-- However the entries are ordered, the copy has the same entries.
pub at-copied : (m : Invocations) (n : String) → IsUnique m → at ◌==◌ (copied m) n ≡ at ◌==◌ m n
unfolding copied at
at-copied m n u = at-copy_into m [] n u ∙ or_else-none (at ◌==◌ m n)

-- Maps with the same entries keep the same entries.
abbrev pub Alike : Invocations → Invocations → Type 0
Alike m t = (n : String) → or_empty (at ◌==◌ m n) ≡ or_empty (at ◌==◌ t n)

pub recorded-Alike :
    (m t : Invocations) (k : String) (args : List Value)
    → Alike m t
    → Alike (recorded k args m) (recorded k args t)
unfolding recorded
recorded-Alike m t k args same n =
    let calls = λ (r : Invocations). or_empty (at ◌==◌ r k) ++ args ∷ [] in
    ground (arith, at-assign m k n (calls m), at-assign t k n (calls t), same n, same k)

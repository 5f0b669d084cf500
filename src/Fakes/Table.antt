-- ===== src/Fakes/Table.antt =====
-- Go maps as association lists. A nil map and an empty map answer alike.
use mariadb_ctrl.Prelude.{Bool, List, [], ◌∷◌, Option, none, some, if◌then◌else◌}

module _ {K A : Type 0} (same : K → K → Bool) where
  -- `a, ok := m[k]`
  unfoldable pub at : List (K × A) → K → Option A
  at [] k = none
  at ((j, a) ∷ m) k = if same j k then some a else at m k

  -- `m[k] = a`
  unfoldable pub assign : K → A → List (K × A) → List (K × A)
  assign k a [] = (k, a) ∷ []
  assign k a ((j, b) ∷ m) = if same j k then (j, a) ∷ m else (j, b) ∷ assign k a m

  -- `c := map[K]A{}; for k, a := range m { c[k] = a }`, in the order of the list
  unfoldable pub copy_into : List (K × A) → List (K × A) → List (K × A)
  unfolding assign
  copy_into c [] = c
  copy_into c ((k, a) ∷ m) = copy_into (assign k a c) m

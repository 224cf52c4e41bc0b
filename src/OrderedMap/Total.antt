-- ===== src/OrderedMap/Total.antt =====
-- A sum over the entries of a map, by any weight, under the operations that change the map.
use cs61_f23_psets_tomkhe.Prelude.{ℕ, ◌+◌, ◌≤◌, ◌≡◌, none, some, List, [], ◌∷◌, arith}
use cs61_f23_psets_tomkhe.OrderedMap.{find, insert, erase, assign}

module _ {ℓ} {V : Type ℓ} (w : ℕ → V → ℕ) where
  unfoldable pub total : List (ℕ × V) → ℕ
  total [] = 0
  total ((k, v) ∷ m) = w k v + total m

  pub total-insert :
      (k : ℕ) (v : V) (m : List (ℕ × V)) → find k m ≡ none → total (insert k v m) ≡ total m + w k v
  unfolding total find insert
  total-insert k v [] h = omega arith
  total-insert k v ((j, u) ∷ m) h = ground (arith, total-insert k v m)

  pub total-erase :
      (k : ℕ) (v : V) (m : List (ℕ × V)) → find k m ≡ some v → total (erase k m) + w k v ≡ total m
  unfolding total find erase
  total-erase k v [] h = ground arith
  total-erase k v ((j, u) ∷ m) h = ground (arith, total-erase k v m)

  pub total-assign :
      (k : ℕ) (u v : V) (m : List (ℕ × V))
      → find k m ≡ some u
      → total (assign k v m) + w k u ≡ total m + w k v
  unfolding total find assign
  total-assign k u v [] h = ground arith
  total-assign k u v ((j, x) ∷ m) h = ground (arith, total-assign k u v m)

  pub weight-le-total : (k : ℕ) (v : V) (m : List (ℕ × V)) → find k m ≡ some v → w k v ≤ total m
  unfolding total find
  weight-le-total k v [] h = ground arith
  weight-le-total k v ((j, u) ∷ m) h = ground (arith, weight-le-total k v m)

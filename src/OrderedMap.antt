-- ===== src/OrderedMap.antt =====
-- `std::map` with `size_t` keys (and `std::set`, as a map to the unit type), as pset1/m61.cc uses
-- it: a list of entries in ascending key order. `insert` keeps the entry of a key that is there.
pub mod Total
pub mod Sorted
pub mod All
use cs61_f23_psets_tomkhe.Prelude.{
  ℕ, suc, ◌≤◌, Option, none, some, List, [], ◌∷◌, ◌≡◌, ltb, ◌==◌, if◌then◌else◌,
}

module _ {ℓ} {V : Type ℓ} where
  unfoldable pub find : ℕ → List (ℕ × V) → Option V
  find k [] = none
  find k ((j, v) ∷ m) = if j == k then some v else find k m

  unfoldable pub insert : ℕ → V → List (ℕ × V) → List (ℕ × V)
  insert k v [] = (k, v) ∷ []
  insert k v ((j, w) ∷ m) =
      if ltb k j then (k, v) ∷ (j, w) ∷ m else if k == j then (j, w) ∷ m else (j, w) ∷ insert k v m

  unfoldable pub erase : ℕ → List (ℕ × V) → List (ℕ × V)
  erase k [] = []
  erase k ((j, v) ∷ m) = if j == k then m else (j, v) ∷ erase k m

  -- `it->second = v` through an iterator at key `k`
  unfoldable pub assign : ℕ → V → List (ℕ × V) → List (ℕ × V)
  assign k v [] = []
  assign k v ((j, w) ∷ m) = if j == k then (j, v) ∷ m else (j, w) ∷ assign k v m

  -- `upper_bound(k)`: the first entry with a larger key
  unfoldable pub upper_bound : ℕ → List (ℕ × V) → Option (ℕ × V)
  upper_bound k [] = none
  upper_bound k ((j, v) ∷ m) = if ltb k j then some (j, v) else upper_bound k m

  abbrev or_entry : ℕ × V → Option (ℕ × V) → Option (ℕ × V)
  or_entry e none = some e
  or_entry e (some d) = some d

  -- The entry that `--it` reaches from the first entry whose key is not below `k`; `none` is a
  -- step back from `begin()`.
  unfoldable pub before : ℕ → List (ℕ × V) → Option (ℕ × V)
  before k [] = none
  before k ((j, v) ∷ m) = if ltb j k then or_entry (j, v) (before k m) else none

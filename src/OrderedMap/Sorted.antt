-- ===== src/OrderedMap/Sorted.antt =====
-- Entries in ascending order, and what the searches return on them.
use cs61_f23_psets_tomkhe.Prelude.{
  ℕ, suc, ◌≤◌, ◌<◌, ◌≡◌, ◌≢◌, refl, none, some, List, [], ◌∷◌, arith,
}
use cs61_f23_psets_tomkhe.OrderedMap.{find, insert, erase, assign, upper_bound, before}

module _ {ℓ} {V : Type ℓ} where
  -- Every key is at least the bound, and keys rise.
  abbrev pub IsSorted : ℕ → List (ℕ × V) → Type 0
  IsSorted b [] = Unit {0}
  IsSorted b ((k, v) ∷ m) = (b ≤ k) × IsSorted (suc k) m

  pub IsSorted-mono : {a b : ℕ} (m : List (ℕ × V)) → a ≤ b → IsSorted b m → IsSorted a m
  IsSorted-mono [] h s = tt
  IsSorted-mono ((k, v) ∷ m) h s = (omega arith, s.1)

  pub find-below : (k b : ℕ) (m : List (ℕ × V)) → k < b → IsSorted b m → find k m ≡ none
  unfolding find
  find-below k b [] h s = refl
  find-below k b ((j, v) ∷ m) h s = ground (arith, find-below k (suc j) m)

  pub insert-IsSorted :
      (k b : ℕ) (v : V) (m : List (ℕ × V)) → b ≤ k → IsSorted b m → IsSorted b (insert k v m)
  unfolding insert
  insert-IsSorted k b v [] h s = (h, tt)
  insert-IsSorted k b v ((j, w) ∷ m) h s = ground (arith, insert-IsSorted k (suc j) v m)

  pub erase-IsSorted : (k b : ℕ) (m : List (ℕ × V)) → IsSorted b m → IsSorted b (erase k m)
  unfolding erase
  erase-IsSorted k b [] s = tt
  erase-IsSorted k b ((j, w) ∷ m) s =
      ground (arith, erase-IsSorted k (suc j) m, IsSorted-mono {a = b} {b = suc j} m)

  pub assign-IsSorted :
      (k b : ℕ) (v : V) (m : List (ℕ × V)) → IsSorted b m → IsSorted b (assign k v m)
  unfolding assign
  assign-IsSorted k b v [] s = tt
  assign-IsSorted k b v ((j, w) ∷ m) s = ground (arith, assign-IsSorted k (suc j) v m)

  pub find-erase : (k b : ℕ) (m : List (ℕ × V)) → IsSorted b m → find k (erase k m) ≡ none
  unfolding find erase
  find-erase k b [] s = refl
  find-erase k b ((j, w) ∷ m) s = ground (arith, find-erase k (suc j) m, find-below k (suc j) m)

  pub find-erase_ne : (k j : ℕ) (m : List (ℕ × V)) → k ≢ j → find k (erase j m) ≡ find k m
  unfolding find erase
  find-erase_ne k j [] h = refl
  find-erase_ne k j ((i, w) ∷ m) h = ground (arith, find-erase_ne k j m)

  pub find-insert :
      (k : ℕ) (v : V) (m : List (ℕ × V)) → find k m ≡ none → find k (insert k v m) ≡ some v
  unfolding find insert
  find-insert k v [] h = ground arith
  find-insert k v ((j, w) ∷ m) h = ground (arith, find-insert k v m)

  pub find-insert_ne :
      (k j : ℕ) (v : V) (m : List (ℕ × V)) → k ≢ j → find k (insert j v m) ≡ find k m
  unfolding find insert
  find-insert_ne k j v [] h = ground arith
  find-insert_ne k j v ((i, w) ∷ m) h = ground (arith, find-insert_ne k j v m)

  pub find-assign :
      (k : ℕ) (u v : V) (m : List (ℕ × V)) → find k m ≡ some u → find k (assign k v m) ≡ some v
  unfolding find assign
  find-assign k u v [] h = ground arith
  find-assign k u v ((j, w) ∷ m) h = ground (arith, find-assign k u v m)

  pub find-assign_ne :
      (k j : ℕ) (v : V) (m : List (ℕ × V)) → k ≢ j → find k (assign j v m) ≡ find k m
  unfolding find assign
  find-assign_ne k j v [] h = refl
  find-assign_ne k j v ((i, w) ∷ m) h = ground (arith, find-assign_ne k j v m)

  pub upper_bound-find :
      (k j : ℕ) (v : V) (m : List (ℕ × V))
      → upper_bound k m ≡ some (j, v)
      → (k < j) × (find j m ≡ some v)
  unfolding find upper_bound
  upper_bound-find k j v [] h = ground arith
  upper_bound-find k j v ((i, w) ∷ m) h = ground (arith, upper_bound-find k j v m)

  pub before-find :
      (k b j : ℕ) (v : V) (m : List (ℕ × V))
      → IsSorted b m
      → before k m ≡ some (j, v)
      → (b ≤ j) × (j < k) × (find j m ≡ some v)
  unfolding find before
  before-find k b j v [] s h = ground arith
  before-find k b j v ((i, w) ∷ m) s h = ground (arith, before-find k (suc i) j v m)

  pub erase-insert :
      (k : ℕ) (v : V) (m : List (ℕ × V)) → find k m ≡ none → erase k (insert k v m) ≡ m
  unfolding find insert erase
  erase-insert k v [] h = ground arith
  erase-insert k v ((j, w) ∷ m) h = ground (arith, erase-insert k v m)

-- `std::set::insert`
pub find-insert_set : (k : ℕ) (m : List (ℕ × Unit {0})) → find k (insert k tt m) ≡ some tt
unfolding find insert
find-insert_set k [] = ground arith
find-insert_set k ((j, u) ∷ m) = ground (arith, find-insert_set k m)

-- ===== src/OrderedMap/All.antt =====
-- A property of every entry of a map, under the operations that change the map.
use mathlib.Core.Path.{subst, subst₂}
use cs61_f23_psets_tomkhe.Prelude.{
  ℕ, ◌≤◌, ◌≡◌, sym, inl, inr, some, List, [], ◌∷◌, arith, ◌==◌, ==_iff, Bool-cases,
}
use cs61_f23_psets_tomkhe.OrderedMap.{find, insert, erase, assign}
use cs61_f23_psets_tomkhe.OrderedMap.Total.{total}

module _ {ℓ} {V : Type ℓ} (P : ℕ → V → Type 0) where
  abbrev pub All : List (ℕ × V) → Type 0
  All [] = Unit {0}
  All ((k, v) ∷ m) = P k v × All m

  pub insert-All : (k : ℕ) (v : V) (m : List (ℕ × V)) → P k v → All m → All (insert k v m)
  unfolding insert
  insert-All k v [] p a = (p, tt)
  insert-All k v ((j, w) ∷ m) p a = ground (arith, insert-All k v m p a.1)

  pub erase-All : (k : ℕ) (m : List (ℕ × V)) → All m → All (erase k m)
  unfolding erase
  erase-All k [] a = tt
  erase-All k ((j, w) ∷ m) a = ground (arith, erase-All k m a.1)

  pub assign-All : (k : ℕ) (v : V) (m : List (ℕ × V)) → P k v → All m → All (assign k v m)
  unfolding assign
  assign-All k v [] p a = tt
  assign-All k v ((j, w) ∷ m) p a = elim (Bool-cases (j == k)) [
    | inl e ↦ rw e (subst (λ (i : ℕ). P i v) (sym ((==_iff j k).0 e)) p, a.1)
    | inr e ↦ rw e (a.0, assign-All k v m p a.1)
  ]

  pub find-All : (k : ℕ) (v : V) (m : List (ℕ × V)) → find k m ≡ some v → All m → P k v
  unfolding find
  find-All k v [] h a = cc
  find-All k v ((j, w) ∷ m) h a = elim (Bool-cases (j == k)) [
    | inl e ↦
        let h' : some w ≡ some v = rw e at h in
        let same : w ≡ v = cc in subst₂ P ((==_iff j k).0 e) same a.0
    | inr e ↦ find-All k v m (rw e at h) a.1
  ]

module _ {ℓ} {V : Type ℓ} (P : ℕ → V → Type 0) (w u : ℕ → V → ℕ) where
  pub total_mono :
      (m : List (ℕ × V))
      → ((k : ℕ) (v : V) → P k v → w k v ≤ u k v)
      → All P m
      → total w m ≤ total u m
  unfolding total
  total_mono [] h a = omega arith
  total_mono ((k, v) ∷ m) h a = omega (arith, h k v a.0, total_mono m h a.1)

-- ===== src/Io61/Locks/Chunks.antt =====
-- The chunks that a region of pset4/io61.cc spans, and what locking and unlocking do to each.
use native.Mathlib.Nat.{mul-le-mul_right}
use cs61_f23_psets_tomkhe.Prelude.{
  ℕ, zero, suc, ◌+◌, ◌-◌, ◌*◌, ◌/◌, ◌≤◌, ◌<◌, ◌≡◌, refl, ◌⊎◌, inl, inr, Bool, true, false, ◌&&◌,
  some, List, [], ◌∷◌, arith, ltb, leb, ◌==◌, ==_iff, Bool-cases,
}
use cs61_f23_psets_tomkhe.Io61.Locks.{
  nchunks, File, Status, finished, chunks, is_overlap, set_chunk, lock_chunk, lock_region,
  unlock_region,
}

-- The bytes `start` to `stop` meet chunk `j`.
abbrev pub spans : ℕ → ℕ → ℕ → ℕ → Bool
spans c start stop j = leb (start / c) j && ltb (j * c) stop

abbrev pub bit : Bool → ℕ
bit true = 1
bit false = 0

unfoldable pub occurs : ℕ → List ℕ → ℕ
occurs j [] = 0
occurs j (i ∷ is) = bit (i == j) + occurs j is

mul_one_le : (i c : ℕ) → 0 < c → i ≤ i * c
mul_one_le i zero pos = elim pos [ ]
mul_one_le i (suc c) pos = omega arith

pub occurs-chunks :
    (fuel i c stop j : ℕ)
    → 0 < c
    → stop ≤ i + fuel
    → occurs j (chunks fuel i c stop) ≡ bit (leb i j && ltb (j * c) stop)
unfolding occurs chunks
occurs-chunks zero i c stop j pos enough =
    let above : i ≤ j → i * c ≤ j * c = λ h. mul-le-mul_right c h in
    ground (arith, above, mul_one_le i c pos)
occurs-chunks (suc fuel) i c stop j pos enough = elim (Bool-cases (ltb (i * c) stop)) [
  | inl more ↦
      rw (occurs, more)
        (ground (arith, occurs-chunks fuel (i + 1) c stop j pos (omega arith), ==_iff i j))
  | inr done ↦
      let above : i ≤ j → i * c ≤ j * c = λ h. mul-le-mul_right c h in
      rw (occurs, done) (ground (arith, above))
]

pub lock_region-Locked :
    (me : ℕ) (is : List ℕ) (f g : File) (s : Status)
    → lock_region me is f ≡ finished s g
    → (g.chunk_sz ≡ f.chunk_sz)
      × ((j : ℕ)
          → (g.nlocked j ≡ f.nlocked j + occurs j is)
            × (((0 < occurs j is) × (g.owner j ≡ me))
                ⊎ ((occurs j is ≡ 0) × (g.owner j ≡ f.owner j))))
unfolding lock_region occurs
lock_region-Locked me [] f g s e =
    let same : f ≡ g = cc in rw (← same) (refl, λ j. (omega arith, inr (refl, refl)))
lock_region-Locked me (i ∷ is) f g s e =
    let rest = lock_region-Locked me is (lock_chunk me i f) g s (ground arith) in
    (rest.0, λ j. ground (arith, rest.1 j, ==_iff i j, ==_iff j i))

pub unlock_region-Unlocked :
    (me : ℕ) (is : List ℕ) (f g : File) (s : Status)
    → unlock_region me is f ≡ finished s g
    → (g.chunk_sz ≡ f.chunk_sz)
      × ((j : ℕ) → (g.nlocked j + occurs j is ≡ f.nlocked j) × (g.owner j ≡ f.owner j))
unfolding unlock_region occurs
unlock_region-Unlocked me [] f g s e =
    let same : f ≡ g = cc in rw (← same) (refl, λ j. (omega arith, refl))
unlock_region-Unlocked me (i ∷ is) f g s e =
    let rest =
      unlock_region-Unlocked me is (record f { nlocked = set_chunk i (f.nlocked i - 1) f.nlocked })
        g s (ground arith) in
    (rest.0, λ j. ground (arith, rest.1 j, ==_iff i j, ==_iff j i))

pub lock_region-InRange :
    (me : ℕ) (is : List ℕ) (f g : File) (s : Status) (j : ℕ)
    → lock_region me is f ≡ finished s g
    → (occurs j is ≡ 0) ⊎ (j < nchunks)
unfolding lock_region occurs
lock_region-InRange me [] f g s j e = inl refl
lock_region-InRange me (i ∷ is) f g s j e =
    ground (arith, lock_region-InRange me is (lock_chunk me i f) g s j, ==_iff i j)

-- What `is_overlap` looks for: no chunk of the region is another thread's.
pub no_overlap :
    (me : ℕ) (is : List ℕ) (f : File) (j : ℕ)
    → is_overlap me is f ≡ some false
    → (occurs j is ≡ 0) ⊎ (f.nlocked j ≡ 0) ⊎ (f.owner j ≡ me)
unfolding is_overlap occurs
no_overlap me [] f j e = inl refl
no_overlap me (i ∷ is) f j e =
    ground (arith, no_overlap me is f j, ==_iff i j, ==_iff (f.nlocked i) 0, ==_iff (f.owner i) me)

-- ===== src/M61/Blocks.antt =====
-- The block that `m61_malloc` of pset1/m61.cc takes: where it is found, how large it gets, and
-- what stays free.
use cs61_f23_psets_tomkhe.Prelude.{
  ℕ, suc, ◌+◌, ◌-◌, ◌≤◌, ◌<◌, ◌≡◌, inl, inr, none, some, List, [], ◌∷◌, arith, ltb, Bool-cases,
  false, ltb→lt, ap,
}
use cs61_f23_psets_tomkhe.OrderedMap.{find, erase}
use cs61_f23_psets_tomkhe.OrderedMap.Total.{total, total-insert, total-erase}
use cs61_f23_psets_tomkhe.OrderedMap.Sorted.{IsSorted, insert-IsSorted, erase-IsSorted}
use cs61_f23_psets_tomkhe.OrderedMap.All.{insert-All, erase-All}
use cs61_f23_psets_tomkhe.M61.State.{size}
use cs61_f23_psets_tomkhe.M61.Malloc.{padding, zero_padding, first_fit, search_block, shrink_block}
use cs61_f23_psets_tomkhe.M61.Coalesce.{IsBlock, IsBlockMap, IsAdditive}

-- What the search returns is an entry of the map that is large enough.
first_fit-find :
    (need b start n : ℕ) (m : List (ℕ × ℕ))
    → IsSorted b m
    → first_fit need m ≡ some (start, n)
    → (b ≤ start) × (find start m ≡ some n) × (need ≤ n)
unfolding first_fit find
first_fit-find need b start n [] s h = cc
first_fit-find need b start n ((j, k) ∷ m) s h =
    ground (arith, first_fit-find need (suc j) start n m)

pub search_block-find :
    (sz start n : ℕ) (m : List (ℕ × ℕ))
    → IsSorted 0 m
    → search_block sz m ≡ some (start, n)
    → (sz < size) × (find start m ≡ some n) × (sz + zero_padding sz ≤ n)
unfolding search_block
search_block-find sz start n m s h =
    ground (arith, first_fit-find (sz + zero_padding sz) 0 start n m s)

-- The padding fills the block up to the alignment, is at least one byte and at most 16, and fits
-- into the free block found.
pub padding-IsBlock :
    (sz start n : ℕ)
    → IsBlock start n
    → sz + zero_padding sz ≤ n
    → IsBlock start (sz + padding start sz)
      × (0 < padding start sz)
      × (padding start sz ≤ 16)
      × (sz + padding start sz ≤ n)
unfolding padding
padding-IsBlock sz start n b h = ground arith

pub shrink_block-total :
    (w : ℕ → ℕ → ℕ)
    → IsAdditive w
    → (start n used : ℕ) (m : List (ℕ × ℕ)) → find start m ≡ some n
    → used ≤ n
    → 0 < used
    → (used < n → find (start + used) (erase start m) ≡ none)
    → total w (shrink_block start n used m) + w start used ≡ total w m
unfolding shrink_block
shrink_block-total w add start n used m f le pos free =
    elim (Bool-cases (ltb (start + used) (start + n))) [
      | inl part ↦ rw part (
          omega (
            arith,
            total-insert w (start + used) (start + n - (start + used)) (erase start m)
                (free (inside (ltb→lt _ _ part))),
            total-erase w start n m f,
            add start used (start + used) (start + n - (start + used)) (omega arith),
            ap (w start) (split (ltb→lt _ _ part)),
          ))
      | inr whole ↦ rw whole (omega (arith, total-erase w start n m f, ap (w start) (exact whole)))
    ]
  where
    inside : start + used < start + n → used < n
    inside h = omega arith

    split : start + used < start + n → used + (start + n - (start + used)) ≡ n
    split h = omega arith

    exact : ltb (start + used) (start + n) ≡ false → used ≡ n
    exact h = ground arith

pub shrink_block-IsBlockMap :
    (start n used : ℕ) (m : List (ℕ × ℕ))
    → IsBlock start n
    → IsBlock start used
    → IsBlockMap m
    → IsBlockMap (shrink_block start n used m)
unfolding shrink_block
shrink_block-IsBlockMap start n used m b u h = elim (Bool-cases (ltb (start + used) (start + n))) [
  | inl part ↦ rw part (record {
    sorted = insert-IsSorted (start + used) 0 _ _ (omega arith) rest.sorted;
    blocks = insert-All IsBlock (start + used) _ _ (left (ltb→lt _ _ part)) rest.blocks;
  })
  | inr whole ↦ rw whole rest
]
  where
    rest : IsBlockMap (erase start m)
    rest = record {
      sorted = erase-IsSorted start 0 m h.sorted;
      blocks = erase-All IsBlock start m h.blocks;
    }

    left : start + used < start + n → IsBlock (start + used) (start + n - (start + used))
    left p = omega arith

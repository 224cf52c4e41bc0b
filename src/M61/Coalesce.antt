-- ===== src/M61/Coalesce.antt =====
-- What the list operations of `m61_malloc` and `m61_free` do to the free blocks of
-- pset1/m61.cc: any additive weight of the blocks is kept, and so are order and alignment.
use cs61_f23_psets_tomkhe.Prelude.{
  ℕ, ◌+◌, ◌-◌, ◌%◌, ◌<◌, ◌≡◌, ◌∙◌, inl, inr, none, some, List, arith, ◌==◌, Bool-cases,
  Option-cases,
}
use cs61_f23_psets_tomkhe.OrderedMap.{find, erase, assign, upper_bound, before}
use cs61_f23_psets_tomkhe.OrderedMap.Total.{total, total-insert, total-erase, total-assign}
use cs61_f23_psets_tomkhe.OrderedMap.Sorted.{
  IsSorted, insert-IsSorted, erase-IsSorted, assign-IsSorted, find-erase_ne, find-insert,
  find-assign, find-assign_ne, upper_bound-find, before-find,
}
use cs61_f23_psets_tomkhe.OrderedMap.All.{All, insert-All, erase-All, assign-All, find-All}
use cs61_f23_psets_tomkhe.M61.Free.{merge_right, merge_left, coalesce}

-- Blocks start at multiples of the alignment, and their sizes are positive multiples of it.
pub record IsBlock (start n : ℕ) : Type 0 where
  pub start_aligned : start % 16 ≡ 0
  pub size_aligned : n % 16 ≡ 0
  pub nonempty : 0 < n

IsBlock-join : (a n b m : ℕ) → b ≡ a + n → IsBlock a n → IsBlock b m → IsBlock a (n + m)
IsBlock-join a n b m e p q = omega arith

pub record IsBlockMap (m : List (ℕ × ℕ)) : Type 0 where
  pub sorted : IsSorted 0 m
  pub blocks : All IsBlock m

-- Two adjacent blocks weigh as much as the block of both.
abbrev pub IsAdditive : (ℕ → ℕ → ℕ) → Type 0
IsAdditive w = (a n b m : ℕ) → b ≡ a + n → w a (n + m) ≡ w a n + w b m

joined-IsBlockMap :
    (start n right r : ℕ) (m : List (ℕ × ℕ))
    → right ≡ start + n
    → find start m ≡ some n
    → find right m ≡ some r
    → IsBlockMap m
    → IsBlockMap (erase right (assign start (n + r) m))
joined-IsBlockMap start n right r m eq e f b = record {
  sorted = erase-IsSorted right 0 _ (assign-IsSorted start 0 (n + r) m b.sorted);
  blocks = erase-All IsBlock right _ (
      assign-All IsBlock start (n + r) m
        (IsBlock-join start n right r eq (find-All IsBlock start n m e b.blocks)
          (find-All IsBlock right r m f b.blocks))
        b.blocks);
}

module _ (w : ℕ → ℕ → ℕ) (additive : IsAdditive w) where
  -- The block at `start` is in the map, and the map weighs `t`.
  record Holds (start t : ℕ) (p : ℕ × List (ℕ × ℕ)) : Type 0 where
    entry : find start p.1 ≡ some p.0
    weight : total w p.1 ≡ t
    map : IsBlockMap p.1

  joined-Holds :
      (start n right r t : ℕ) (m : List (ℕ × ℕ))
      → right ≡ start + n
      → start < right
      → find right m ≡ some r
      → Holds start t (n, m)
      → Holds start t (n + r, erase right (assign start (n + r) m))
  joined-Holds start n right r t m eq lt f h = record {
    entry =
        ground (
          arith,
          find-erase_ne start right (assign start (n + r) m),
          find-assign start n (n + r) m,
        );
    weight = omega (
      arith,
      additive start n right r eq,
      h.weight,
      total-assign w start n (n + r) m h.entry,
      total-erase w right r (assign start (n + r) m)
          (find-assign_ne right start (n + r) m (omega arith) ∙ f),
    );
    map = joined-IsBlockMap start n right r m eq h.entry f h.map;
  }

  merge_right-Holds :
      (start n t : ℕ) (m : List (ℕ × ℕ))
      → Holds start t (n, m)
      → Holds start t (merge_right start n m)
  unfolding merge_right
  merge_right-Holds start n t m h = elim (Option-cases (upper_bound start m)) [
    | inl e ↦ rw (e, merge_right) h
    | inr ((right, r), e) ↦
        let (lt, f) = upper_bound-find start right r m e in
        rw (e, merge_right) (ground (arith, joined-Holds start n right r t m, lt, f, h))
  ]

  merge_left-Holds :
      (start t : ℕ) (p : ℕ × List (ℕ × ℕ))
      → Holds start t p
      → (total w (merge_left start p) ≡ t) × IsBlockMap (merge_left start p)
  unfolding merge_left
  merge_left-Holds start t (n, m) h = elim (Option-cases (before start m)) [
    | inl e ↦ rw (e, merge_left) (h.weight, h.map)
    | inr ((left, l), e) ↦
        let (ge, lt, f) = before-find start 0 left l m h.map.sorted e in
        let at_left : Holds left t (l, m) = record { entry = f; weight = h.weight; map = h.map } in
        rw (e, merge_left)
          (elim (Bool-cases (l == start - left)) [
            | inl near ↦
                let joined = joined-Holds left l start n t m (ground arith) lt h.entry at_left in
                rw near (joined.weight, joined.map)
            | inr far ↦ rw far (h.weight, h.map)
          ])
  ]

  -- Freeing adds the freed block's weight to the map, whatever is joined.
  pub coalesce-total :
      (start n : ℕ) (m : List (ℕ × ℕ))
      → find start m ≡ none
      → IsBlock start n
      → IsBlockMap m
      → (total w (coalesce start n m) ≡ total w m + w start n) × IsBlockMap (coalesce start n m)
  unfolding coalesce
  coalesce-total start n m e b h = merge_left-Holds start _ _ (
      merge_right-Holds start n _ _ (record {
        entry = find-insert start n m e;
        weight = total-insert w start n m e;
        map = record {
          sorted = insert-IsSorted start 0 n m (omega arith) h.sorted;
          blocks = insert-All IsBlock start n m b h.blocks;
        };
      }))

-- ===== src/M61/Preserve/Tiling.antt =====
-- What the tiling of the buffer says of single blocks of pset1/m61.cc.
use cs61_f23_psets_tomkhe.Prelude.{
  ℕ, ◌+◌, ◌≤◌, ◌<◌, ◌≡◌, ◌⊎◌, inl, inr, none, some, arith, Option-cases, sym, ◌∙◌, ◌-◌,
}
use cs61_f23_psets_tomkhe.OrderedMap.{find, erase}
use cs61_f23_psets_tomkhe.OrderedMap.Total.{total, total-erase, weight-le-total}
use cs61_f23_psets_tomkhe.OrderedMap.Sorted.{find-erase_ne}
use cs61_f23_psets_tomkhe.OrderedMap.All.{find-All, total_mono}
use cs61_f23_psets_tomkhe.M61.State.{size, Metadata, Heap}
use cs61_f23_psets_tomkhe.M61.Coalesce.{IsBlock}
use cs61_f23_psets_tomkhe.M61.Invariant.{
  covers, bytes, of_block, requested, one, IsActiveBlock, IsWellFormed,
}

covers_le_one : (x start n : ℕ) → covers x start n ≤ 1
covers_le_one x start n = ground arith

covers_self : (start n : ℕ) → 0 < n → covers start start n ≡ 1
covers_self start n h = ground arith

covers_in : (start n k : ℕ) → k < n → covers (start + k) start n ≡ 1
covers_in start n k h = ground arith

covers_end : (x start n : ℕ) → 0 < n → start + n ≡ x + 1 → covers x start n ≡ 1
covers_end x start n h e = ground arith

covers-size : (x : ℕ) → covers x 0 size ≡ 1 → x < size
covers-size x h = ground arith

module _ (s : Heap) (v : IsWellFormed s) where
  -- No block is both active and free.
  active_and_free :
      (start n : ℕ) (d : Metadata)
      → find start s.free_blocks ≡ some n
      → find start s.allocated_blocks ≡ some d
      → ⊥
  active_and_free start n d f a = omega (
    arith,
    covers_self start n (find-All IsBlock start n _ f v.free_map.blocks).nonempty,
    covers_self start (d.sz + d.alignment_sz)
        (find-All IsActiveBlock start d _ a v.active_blocks).nonempty,
    weight-le-total (covers start) start n _ f,
    weight-le-total (of_block (covers start)) start d _ a,
    covers_le_one start 0 size,
    v.tiling start,
  )

  pub active_of_free :
      (start n : ℕ) → find start s.free_blocks ≡ some n → find start s.allocated_blocks ≡ none
  active_of_free start n f = elim (Option-cases (find start s.allocated_blocks)) [
    | inl e ↦ e
    | inr (d, e) ↦ absurd (active_and_free start n d f e)
  ]

  pub free_of_active :
      (start : ℕ) (d : Metadata)
      → find start s.allocated_blocks ≡ some d
      → find start s.free_blocks ≡ none
  free_of_active start d a = elim (Option-cases (find start s.free_blocks)) [
    | inl e ↦ e
    | inr (n, e) ↦ absurd (active_and_free start n d e a)
  ]

  -- No free block starts inside another one.
  pub free_inside :
      (start n used : ℕ)
      → find start s.free_blocks ≡ some n
      → 0 < used
      → used < n
      → find (start + used) (erase start s.free_blocks) ≡ none
  free_inside start n used f pos lt =
      elim (Option-cases (find (start + used) (erase start s.free_blocks))) [
        | inl e ↦ e
        | inr (k, e) ↦ absurd (
            omega (
              arith,
              covers_in start n used lt,
              covers_self (start + used) k (nonempty k e),
              total-erase (covers (start + used)) start n _ f,
              weight-le-total (covers (start + used)) (start + used) k _ e,
              covers_le_one (start + used) 0 size,
              v.tiling (start + used),
            ))
      ]
    where
      nonempty : (k : ℕ) → find (start + used) (erase start s.free_blocks) ≡ some k → 0 < k
      nonempty k e =
          (find-All IsBlock (start + used) k _
            (sym (find-erase_ne (start + used) start s.free_blocks (omega arith)) ∙ e)
            v.free_map.blocks).nonempty

  last_in_buffer :
      (start n : ℕ)
      → 0 < n
      → covers (start + n - 1) start n
        ≤ total (covers (start + n - 1)) s.free_blocks
          + total (of_block (covers (start + n - 1))) s.allocated_blocks
      → start + n ≤ size
  last_in_buffer start n pos h = omega (
    arith,
    covers-size (start + n - 1) (
        omega (
          arith,
          covers_end (start + n - 1) start n pos (omega arith),
          covers_le_one (start + n - 1) 0 size,
          v.tiling (start + n - 1),
        )),
  )

  -- Active and free blocks lie in the buffer.
  pub active_bounds :
      (start : ℕ) (d : Metadata)
      → find start s.allocated_blocks ≡ some d
      → IsActiveBlock start d × (start + (d.sz + d.alignment_sz) ≤ size)
  active_bounds start d a =
      let block = find-All IsActiveBlock start d _ a v.active_blocks in
      (
        block,
        last_in_buffer start (d.sz + d.alignment_sz) block.nonempty (
            omega (
              arith,
              weight-le-total (of_block (covers (start + (d.sz + d.alignment_sz) - 1))) start d _ a,
            )),
      )

  pub free_bounds :
      (start n : ℕ) → find start s.free_blocks ≡ some n → IsBlock start n × (start + n ≤ size)
  free_bounds start n f =
      let block = find-All IsBlock start n _ f v.free_map.blocks in
      (
        block,
        last_in_buffer start n block.nonempty
            (omega (arith, weight-le-total (covers (start + n - 1)) start n _ f)),
      )

  -- An active block and a free one share no byte.
  share_no_byte :
      (x start n k : ℕ) (d : Metadata)
      → find start s.free_blocks ≡ some n
      → find k s.allocated_blocks ≡ some d
      → covers x start n + covers x k (d.sz + d.alignment_sz) ≤ 1
  share_no_byte x start n k d f a = omega (
    arith,
    weight-le-total (covers x) start n _ f,
    weight-le-total (of_block (covers x)) k d _ a,
    covers_le_one x 0 size,
    v.tiling x,
  )

  pub active_free_disjoint :
      (start n k : ℕ) (d : Metadata)
      → find start s.free_blocks ≡ some n
      → find k s.allocated_blocks ≡ some d
      → (start + n ≤ k) ⊎ (k + (d.sz + d.alignment_sz) ≤ start)
  active_free_disjoint start n k d f a = ground (
    arith,
    share_no_byte start start n k d f a,
    share_no_byte k start n k d f a,
    (find-All IsBlock start n _ f v.free_map.blocks).nonempty,
    (active_bounds k d a).0.nonempty,
  )

  -- The counters stay far below the width of a word.
  pub counters_bound :
      (total one s.allocated_blocks ≤ size) × (total requested s.allocated_blocks ≤ size)
  counters_bound = (
    omega (
      arith,
      v.space,
      total_mono IsActiveBlock one (of_block bytes) _ (λ k d b. b.nonempty) v.active_blocks,
    ),
    omega (
      arith,
      v.space,
      total_mono IsActiveBlock requested (of_block bytes) _ (λ k d b. omega arith) v.active_blocks,
    ),
  )

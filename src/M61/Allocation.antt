-- ===== src/M61/Allocation.antt =====
-- What a call of `m61_malloc` or `m61_calloc` (pset1/m61.cc) returns, and what it leaves alone.
use Prim.Native.String.{String}
use cs61_f23_psets_tomkhe.Prelude.{
  ℕ, ◌+◌, ◌%◌, ◌≤◌, ◌<◌, ◌≡◌, refl, ap, ◌∙◌, ◌≢◌, ◌↔◌, ◌⊎◌, inl, inr, none, some, List, [], ◌∷◌,
  arith, leb, Bool-cases, Option-cases,
}
use cs61_f23_psets_tomkhe.OrderedMap.{find}
use cs61_f23_psets_tomkhe.OrderedMap.Sorted.{find-insert, find-insert_ne}
use cs61_f23_psets_tomkhe.OrderedMap.All.{All, find-All}
use cs61_f23_psets_tomkhe.M61.State.{size, Metadata, Heap, itop, ptoi}
use cs61_f23_psets_tomkhe.M61.Malloc.{
  padding, zero_padding, first_fit, search_block, count_failure, claim, m61_malloc,
}
use cs61_f23_psets_tomkhe.M61.Coalesce.{IsBlock}
use cs61_f23_psets_tomkhe.M61.Blocks.{search_block-find, padding-IsBlock}
use cs61_f23_psets_tomkhe.M61.Invariant.{IsWellFormed}
use cs61_f23_psets_tomkhe.M61.Preserve.Tiling.{active_of_free, free_bounds, active_free_disjoint}

-- The entry point for every theorem on a successful call.
pub malloc_some :
    (sz start n : ℕ) (file : String) (line : ℕ) (s : Heap)
    → search_block sz s.free_blocks ≡ some (start, n)
    → m61_malloc sz file line s
      ≡ (itop s start, claim sz line start n (record s { curr_file = file }))
unfolding m61_malloc
malloc_some sz start n file line s e = rw (e, m61_malloc)

pub malloc_none :
    (sz : ℕ) (file : String) (line : ℕ) (s : Heap)
    → search_block sz s.free_blocks ≡ none
    → m61_malloc sz file line s
      ≡ (0, record s { curr_file = file; stats = count_failure sz s.stats })
unfolding m61_malloc
malloc_none sz file line s e = rw (e, m61_malloc)

pub malloc_base :
    (sz : ℕ) (file : String) (line : ℕ) (s : Heap) → (m61_malloc sz file line s).1.base ≡ s.base
unfolding m61_malloc claim
malloc_base sz file line s = ground arith

-- `p` points to a new block of `sz` bytes: `s` is the state before, and `t` the one after.
pub record Fresh (sz line p : ℕ) (s t : Heap) : Type 0 where
  pub in_buffer : ptoi s p + sz ≤ size
  pub aligned : p % 16 ≡ 0
  pub recorded :
      (d : Metadata) × (find (ptoi s p) t.allocated_blocks ≡ some d)
      × (d.sz ≡ sz)
      × (d.line_allocated ≡ line)
  pub apart :
      (k : ℕ) (d : Metadata)
      → find k s.allocated_blocks ≡ some d
      → (ptoi s p + sz ≤ k) ⊎ (k + (d.sz + d.alignment_sz) ≤ ptoi s p)
  pub others_kept :
      (k : ℕ) (d : Metadata)
      → find k s.allocated_blocks ≡ some d
      → find k t.allocated_blocks ≡ some d
  pub contents_kept :
      (k x : ℕ) (d : Metadata)
      → find k s.allocated_blocks ≡ some d
      → k ≤ x
      → x < k + (d.sz + d.alignment_sz)
      → t.mem x ≡ s.mem x

module _ (sz start n : ℕ) (file : String) (line : ℕ) (s : Heap) (v : IsWellFormed s)
    (e : search_block sz s.free_blocks ≡ some (start, n)) where
  pub found : (sz < size) × (find start s.free_blocks ≡ some n) × (sz + zero_padding sz ≤ n)
  found = search_block-find sz start n s.free_blocks v.free_map.sorted e

  block : IsBlock start n
  block = find-All IsBlock start n s.free_blocks found.1 v.free_map.blocks

  fits : sz + padding start sz ≤ n
  fits = (padding-IsBlock sz start n block found.2).3

  in_range : start + n ≤ size
  in_range = (free_bounds s v start n found.1).1

  pub ptoi-itop : ptoi s (itop s start) ≡ start
  ptoi-itop = omega (arith, v.base_fits, in_range, block.nonempty)

  taken : (k : ℕ) (d : Metadata) → find k s.allocated_blocks ≡ some d → k ≡ start → ⊥
  taken k d a same = cc (active_of_free s v start n found.1)

  claim-Fresh :
      Fresh sz line (itop s start) s (claim sz line start n (record s { curr_file = file }))
  unfolding claim
  claim-Fresh = record {
    in_buffer = rw ptoi-itop (omega (arith, in_range, fits));
    aligned = omega (arith, v.base_fits, v.base_aligned, in_range, block);
    recorded = rw ptoi-itop (
      _,
      find-insert start _ s.allocated_blocks (active_of_free s v start n found.1),
      refl,
      refl,
    );
    apart = λ k d a.
        rw ptoi-itop (ground (arith, fits, active_free_disjoint s v start n k d found.1 a));
    others_kept = λ k d a.
        find-insert_ne k start _ s.allocated_blocks (λ same. absurd (taken k d a same)) ∙ a;
    contents_kept =
        λ k x d a lo hi. ground (arith, fits, active_free_disjoint s v start n k d found.1 a);
  }

first_fit-none : (need : ℕ) (m : List (ℕ × ℕ)) → (first_fit need m ≡ none) ↔ All (λ k n. n < need) m
unfolding first_fit
first_fit-none need [] = (λ e. tt, λ a. refl)
first_fit-none need ((k, n) ∷ m) = ground (arith, first_fit-none need m)

-- The request is not below the buffer's size, or no free block has room for it; a request of 0, or
-- of a multiple of 16, needs `zero_padding` bytes more.
abbrev pub HasNoRoom : ℕ → List (ℕ × ℕ) → Type 0
HasNoRoom sz m = (size ≤ sz) ⊎ All (λ k n. n < sz + zero_padding sz) m

search_block-none : (sz : ℕ) (m : List (ℕ × ℕ)) → (search_block sz m ≡ none) ↔ HasNoRoom sz m
unfolding search_block
search_block-none sz m = elim (Bool-cases (leb size sz)) [
  | inl big ↦ rw big (λ e. inl (ground arith), λ r. refl)
  | inr ok ↦ rw ok (
    λ e. inr ((first_fit-none _ m).0 e),
    λ r. elim r [ inl big ↦ absurd (ground arith) | inr all ↦ (first_fit-none _ m).1 all ],
  )
]

module _ (sz : ℕ) (file : String) (line : ℕ) (s : Heap) (v : IsWellFormed s) where
  -- When `m61_malloc` returns a pointer other than null from a well-formed state, that pointer is
  -- a multiple of 16; the `sz` bytes at it lie in the buffer and apart from every block, padding
  -- included, that was active before; the call records them with their size and line; and every
  -- block that was active stays recorded, with its bytes unchanged.
  pub m61_malloc-Fresh :
      (m61_malloc sz file line s).0 ≢ 0
      → Fresh sz line (m61_malloc sz file line s).0 s (m61_malloc sz file line s).1
  m61_malloc-Fresh ne = elim (Option-cases (search_block sz s.free_blocks)) [
    | inl e ↦ absurd (ne (ap (λ (r : ℕ × Heap). r.0) (malloc_none sz file line s e)))
    | inr ((start, n), e) ↦
        rw (malloc_some sz start n file line s e) (claim-Fresh sz start n file line s v e)
  ]

  -- From a well-formed state, either `m61_malloc` returns null, the request has no room, and
  -- nothing changes but `curr_file` and the two counters of failures; or the request has room, and
  -- the pointer is not null.
  pub m61_malloc_fails :
      (HasNoRoom sz s.free_blocks
        × (m61_malloc sz file line s
            ≡ (0, record s { curr_file = file; stats = count_failure sz s.stats })))
      ⊎ (¬ HasNoRoom sz s.free_blocks × ((m61_malloc sz file line s).0 ≢ 0))
  m61_malloc_fails = elim (Option-cases (search_block sz s.free_blocks)) [
    | inl e ↦ inl ((search_block-none sz s.free_blocks).0 e, malloc_none sz file line s e)
    | inr ((start, n), e) ↦ inr (
      λ r. some_not_none start n e ((search_block-none sz s.free_blocks).1 r),
      rw (malloc_some sz start n file line s e) (not_null start n e),
    )
  ]
    where
      not_null :
          (start n : ℕ) → search_block sz s.free_blocks ≡ some (start, n) → itop s start ≡ 0 → ⊥
      not_null start n e z = omega (
        arith,
        v.base_pos,
        v.base_fits,
        (free_bounds s v start n (found sz start n file line s v e).1).1,
        (free_bounds s v start n (found sz start n file line s v e).1).0.nonempty,
      )

      some_not_none :
          (start n : ℕ)
          → search_block sz s.free_blocks ≡ some (start, n)
          → search_block sz s.free_blocks ≡ none
          → ⊥
      some_not_none start n e f = cc

-- ===== src/M61/Preserve.antt =====
-- The allocator of pset1/m61.cc keeps its state well formed.
pub mod Tiling
use Prim.Native.String.{String}
use cs61_f23_psets_tomkhe.Prelude.{
  ℕ, ◌+◌, ◌-◌, ◌*◌, ◌%◌, ◌≤◌, ◌<◌, ◌≡◌, ◌∙◌, ◌⊎◌, inl, inr, none, some, refl, arith, if◌then◌else◌,
  Option-cases, word, add_word, sub_word, ltb, leb, ◌==◌, Bool-cases, true, false,
}
use cs61_f23_psets_tomkhe.OrderedMap.{find, insert, erase}
use cs61_f23_psets_tomkhe.OrderedMap.Total.{total, total-insert, total-erase, weight-le-total}
use cs61_f23_psets_tomkhe.OrderedMap.Sorted.{insert-IsSorted, erase-IsSorted}
use cs61_f23_psets_tomkhe.OrderedMap.All.{All, insert-All, erase-All, find-All, total_mono}
use cs61_f23_psets_tomkhe.M61.State.{
  size, Metadata, make_metadata, Heap, Outcome, returned, aborted, undefined, ptoi, memcpy,
}
use cs61_f23_psets_tomkhe.M61.Malloc.{
  padding, search_block, shrink_block, claim, clear_new, m61_malloc, m61_calloc,
}
use cs61_f23_psets_tomkhe.M61.Free.{
  m61_free, release, coalesce, invalid_free, report_inside, free_block,
}
use cs61_f23_psets_tomkhe.M61.Realloc.{m61_realloc, realloc_block, move_block}
use cs61_f23_psets_tomkhe.M61.Separation.{
  coalesce-IsSeparated, shrink_block-IsSeparated, Apart-of-find,
}
use cs61_f23_psets_tomkhe.M61.Coalesce.{IsBlock, IsAdditive, coalesce-total, IsBlockMap}
use cs61_f23_psets_tomkhe.M61.Blocks.{
  search_block-find, padding-IsBlock, shrink_block-total, shrink_block-IsBlockMap,
}
use cs61_f23_psets_tomkhe.M61.Invariant.{
  covers, bytes, of_block, requested, one, IsActiveBlock, IsWellFormed, covers-IsAdditive,
  bytes-IsAdditive, EndsWellFormed,
}
use Tiling.{
  active_of_free, free_of_active, free_inside, active_bounds, active_free_disjoint, counters_bound,
}

pub claim-IsWellFormed :
    (sz line start n : ℕ) (s : Heap)
    → IsWellFormed s
    → search_block sz s.free_blocks ≡ some (start, n)
    → IsWellFormed (claim sz line start n s)
unfolding claim
claim-IsWellFormed sz line start n s v e = record {
  base_pos = v.base_pos;
  base_aligned = v.base_aligned;
  base_fits = v.base_fits;
  tiling = λ x.
      omega
        (arith, free (covers x) (covers-IsAdditive x), active (of_block (covers x)), v.tiling x);
  space = omega (arith, free bytes bytes-IsAdditive, active (of_block bytes), v.space);
  free_map = shrink_block-IsBlockMap start n used s.free_blocks block padded.0 v.free_map;
  separated =
      shrink_block-IsSeparated 0 start n used s.free_blocks found.1 padded.0.nonempty padded.3
        v.separated;
  active_sorted = insert-IsSorted start 0 d _ (omega arith) v.active_sorted;
  active_blocks = insert-All IsActiveBlock start d _ padded.0 v.active_blocks;
  nactive_is = omega (arith, active one, (counters_bound s v).0);
  active_size_is = omega (arith, active requested, found.0, (counters_bound s v).1);
}
  where
    used : ℕ
    used = sz + padding start sz

    d : Metadata
    d = make_metadata sz (padding start sz) line

    found :
        (sz < size)
        × (find start s.free_blocks ≡ some n)
        × (sz + (if sz % 16 == 0 then 16 else 0) ≤ n)
    found = search_block-find sz start n s.free_blocks v.free_map.sorted e

    block : IsBlock start n
    block = find-All IsBlock start n s.free_blocks found.1 v.free_map.blocks

    padded : IsBlock start used × (0 < padding start sz) × (padding start sz ≤ 16) × (used ≤ n)
    padded = padding-IsBlock sz start n block found.2

    free :
        (w : ℕ → ℕ → ℕ)
        → IsAdditive w
        → total w (shrink_block start n used s.free_blocks) + w start used ≡ total w s.free_blocks
    free w add =
        shrink_block-total w add start n used s.free_blocks found.1 padded.3 padded.0.nonempty
          (λ lt. free_inside s v start n used found.1 padded.0.nonempty lt)

    active :
        (w : ℕ → Metadata → ℕ)
        → total w (insert start d s.allocated_blocks) ≡ total w s.allocated_blocks + w start d
    active w = total-insert w start d s.allocated_blocks (active_of_free s v start n found.1)

pub release-IsWellFormed :
    (start : ℕ) (d : Metadata) (s : Heap)
    → IsWellFormed s
    → find start s.allocated_blocks ≡ some d
    → IsWellFormed (release start d s)
unfolding release
release-IsWellFormed start d s v a = record {
  base_pos = v.base_pos;
  base_aligned = v.base_aligned;
  base_fits = v.base_fits;
  tiling = λ x.
      omega (
        arith,
        (free (covers x) (covers-IsAdditive x)).0,
        active (of_block (covers x)),
        v.tiling x,
      );
  space = omega (arith, (free bytes bytes-IsAdditive).0, active (of_block bytes), v.space);
  free_map = (free bytes bytes-IsAdditive).1;
  separated =
      coalesce-IsSeparated 0 start (d.sz + d.alignment_sz) s.free_blocks
        (active_bounds s v start d a).0.nonempty (omega arith)
        (Apart-of-find start (d.sz + d.alignment_sz) 0 s.free_blocks v.free_map.sorted
          (λ j w f. ground (arith, active_free_disjoint s v j w start d f a)))
        v.separated;
  active_sorted = erase-IsSorted start 0 _ v.active_sorted;
  active_blocks = erase-All IsActiveBlock start _ v.active_blocks;
  nactive_is = omega (arith, active one, (counters_bound s v).0);
  active_size_is = omega (arith, active requested, (counters_bound s v).1);
}
  where
    free :
        (w : ℕ → ℕ → ℕ)
        → IsAdditive w
        → (total w (coalesce start (d.sz + d.alignment_sz) s.free_blocks)
            ≡ total w s.free_blocks + w start (d.sz + d.alignment_sz))
          × IsBlockMap (coalesce start (d.sz + d.alignment_sz) s.free_blocks)
    free w add =
        coalesce-total w add start (d.sz + d.alignment_sz) s.free_blocks
          (free_of_active s v start d a) (active_bounds s v start d a).0 v.free_map

    active :
        (w : ℕ → Metadata → ℕ)
        → total w (erase start s.allocated_blocks) + w start d ≡ total w s.allocated_blocks
    active w = total-erase w start d s.allocated_blocks a

pub m61_malloc-IsWellFormed :
    (sz : ℕ) (file : String) (line : ℕ) (s : Heap)
    → IsWellFormed s
    → IsWellFormed (m61_malloc sz file line s).1
unfolding m61_malloc
m61_malloc-IsWellFormed sz file line s v = elim (Option-cases (search_block sz s.free_blocks)) [
  | inl e ↦ rw (e, m61_malloc) v
  | inr ((start, n), e) ↦
      rw (e, m61_malloc) (claim-IsWellFormed sz line start n (record s { curr_file = file }) v e)
]

pub m61_calloc-IsWellFormed :
    (count sz : ℕ) (file : String) (line : ℕ) (s : Heap)
    → IsWellFormed s
    → IsWellFormed (m61_calloc count sz file line s).1
unfolding m61_calloc clear_new
m61_calloc-IsWellFormed count sz file line s v =
    ground (arith, m61_malloc-IsWellFormed (count * sz % word) file line s v)

invalid_free-EndsWellFormed :
    (file : String) (line ptr : ℕ) (s : Heap)
    → IsWellFormed s
    → EndsWellFormed (invalid_free file line ptr s)
unfolding invalid_free report_inside
invalid_free-EndsWellFormed file line ptr s v = ground arith

pub m61_free-EndsWellFormed :
    (ptr : ℕ) (file : String) (line : ℕ) (s : Heap)
    → IsWellFormed s
    → EndsWellFormed (m61_free ptr file line s)
unfolding m61_free free_block
m61_free-EndsWellFormed ptr file line s v =
    elim (Option-cases (find (ptoi s ptr) s.allocated_blocks)) [
      | inl e ↦ rw (e, m61_free) (ground (arith, invalid_free-EndsWellFormed file line ptr s v))
      | inr (d, e) ↦
          rw (e, m61_free)
            (ground (
              arith,
              release-IsWellFormed (ptoi s ptr) d (record s { freed = insert ptr tt s.freed }) v e,
            ))
    ]

move_block-EndsWellFormed :
    (ptr old : ℕ) (file : String) (line : ℕ) (r : ℕ × Heap)
    → IsWellFormed r.1
    → EndsWellFormed (move_block ptr old file line r)
unfolding move_block
move_block-EndsWellFormed ptr old file line (new_alloc, s) v = ground (
  arith,
  m61_free-EndsWellFormed ptr file line
      (record s { mem = memcpy (ptoi s new_alloc) (ptoi s ptr) old s.mem }) v,
)

pub m61_realloc-EndsWellFormed :
    (ptr sz : ℕ) (file : String) (line : ℕ) (s : Heap)
    → IsWellFormed s
    → ((d : Metadata) → find (ptoi s ptr) s.allocated_blocks ≡ some d → (sz ≡ 0) ⊎ (d.sz < sz))
    → EndsWellFormed (m61_realloc ptr sz file line s)
unfolding m61_realloc realloc_block
m61_realloc-EndsWellFormed ptr sz file line s v grows =
    elim (Option-cases (find (ptoi s ptr) s.allocated_blocks)) [
      | inl e ↦ ground (
        arith,
        m61_malloc-IsWellFormed sz file line s v,
        m61_free-EndsWellFormed ptr file line s v,
      )
      | inr (d, e) ↦ ground (
        arith,
        grows d e,
        m61_malloc-IsWellFormed sz file line s v,
        m61_free-EndsWellFormed ptr file line s v,
        move_block-EndsWellFormed ptr d.sz file line (m61_malloc sz file line s)
            (m61_malloc-IsWellFormed sz file line s v),
      )
    ]

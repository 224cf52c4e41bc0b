-- ===== src/M61/Freeing.antt =====
-- How `m61_free` of pset1/m61.cc ends: on active blocks, on blocks with a damaged boundary, and on
-- pointers that it must reject.
pub mod Rejects
use cs61_f23_psets_tomkhe.Prelude.{
  ◌||◌, leb, ltb, ℕ, zero, suc, ◌+◌, ◌-◌, ◌≤◌, ◌<◌, ◌≡◌, refl, ap, ◌∙◌, ◌≢◌, inl, inr, true, none,
  some, arith, if◌then◌else◌, Option-cases, word,
}
use cs61_f23_psets_tomkhe.OrderedMap.Sorted.{
  before-find, find-erase, find-insert, erase-insert, find-insert_set,
}
use Prim.Native.String.{String}
use cs61_f23_psets_tomkhe.OrderedMap.{find, insert, before}
use cs61_f23_psets_tomkhe.M61.State.{
  size, marker, Metadata, make_metadata, double_free, not_in_heap, not_allocated, inside_region,
  Heap, Outcome, returned, undefined, itop, ptoi,
}
use cs61_f23_psets_tomkhe.M61.Malloc.{padding, search_block, claim, m61_malloc}
use cs61_f23_psets_tomkhe.M61.Free.{
  report_inside, outside_buffer, invalid_free, markers_intact, release, free_block, m61_free,
}
use cs61_f23_psets_tomkhe.M61.Invariant.{IsWellFormed}
use cs61_f23_psets_tomkhe.M61.Preserve.Tiling.{active_of_free, active_bounds, counters_bound}
use cs61_f23_psets_tomkhe.M61.Preserve.{claim-IsWellFormed, release-IsWellFormed}
use cs61_f23_psets_tomkhe.M61.Allocation.{malloc_some, malloc_none, ptoi-itop, found}

abbrev pub AllMarked : ℕ → ℕ → (ℕ → ℕ) → Type 0
AllMarked n x mem = (i : ℕ) → i < n → mem (x + i) ≡ marker

intact_of_marked : (n x : ℕ) (mem : ℕ → ℕ) → AllMarked n x mem → markers_intact n x mem ≡ true
unfolding markers_intact
intact_of_marked zero x mem f = refl
intact_of_marked (suc n) x mem f =
    ground (arith, here (f 0 (omega arith)), intact_of_marked n (x + 1) mem rest)
  where
    here : mem (x + 0) ≡ marker → mem x ≡ marker
    here e = let z : x + 0 ≡ x = omega arith in rw z at e

    rest : AllMarked n (x + 1) mem
    rest i h = let shift : x + 1 + i ≡ x + suc i = omega arith in rw shift (f (suc i) (omega arith))

pub not_null :
    (ptr : ℕ) (s : Heap)
    → IsWellFormed s
    → (d : Metadata) → find (ptoi s ptr) s.allocated_blocks ≡ some d
    → ptr ≢ 0
not_null ptr s v d a z = omega (
  arith,
  v.base_pos,
  v.base_fits,
  active_bounds s v (ptoi s ptr) d a,
  (active_bounds s v (ptoi s ptr) d a).0.nonempty,
  ap (ptoi s) z,
)

module _ (ptr : ℕ) (file : String) (line : ℕ) (s : Heap) (v : IsWellFormed s) where
  abbrev marked_freed : Heap
  marked_freed = record s { freed = insert ptr tt s.freed }

  free_active :
      (d : Metadata)
      → find (ptoi s ptr) s.allocated_blocks ≡ some d
      → m61_free ptr file line s ≡ free_block file line ptr (ptoi s ptr) d marked_freed
  unfolding m61_free
  free_active d a = ground (arith, not_null ptr s v d a)

  pub m61_free_marked :
      (d : Metadata)
      → find (ptoi s ptr) s.allocated_blocks ≡ some d
      → AllMarked d.alignment_sz (ptoi s ptr + d.sz) s.mem
      → (t : Heap) × (m61_free ptr file line s ≡ returned tt t)
        × (find (ptoi s ptr) t.allocated_blocks ≡ none)
        × (t.mem ≡ s.mem)
        × IsWellFormed t
  unfolding free_block release
  m61_free_marked d a marked = (
    release (ptoi s ptr) d marked_freed,
    free_active d a ∙ rw (intact_of_marked d.alignment_sz (ptoi s ptr + d.sz) s.mem marked),
    find-erase (ptoi s ptr) 0 s.allocated_blocks v.active_sorted,
    refl,
    release-IsWellFormed (ptoi s ptr) d marked_freed v a,
  )

abbrev Undone : Heap → Outcome (Unit {0}) → Type 0
Undone s r =
    (u : Heap) × (r ≡ returned tt u)
    × (u.allocated_blocks ≡ s.allocated_blocks)
    × (u.stats.nactive ≡ s.stats.nactive)
    × (u.stats.active_size ≡ s.stats.active_size)

claim-Undone :
    (sz start n : ℕ) (file : String) (line line' : ℕ) (s : Heap)
    → IsWellFormed s
    → search_block sz s.free_blocks ≡ some (start, n)
    → Undone s
        (m61_free (itop s start) file line' (claim sz line start n (record s { curr_file = file })))
unfolding claim release free_block
claim-Undone sz start n file line line' s v e = (
  release start d (marked_freed (itop s start) file line' t w),
  free_active (itop s start) file line' t w d active ∙ rw back (rw intact),
  erase-insert start d s.allocated_blocks none_there,
  omega (arith, v.nactive_is, (counters_bound s v).0),
  omega (arith, v.active_size_is, (counters_bound s v).1, (found sz start n file line s v e).0),
)
  where
    t : Heap
    t = claim sz line start n (record s { curr_file = file })

    w : IsWellFormed t
    w = claim-IsWellFormed sz line start n (record s { curr_file = file }) v e

    d : Metadata
    d = make_metadata sz (padding start sz) line

    none_there : find start s.allocated_blocks ≡ none
    none_there = active_of_free s v start n (found sz start n file line s v e).1

    back : ptoi s (itop s start) ≡ start
    back = ptoi-itop sz start n file line s v e

    active : find (ptoi t (itop s start)) t.allocated_blocks ≡ some d
    active = rw back (find-insert start d s.allocated_blocks none_there)

    intact : markers_intact (padding start sz) (start + sz) t.mem ≡ true
    intact = intact_of_marked (padding start sz) (start + sz) t.mem (λ i h. ground arith)

-- From a well-formed state, freeing the block that `m61_malloc` has just returned succeeds, and
-- gives back the active blocks, `nactive` and `active_size` of before the allocation.
pub m61_free-m61_malloc :
    (sz : ℕ) (file : String) (line line' : ℕ) (s : Heap)
    → IsWellFormed s
    → (m61_malloc sz file line s).0 ≢ 0
    → (u : Heap) × (m61_free (m61_malloc sz file line s).0 file line' (m61_malloc sz file line s).1
        ≡ returned tt u)
      × (u.allocated_blocks ≡ s.allocated_blocks)
      × (u.stats.nactive ≡ s.stats.nactive)
      × (u.stats.active_size ≡ s.stats.active_size)
m61_free-m61_malloc sz file line line' s v ne =
    elim (Option-cases (search_block sz s.free_blocks)) [
      | inl e ↦ absurd (ne (ap (λ (r : ℕ × Heap). r.0) (malloc_none sz file line s e)))
      | inr ((start, n), e) ↦
          rw (malloc_some sz start n file line s e) (claim-Undone sz start n file line line' s v e)
    ]

-- ===== src/M61/Freeing/Rejects.antt =====
-- Pointers that `m61_free` of pset1/m61.cc rejects: those that point to no active block.
use cs61_f23_psets_tomkhe.Prelude.{ltb, ℕ, suc, ◌+◌, ◌-◌, ◌≤◌, ◌<◌, ◌≡◌, none, some, if◌then◌else◌}
use Prim.Native.String.{String}
use cs61_f23_psets_tomkhe.OrderedMap.{before}
use cs61_f23_psets_tomkhe.M61.State.{
  size, Metadata, not_allocated, memory_bug, inside_region, Heap, ptoi, log,
}

-- A pointer into the heap, and no active block is at or below it.
abbrev pub IsAboveNone : ℕ → Heap → Type 0
IsAboveNone ptr s =
    (s.base ≤ ptr) × (ptr < s.base + size) × (before (suc (ptoi s ptr)) s.allocated_blocks ≡ none)

-- A pointer into the heap, and `k` is the next active block below it.
abbrev pub IsAbove : ℕ → Heap → ℕ → Metadata → Type 0
IsAbove ptr s k d =
    (s.base ≤ ptr)
    × (ptr < s.base + size)
    × (before (suc (ptoi s ptr)) s.allocated_blocks ≡ some (k, d))

-- The report names the region if the pointer is in it.
abbrev pub not_allocated_report : ℕ → String → ℕ → Heap → ℕ → Metadata → Heap
not_allocated_report ptr file line s k d =
    if ltb (ptoi s ptr) (k + d.sz)
    then log (inside_region file d.line_allocated ptr (ptoi s ptr - k) d.sz)
        (log (memory_bug file line ptr not_allocated) s)
    else log (memory_bug file line ptr not_allocated) s

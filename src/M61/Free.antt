-- ===== src/M61/Free.antt =====
-- `m61_free` of pset1/m61.cc.
use Prim.Native.String.{String}
use cs61_f23_psets_tomkhe.Prelude.{
  ℕ, zero, suc, ◌+◌, ◌-◌, ◌^◌, ◌||◌, Bool, true, false, ◌&&◌, none, some, List, ltb, leb, ◌==◌,
  if◌then◌else◌, sub_word,
}
use cs61_f23_psets_tomkhe.OrderedMap.{find, insert, erase, assign, upper_bound, before}
use cs61_f23_psets_tomkhe.M61.State.{
  size, marker, Metadata, Statistics, double_free, not_in_heap, not_allocated, wild_write,
  memory_bug, inside_region, Heap, Outcome, returned, aborted, undefined, ptoi, log,
}

-- the extra line for a pointer into an allocated region
unfoldable pub report_inside : String → ℕ → Heap → Outcome (Unit {0})
report_inside file ptr s = elim (before (suc (ptoi s ptr)) s.allocated_blocks) [
  | none ↦ undefined
  | some (start, d) ↦
      if ltb start (ptoi s ptr) && ltb (ptoi s ptr) (start + d.sz)
      then aborted (log (inside_region file d.line_allocated ptr (ptoi s ptr - start) d.sz) s)
      else aborted s
]

-- `ptrdiff_t` is signed: a difference of 2^63 or more is negative
unfoldable pub outside_buffer : ℕ → Bool
outside_buffer d = leb size d || leb (2 ^ 63) d

unfoldable pub invalid_free : String → ℕ → ℕ → Heap → Outcome (Unit {0})
invalid_free file line ptr s = elim (find ptr s.freed) [
  | some _ ↦ aborted (log (memory_bug file line ptr double_free) s)
  | none ↦
      if outside_buffer (ptoi s ptr)
      then aborted (log (memory_bug file line ptr not_in_heap) s)
      else report_inside file ptr (log (memory_bug file line ptr not_allocated) s)
]

-- the loop over the bytes behind a block
unfoldable pub markers_intact : ℕ → ℕ → (ℕ → ℕ) → Bool
markers_intact zero x mem = true
markers_intact (suc n) x mem = if mem x == marker then markers_intact n (x + 1) mem else false

unfoldable pub merge_right : ℕ → ℕ → List (ℕ × ℕ) → ℕ × List (ℕ × ℕ)
merge_right start n blocks = elim (upper_bound start blocks) [
  | none ↦ (n, blocks)
  | some (right, r) ↦
      if n == right - start then (n + r, erase right (assign start (n + r) blocks)) else (n, blocks)
]

unfoldable pub merge_left : ℕ → ℕ × List (ℕ × ℕ) → List (ℕ × ℕ)
merge_left start (n, blocks) = elim (before start blocks) [
  | none ↦ blocks
  | some (left, l) ↦ if l == start - left then erase start (assign left (l + n) blocks) else blocks
]

-- the new free block, and the two neighbours of it
unfoldable pub coalesce : ℕ → ℕ → List (ℕ × ℕ) → List (ℕ × ℕ)
coalesce start n blocks = merge_left start (merge_right start n (insert start n blocks))

abbrev pub count_free : ℕ → Statistics → Statistics
count_free sz t = record t {
  active_size = sub_word t.active_size sz;
  nactive = sub_word t.nactive 1;
}

unfoldable pub release : ℕ → Metadata → Heap → Heap
release start d s = record s {
  stats = count_free d.sz s.stats;
  allocated_blocks = erase start s.allocated_blocks;
  free_blocks = coalesce start (d.sz + d.alignment_sz) s.free_blocks;
}

unfoldable pub free_block : String → ℕ → ℕ → ℕ → Metadata → Heap → Outcome (Unit {0})
free_block file line ptr start d s =
    if markers_intact d.alignment_sz (start + d.sz) s.mem
    then returned tt (release start d s)
    else aborted (log (memory_bug file line ptr wild_write) s)

unfoldable pub m61_free : ℕ → String → ℕ → Heap → Outcome (Unit {0})
m61_free ptr file line s =
    if ptr == 0 then returned tt s else elim (find (ptoi s ptr) s.allocated_blocks) [
      | none ↦ invalid_free file line ptr s
      | some d ↦
          free_block file line ptr (ptoi s ptr) d (record s { freed = insert ptr tt s.freed })
    ]

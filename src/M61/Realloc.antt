-- ===== src/M61/Realloc.antt =====
-- `m61_realloc` and `m61_print_leak_report` of pset1/m61.cc.
use Prim.Native.String.{String}
use cs61_f23_psets_tomkhe.Prelude.{ℕ, ◌+◌, ◌-◌, none, some, List, leb, ◌==◌, if◌then◌else◌, map}
use cs61_f23_psets_tomkhe.OrderedMap.{find, assign}
use cs61_f23_psets_tomkhe.M61.State.{
  marker, Metadata, memory_bug, realloc_freed, realloc_not_allocated, Heap, Outcome, returned,
  aborted, undefined, itop, ptoi, memset, memcpy, log,
}
use cs61_f23_psets_tomkhe.M61.Malloc.{m61_malloc}
use cs61_f23_psets_tomkhe.M61.Free.{m61_free}

-- `sz` is written first, so that `allocation->second.sz - sz` is 0 in the next statement.
unfoldable pub resized : ℕ → ℕ → Metadata → Metadata
resized sz line d =
    let shrunk = record d { sz = sz } in
    record shrunk { alignment_sz = shrunk.alignment_sz + (shrunk.sz - sz); line_allocated = line }

unfoldable pub shrink_in_place : ℕ → ℕ → ℕ → Metadata → Heap → Heap
unfolding resized
shrink_in_place sz line start d s = record s {
  allocated_blocks = assign start (resized sz line d) s.allocated_blocks;
  mem = memset (start + sz) marker (resized sz line d).alignment_sz s.mem;
}

abbrev pub with_result : ℕ → Outcome (Unit {0}) → Outcome ℕ
with_result p (returned _ s) = returned p s
with_result p (aborted s) = aborted s
with_result p undefined = undefined

-- the copy and the free of the old block, behind `m61_malloc`
unfoldable pub move_block : ℕ → ℕ → String → ℕ → ℕ × Heap → Outcome ℕ
move_block ptr old file line (new_alloc, s) =
    if new_alloc == 0
    then returned 0 s
    else with_result new_alloc (
        m61_free ptr file line
          (record s { mem = memcpy (ptoi s new_alloc) (ptoi s ptr) old s.mem }))

unfoldable pub realloc_block : ℕ → ℕ → String → ℕ → Metadata → Heap → Outcome ℕ
realloc_block ptr sz file line d s =
    if leb sz d.sz
    then returned ptr (shrink_in_place sz line (ptoi s ptr) d s)
    else move_block ptr d.sz file line (m61_malloc sz file line s)

unfoldable pub m61_realloc : ℕ → ℕ → String → ℕ → Heap → Outcome ℕ
m61_realloc ptr sz file line s =
    if ptr == 0
    then (let (p, s') = m61_malloc sz file line s in returned p s')
    else if sz == 0
    then with_result 0 (m61_free ptr file line s)
    else elim (find (ptoi s ptr) s.free_blocks) [
      | some _ ↦ returned 0 (log (memory_bug file line ptr realloc_freed) s)
      | none ↦ elim (find (ptoi s ptr) s.allocated_blocks) [
        | none ↦ returned 0 (log (memory_bug file line ptr realloc_not_allocated) s)
        | some d ↦ realloc_block ptr sz file line d s
      ]
    ]

-- One line of the leak report: file, line, address and size of an active block.
pub record Leak : Type 0 where
  pub file : String
  pub line : ℕ
  pub address : ℕ
  pub bytes : ℕ

unfoldable pub m61_print_leak_report : Heap → List Leak
m61_print_leak_report s =
    map
      (λ (start, d). record {
        file = s.curr_file;
        line = d.line_allocated;
        address = itop s start;
        bytes = d.sz;
      })
      s.allocated_blocks

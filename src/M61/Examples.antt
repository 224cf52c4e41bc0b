-- ===== src/M61/Examples.antt =====
-- Runs of the allocator of pset1/m61.cc on small programs.
use cs61_f23_psets_tomkhe.M61.Reports.{AllZero, m61_calloc-zeroed}
use cs61_f23_psets_tomkhe.M61.Allocation.{HasNoRoom, Fresh, m61_malloc-Fresh, m61_malloc_fails}
use cs61_f23_psets_tomkhe.Prelude.{
  ◌*◌, ◌≤◌, ◌≡◌, refl, ◌≢◌, ◌⊎◌, List, [], ◌∷◌, arith, ◌==◌, if◌then◌else◌,
}
use cs61_f23_psets_tomkhe.OrderedMap.{find, insert, erase}
use cs61_f23_psets_tomkhe.M61.State.{size, Metadata, make_metadata, Heap, returned, initial, ptoi}
use cs61_f23_psets_tomkhe.M61.Malloc.{
  padding, first_fit, search_block, shrink_block, count_failure, claim, m61_malloc, clear_new,
  m61_calloc,
}
use cs61_f23_psets_tomkhe.M61.Free.{markers_intact, release, free_block, m61_free}
use cs61_f23_psets_tomkhe.M61.Invariant.{IsWellFormed, initial-IsWellFormed}
use cs61_f23_psets_tomkhe.M61.Preserve.{m61_malloc-IsWellFormed}
use cs61_f23_psets_tomkhe.M61.History.{Call, malloc, free, store, step, run, NeverInPlace}
use cs61_f23_psets_tomkhe.M61.Whole.{run_all_freed}

abbrev start : Heap
start = initial 4096 (λ x. 0)

start-IsWellFormed : IsWellFormed start
start-IsWellFormed = initial-IsWellFormed 4096 (λ x. 0) (omega arith) refl (omega arith)

-- one block of 10 bytes at offset 0, with 6 bytes of padding
abbrev one_active : Heap
one_active = claim 10 3 0 size (record start { curr_file = "a.cc" })

one_active_is : (m61_malloc 10 "a.cc" 3 start).1 ≡ one_active
unfolding m61_malloc search_block first_fit
one_active_is = refl

one_active-IsWellFormed : IsWellFormed one_active
one_active-IsWellFormed =
    rw one_active_is at (m61_malloc-IsWellFormed 10 "a.cc" 3 start start-IsWellFormed)

abbrev block : Metadata
block = make_metadata 10 6 3

-- a program that allocates, writes and frees
abbrev program : List Call
program = malloc 10 ∷ store 3 7 ∷ free 4096 ∷ []

program_never : NeverInPlace "a.cc" 1 program start
unfolding NeverInPlace step m61_malloc search_block first_fit claim padding find insert shrink_block
    erase m61_free free_block markers_intact
program_never = (tt, (tt, (tt, tt)))

second_fits : (m61_malloc 20 "a.cc" 4 one_active).0 ≢ 0
unfolding m61_malloc search_block first_fit claim padding shrink_block erase insert
second_fits = omega arith

m61_malloc-Fresh_example :
    Fresh 20 4
      (m61_malloc 20 "a.cc" 4 one_active).0
      one_active
      (m61_malloc 20 "a.cc" 4 one_active).1
m61_malloc-Fresh_example =
    m61_malloc-Fresh 20 "a.cc" 4 one_active one_active-IsWellFormed second_fits

m61_malloc_fails_example :
    (HasNoRoom size one_active.free_blocks
      × (m61_malloc size "a.cc" 4 one_active ≡ (
        0,
        record one_active { curr_file = "a.cc"; stats = count_failure size one_active.stats },
      )))
    ⊎ (¬ HasNoRoom size one_active.free_blocks × ((m61_malloc size "a.cc" 4 one_active).0 ≢ 0))
m61_malloc_fails_example = m61_malloc_fails size "a.cc" 4 one_active one_active-IsWellFormed

abbrev after_free : Heap
after_free = release 0 block (record one_active { freed = insert 4096 tt one_active.freed })

too_large : (m61_malloc size "a.cc" 4 one_active).0 ≡ 0
unfolding m61_malloc search_block
too_large = refl

m61_calloc-zeroed_example :
    (5 * 4 ≤ size)
    × Fresh
        (5 * 4)
        4
        (m61_calloc 5 4 "a.cc" 4 one_active).0
        one_active
        (m61_calloc 5 4 "a.cc" 4 one_active).1
    × AllZero
        (5 * 4)
        (ptoi one_active (m61_calloc 5 4 "a.cc" 4 one_active).0)
        (m61_calloc 5 4 "a.cc" 4 one_active).1.mem
unfolding m61_calloc m61_malloc search_block first_fit claim padding shrink_block erase insert
    clear_new
m61_calloc-zeroed_example =
    m61_calloc-zeroed 5 4 "a.cc" 4 one_active one_active-IsWellFormed (omega arith)

abbrev program_active : Heap
program_active = claim 10 1 0 size (record start { curr_file = "a.cc" })

abbrev program_end : Heap
program_end = release 0 (make_metadata 10 6 1) (record program_active {
  mem = λ y. if y == 3 then 7 else program_active.mem y;
  freed = insert 4096 tt program_active.freed;
})

program_runs : run "a.cc" 1 program start ≡ returned tt program_end
unfolding run step m61_malloc search_block first_fit claim padding find insert m61_free free_block
    markers_intact
program_runs = refl

program_frees : program_end.stats.nactive ≡ 0
unfolding release claim
program_frees = refl

run_all_freed_example : program_end.free_blocks ≡ (0, size) ∷ []
run_all_freed_example =
    run_all_freed "a.cc" 1 program 4096 (λ x. 0) (omega arith) refl (omega arith) program_never
      program_end program_runs program_frees

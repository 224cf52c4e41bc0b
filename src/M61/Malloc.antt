-- ===== src/M61/Malloc.antt =====
-- `m61_malloc` and `m61_calloc` of pset1/m61.cc.
use Prim.Native.String.{String}
use cs61_f23_psets_tomkhe.Prelude.{
  ℕ, ◌+◌, ◌-◌, ◌*◌, ◌%◌, ◌||◌, Option, none, some, List, [], ◌∷◌, min, max, ltb, leb, ◌==◌,
  if◌then◌else◌, add_word, word,
}
use cs61_f23_psets_tomkhe.OrderedMap.{insert, erase}
use cs61_f23_psets_tomkhe.M61.State.{
  size, alignment, marker, make_metadata, Statistics, Heap, itop, memset,
}

-- `(!(sz%ALIGNMENT))*ALIGNMENT`
abbrev pub zero_padding : ℕ → ℕ
zero_padding sz = if sz % alignment == 0 then alignment else 0

-- the final `alignment_sz` of a block of `sz` bytes at `start`
unfoldable pub padding : ℕ → ℕ → ℕ
padding start sz = (alignment - (start + sz) % alignment) % alignment + zero_padding sz

unfoldable pub first_fit : ℕ → List (ℕ × ℕ) → Option (ℕ × ℕ)
first_fit need [] = none
first_fit need ((start, n) ∷ blocks) = if leb need n then some (start, n) else first_fit need blocks

unfoldable pub search_block : ℕ → List (ℕ × ℕ) → Option (ℕ × ℕ)
search_block sz blocks = if leb size sz then none else first_fit (sz + zero_padding sz) blocks

-- the update of `free_blocks` in the loop, from the block at `start` of `n` bytes
unfoldable pub shrink_block : ℕ → ℕ → ℕ → List (ℕ × ℕ) → List (ℕ × ℕ)
shrink_block start n used blocks =
    let rest = erase start blocks in
    if ltb (start + used) (start + n)
    then insert (start + used) (start + n - (start + used)) rest
    else rest

abbrev pub count_failure : ℕ → Statistics → Statistics
count_failure sz t = record t { nfail = add_word t.nfail 1; fail_size = add_word t.fail_size sz }

abbrev pub count_success : ℕ → ℕ → Statistics → Statistics
count_success ptr sz t = record t {
  nactive = add_word t.nactive 1;
  ntotal = add_word t.ntotal 1;
  total_size = add_word t.total_size sz;
  active_size = add_word t.active_size sz;
  heap_min = if add_word t.ntotal 1 == 1 then ptr else min t.heap_min ptr;
  heap_max = if add_word t.ntotal 1 == 1 then add_word ptr sz else max t.heap_max (add_word ptr sz);
}

-- a successful call, from the free block at `start` of `n` bytes
unfoldable pub claim : ℕ → ℕ → ℕ → ℕ → Heap → Heap
claim sz line start n s = record s {
  mem = memset (start + sz) marker (padding start sz) s.mem;
  free_blocks = shrink_block start n (sz + padding start sz) s.free_blocks;
  allocated_blocks = insert start (make_metadata sz (padding start sz) line) s.allocated_blocks;
  freed = erase (itop s start) s.freed;
  stats = count_success (itop s start) sz s.stats;
}

unfoldable pub m61_malloc : ℕ → String → ℕ → Heap → ℕ × Heap
m61_malloc sz file line s = elim (search_block sz s.free_blocks) [
  | none ↦ (0, record s { curr_file = file; stats = count_failure sz s.stats })
  | some (start, n) ↦ (itop s start, claim sz line start n (record s { curr_file = file }))
]

unfoldable pub clear_new : ℕ → ℕ × Heap → ℕ × Heap
clear_new n (ptr, s) =
    if ptr == 0
    then (ptr, s)
    else (ptr, record s { mem = memset ((ptr + word - s.base) % word) 0 n s.mem })

unfoldable pub m61_calloc : ℕ → ℕ → String → ℕ → Heap → ℕ × Heap
m61_calloc count sz file line s =
    if ltb size count || ltb size sz
    then (0, record s { stats = count_failure (count * sz % word) s.stats })
    else clear_new (count * sz % word) (m61_malloc (count * sz % word) file line s)

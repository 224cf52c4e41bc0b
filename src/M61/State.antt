-- ===== src/M61/State.antt =====
-- The globals of pset1/m61.cc: the buffer, the two block maps, the set of freed pointers and the
-- statistics of pset1/m61.hh; what is written to `cerr`; and how a call ends. Pointers are 64-bit
-- numbers, and the bytes of the buffer are numbered from its start.
use Prim.Native.String.{String}
use cs61_f23_psets_tomkhe.Prelude.{
  ℕ, ◌+◌, ◌-◌, ◌*◌, ◌^◌, Bool, ◌&&◌, List, [], ◌∷◌, ltb, leb, add_word, sub_word, if◌then◌else◌,
}

-- `m61_memory_buffer::size`, `alignof(std::max_align_t)` on x86-64, and `'!'`
abbrev pub size : ℕ
size = 8 * 2 ^ 20

abbrev pub alignment : ℕ
alignment = 16

abbrev pub marker : ℕ
marker = b'!'

pub record Metadata : Type 0 where
  pub sz : ℕ
  pub alignment_sz : ℕ
  pub line_allocated : ℕ

abbrev pub make_metadata : ℕ → ℕ → ℕ → Metadata
make_metadata sz alignment_sz line = record {
  sz = sz;
  alignment_sz = alignment_sz;
  line_allocated = line;
}

pub record Statistics : Type 0 where
  pub nactive : ℕ
  pub active_size : ℕ
  pub ntotal : ℕ
  pub total_size : ℕ
  pub nfail : ℕ
  pub fail_size : ℕ
  pub heap_min : ℕ
  pub heap_max : ℕ

-- The lines that the program prints to `cerr`.
pub data Problem : Type 0 where
  double_free not_in_heap not_allocated wild_write : Problem
  realloc_freed realloc_not_allocated : Problem

pub data Message : Type 0 where
  memory_bug : String → ℕ → ℕ → Problem → Message
  inside_region : String → ℕ → ℕ → ℕ → ℕ → Message

pub record Heap : Type 0 where
  pub base : ℕ
  pub mem : ℕ → ℕ
  pub allocated_blocks : List (ℕ × Metadata)
  pub free_blocks : List (ℕ × ℕ)
  pub freed : List (ℕ × Unit {0})
  pub stats : Statistics
  pub curr_file : String
  pub cerr : List Message

-- A call returns, calls `abort()`, or steps an iterator back from `begin()`.
pub data Outcome {ℓ} (A : Type ℓ) : Type ℓ where
  returned : A → Heap → Outcome A
  aborted : Heap → Outcome A
  undefined : Outcome A

abbrev pub no_statistics : Statistics
no_statistics = record {
  nactive = 0;
  active_size = 0;
  ntotal = 0;
  total_size = 0;
  nfail = 0;
  fail_size = 0;
  heap_min = 0;
  heap_max = 0;
}

-- The program's start: the whole buffer is one free block.
abbrev pub initial : ℕ → (ℕ → ℕ) → Heap
initial base mem = record {
  base = base;
  mem = mem;
  allocated_blocks = [];
  free_blocks = (0, size) ∷ [];
  freed = [];
  stats = no_statistics;
  curr_file = "";
  cerr = [];
}

abbrev pub itop : Heap → ℕ → ℕ
itop s x = add_word s.base x

abbrev pub ptoi : Heap → ℕ → ℕ
ptoi s p = sub_word p s.base

-- `start ≤ x < start + n`
abbrev pub within : ℕ → ℕ → ℕ → Bool
within start n x = leb start x && ltb x (start + n)

abbrev pub memset : ℕ → ℕ → ℕ → (ℕ → ℕ) → ℕ → ℕ
memset start value n mem x = if within start n x then value else mem x

abbrev pub memcpy : ℕ → ℕ → ℕ → (ℕ → ℕ) → ℕ → ℕ
memcpy to from n mem x = if within to n x then mem (from + x - to) else mem x

abbrev pub log : Message → Heap → Heap
log m s = record s { cerr = m ∷ s.cerr }

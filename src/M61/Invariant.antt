-- ===== src/M61/Invariant.antt =====
-- The well-formed states of pset1/m61.cc: active and free blocks tile the buffer, and the
-- statistics count the active blocks.
use cs61_f23_psets_tomkhe.Prelude.{
  ℕ, ◌+◌, ◌%◌, ◌≤◌, ◌<◌, ◌≡◌, refl, List, arith, if◌then◌else◌, word,
}
use cs61_f23_psets_tomkhe.OrderedMap.Total.{total}
use cs61_f23_psets_tomkhe.OrderedMap.Sorted.{IsSorted}
use cs61_f23_psets_tomkhe.OrderedMap.All.{All}
use cs61_f23_psets_tomkhe.M61.State.{
  size, Metadata, Heap, Outcome, returned, aborted, undefined, initial, within,
}
use cs61_f23_psets_tomkhe.M61.Separation.{IsSeparated}
use cs61_f23_psets_tomkhe.M61.Coalesce.{IsBlock, IsBlockMap, IsAdditive}

-- 1 if the block of `n` bytes at `start` holds byte `x`, and 0 if not
abbrev pub covers : ℕ → ℕ → ℕ → ℕ
covers x start n = if within start n x then 1 else 0

abbrev pub bytes : ℕ → ℕ → ℕ
bytes start n = n

abbrev pub of_block : (ℕ → ℕ → ℕ) → ℕ → Metadata → ℕ
of_block w start d = w start (d.sz + d.alignment_sz)

abbrev pub requested : ℕ → Metadata → ℕ
requested start d = d.sz

abbrev pub one : ℕ → Metadata → ℕ
one start d = 1

abbrev pub IsActiveBlock : ℕ → Metadata → Type 0
IsActiveBlock start d = IsBlock start (d.sz + d.alignment_sz)

pub record Tiles (base : ℕ) (free_blocks : List (ℕ × ℕ)) (allocated_blocks : List (ℕ × Metadata))
    (nactive active_size : ℕ) : Type 0 where
  pub base_pos : 0 < base
  pub base_aligned : base % 16 ≡ 0
  pub base_fits : base + size ≤ word
  -- every byte of the buffer is in exactly one block, and no block goes past its end
  pub tiling :
      (x : ℕ)
      → total (covers x) free_blocks + total (of_block (covers x)) allocated_blocks
        ≡ covers x 0 size
  pub space : total bytes free_blocks + total (of_block bytes) allocated_blocks ≡ size
  pub free_map : IsBlockMap free_blocks
  -- no two free blocks touch
  pub separated : IsSeparated 0 free_blocks
  pub active_sorted : IsSorted 0 allocated_blocks
  pub active_blocks : All IsActiveBlock allocated_blocks
  pub nactive_is : nactive ≡ total one allocated_blocks
  pub active_size_is : active_size ≡ total requested allocated_blocks

abbrev pub IsWellFormed : Heap → Type 0
IsWellFormed s = Tiles s.base s.free_blocks s.allocated_blocks s.stats.nactive s.stats.active_size

-- A call leaves a well-formed state, when it returns and when it aborts.
abbrev pub EndsWellFormed {ℓ} : {A : Type ℓ} → Outcome A → Type 0
EndsWellFormed (returned a s) = IsWellFormed s
EndsWellFormed (aborted s) = IsWellFormed s
EndsWellFormed undefined = Unit {0}

pub covers-IsAdditive : (x : ℕ) → IsAdditive (covers x)
covers-IsAdditive x a n b m e = ground arith

pub bytes-IsAdditive : IsAdditive bytes
bytes-IsAdditive a n b m e = refl

pub initial-IsWellFormed :
    (base : ℕ) (mem : ℕ → ℕ)
    → 0 < base
    → base % 16 ≡ 0
    → base + size ≤ word
    → IsWellFormed (initial base mem)
unfolding total
initial-IsWellFormed base mem pos aligned fits = record {
  base_pos = pos;
  base_aligned = aligned;
  base_fits = fits;
  tiling = λ x. ground arith;
  space = refl;
  free_map = record { sorted = omega arith; blocks = omega arith };
  separated = omega arith;
  active_sorted = tt;
  active_blocks = tt;
  nactive_is = refl;
  active_size_is = refl;
}

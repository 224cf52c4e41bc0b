-- ===== src/M61/Whole.antt =====
-- The free blocks of pset1/m61.cc when every block has been given back.
use Prim.Native.String.{String}
use cs61_f23_psets_tomkhe.Prelude.{
  ℕ, ◌+◌, ◌-◌, ◌%◌, ◌≤◌, ◌<◌, ◌≡◌, refl, sym, ap, ◌∙◌, List, [], ◌∷◌, arith, word,
}
use cs61_f23_psets_tomkhe.OrderedMap.Total.{total}
use cs61_f23_psets_tomkhe.M61.State.{size, Metadata, Heap, returned, initial}
use cs61_f23_psets_tomkhe.M61.Invariant.{covers, of_block, one, IsWellFormed, initial-IsWellFormed}
use cs61_f23_psets_tomkhe.M61.Separation.{IsSeparated}
use cs61_f23_psets_tomkhe.M61.History.{Call, run, NeverInPlace, run-EndsWellFormed}

nothing_before : (x b : ℕ) (m : List (ℕ × ℕ)) → x < b → IsSeparated b m → total (covers x) m ≡ 0
unfolding total
nothing_before x b [] h p = refl
nothing_before x b ((k, n) ∷ m) h p = ground (arith, nothing_before x (k + n + 1) m)

all_freed : (m : List (ℕ × Metadata)) → total one m ≡ 0 → m ≡ []
unfolding total
all_freed [] h = refl
all_freed (e ∷ m) h = absurd (omega arith)

-- Blocks that tile the buffer and do not touch are one block.
one_block :
    (m : List (ℕ × ℕ))
    → IsSeparated 0 m
    → ((x : ℕ) → total (covers x) m ≡ covers x 0 size)
    → m ≡ (0, size) ∷ []
unfolding total
one_block [] p f = absurd (ground (arith, f 0))
one_block ((k, n) ∷ []) p f = ground (arith, f 0, f n, f (size - 1), f (k + n - 1), f size)
one_block ((k, n) ∷ (i, u) ∷ m) p f =
    absurd (
      ground (arith, f 0, f n, f i, nothing_before 0 (i + u + 1) m, nothing_before n (i + u + 1) m))

whole_of_empty : (s : Heap) → IsWellFormed s → s.stats.nactive ≡ 0 → s.free_blocks ≡ (0, size) ∷ []
unfolding total
whole_of_empty s v z =
    let empty = all_freed s.allocated_blocks (sym v.nactive_is ∙ z) in
    one_block s.free_blocks v.separated
      (λ x. omega (arith, v.tiling x, ap (total (of_block (covers x))) empty))

-- Nothing is lost to fragmentation: a run from the program's start that resizes no active block
-- in place, and that returns with no active block, leaves one free block that is the whole buffer.
pub run_all_freed :
    (file : String) (line : ℕ) (cs : List Call) (base : ℕ) (mem : ℕ → ℕ)
    → 0 < base
    → base % 16 ≡ 0
    → base + size ≤ word
    → NeverInPlace file line cs (initial base mem)
    → (t : Heap) → run file line cs (initial base mem) ≡ returned tt t
    → t.stats.nactive ≡ 0
    → t.free_blocks ≡ (0, size) ∷ []
run_all_freed file line cs base mem pos aligned fits never t e z =
    whole_of_empty t
      (rw e at (
        run-EndsWellFormed file line cs (initial base mem)
          (initial-IsWellFormed base mem pos aligned fits) never))
      z

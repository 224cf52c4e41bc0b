-- ===== src/Io61/Locks/Range.antt =====
-- Regions that the arrays of pset4/io61.cc do not reach.
use cs61_f23_psets_tomkhe.Prelude.{
  ℕ, ◌+◌, ◌*◌, ◌/◌, ◌≤◌, ◌<◌, ◌≡◌, refl, ap, ◌∙◌, ◌≢◌, inl, inr, true, none, List, [], ◌∷◌, arith,
  leb, ==_iff, Bool-cases,
}
use native.Mathlib.Nat.{div-mul-le_self}
use cs61_f23_psets_tomkhe.Io61.Locks.{
  nchunks, File, fdopen_locks, out_of_range, region, is_overlap, io61_try_lock,
}
use cs61_f23_psets_tomkhe.Io61.Locks.Chunks.{spans, bit, occurs}
use cs61_f23_psets_tomkhe.Io61.Locks.Ledger.{occurs-region}

-- Past the arrays, a file that nobody has locked has no chunk to look at.
overlap_too_far :
    (me j : ℕ) (is : List ℕ) (f : File)
    → ((i : ℕ) → f.nlocked i ≡ 0)
    → nchunks ≤ j
    → 0 < occurs j is
    → is_overlap me is f ≡ none
unfolding is_overlap occurs
overlap_too_far me j [] f free far some_there = absurd (omega arith)
overlap_too_far me j (i ∷ is) f free far some_there =
    ground (arith, free i, ==_iff i j, overlap_too_far me j is f free far)

far_chunk :
    (start len c : ℕ)
    → 0 < c
    → len ≢ 0
    → nchunks * c < start + len
    → (j : ℕ) × (nchunks ≤ j) × (spans c start (start + len) j ≡ true)
far_chunk start len c pos ne far = elim (Bool-cases (leb (start / c) nchunks)) [
  | inl low ↦ (nchunks, omega arith, ground arith)
  | inr high ↦ (start / c, ground arith, ground (arith, div-mul-le_self start c))
]

-- `io61_fdopen` rounds the size of a chunk down, so that the chunks need not reach the end of the
-- file: on a file just opened, locking any region that ends above `nchunks` chunks indexes the
-- arrays out of their range.
pub lock_too_far :
    (size : ℕ) (owner : ℕ → ℕ) (me start len : ℕ)
    → len ≢ 0
    → nchunks * (fdopen_locks size owner).chunk_sz < start + len
    → io61_try_lock me start len (fdopen_locks size owner) ≡ out_of_range
unfolding io61_try_lock
lock_too_far size owner me start len ne far =
    let f = fdopen_locks size owner in
    let pos : 0 < f.chunk_sz = ground arith in
    let (j, le, e) = far_chunk start len f.chunk_sz pos ne far in
    let there : occurs j (region start len f) ≡ 1 = occurs-region start len j f pos ∙ ap bit e in
    let stuck = overlap_too_far me j (region start len f) f (λ i. refl) le (omega arith) in
    ground (arith, stuck, ==_iff len 0)

-- ===== src/Io61/Locks.antt =====
-- The range locks of pset4/io61.cc: `is_overlap`, `lock_region`, `io61_try_lock`, `io61_lock` and
-- `io61_unlock`. Every call holds the mutex `m`, so that calls of several threads follow one
-- another; only `io61_lock` gives it up, in `cv.wait`. Threads are numbers.
-- Offsets whose chunk number does not fit an `int` are outside the model.
pub mod Chunks
pub mod Ledger
pub mod Granting
pub mod Reaching
pub mod Exclusion
pub mod Progress
pub mod Trying
pub mod Waiting
pub mod Range
use cs61_f23_psets_tomkhe.Prelude.{
  ℕ, zero, suc, ◌+◌, ◌-◌, ◌*◌, ◌/◌, ◌^◌, Bool, true, false, not, ◌&&◌, ◌||◌, Option, none, some,
  List, [], ◌∷◌, ltb, ◌==◌, if◌then◌else◌,
}

abbrev pub nchunks : ℕ
nchunks = 2 ^ 18

-- The fields of `io61_file` that the locks use.
pub record File : Type 0 where
  pub chunk_sz : ℕ
  pub nlocked : ℕ → ℕ
  pub owner : ℕ → ℕ

-- `io61_fdopen`, for a file of `size` bytes; no field `owner` is set.
abbrev pub fdopen_locks : ℕ → (ℕ → ℕ) → File
fdopen_locks size owner = record {
  chunk_sz = if ltb (size / nchunks) 16 then 16 else size / nchunks;
  nlocked = λ i. 0;
  owner = owner;
}

-- the return values 0 and -1
pub data Status : Type 0 where
  success failure : Status

-- A call returns, fails an assertion, leaves the arrays or the range of `int`, or still waits.
pub data LockResult : Type 0 where
  finished : Status → File → LockResult
  assertion_failed out_of_range waits : LockResult

-- the indexes of a loop `for (int i = ...; i * chunk_sz < stop; i++)`
unfoldable pub chunks : ℕ → ℕ → ℕ → ℕ → List ℕ
chunks zero i chunk_sz stop = []
chunks (suc fuel) i chunk_sz stop = elim (ltb (i * chunk_sz) stop) [
  | true ↦ i ∷ chunks fuel (i + 1) chunk_sz stop
  | false ↦ []
]

abbrev pub region : ℕ → ℕ → File → List ℕ
region start len f = chunks (start + len) (start / f.chunk_sz) f.chunk_sz (start + len)

abbrev pub is_other : ℕ → ℕ → File → Bool
is_other me i f = not (f.nlocked i == 0) && not (f.owner i == me)

unfoldable pub is_overlap : ℕ → List ℕ → File → Option Bool
is_overlap me [] f = some false
is_overlap me (i ∷ is) f =
    if ltb i nchunks then (if is_other me i f then some true else is_overlap me is f) else none

abbrev pub set_chunk : ℕ → ℕ → (ℕ → ℕ) → ℕ → ℕ
set_chunk i x a j = if j == i then x else a j

abbrev pub lock_chunk : ℕ → ℕ → File → File
lock_chunk me i f = record f {
  nlocked = set_chunk i (f.nlocked i + 1) f.nlocked;
  owner = set_chunk i me f.owner;
}

unfoldable pub lock_region : ℕ → List ℕ → File → LockResult
lock_region me [] f = finished success f
lock_region me (i ∷ is) f =
    if ltb i nchunks
    then if f.nlocked i == 0 || f.owner i == me
      then if ltb (f.nlocked i + 1) (2 ^ 31)
        then lock_region me is (lock_chunk me i f)
        else out_of_range
      else assertion_failed
    else out_of_range

unfoldable pub io61_try_lock : ℕ → ℕ → ℕ → File → LockResult
io61_try_lock me start len f =
    if len == 0 then finished success f else elim (is_overlap me (region start len f) f) [
      | none ↦ out_of_range
      | some overlap ↦ elim overlap [
        | true ↦ finished failure f
        | false ↦ lock_region me (region start len f) f
      ]
    ]

-- The `while` loop: `wakes` are the states that the thread finds after its waits, in order.
unfoldable pub wait_and_lock : ℕ → ℕ → ℕ → List File → File → LockResult
wait_and_lock me start len [] f = elim (is_overlap me (region start len f) f) [
  | none ↦ out_of_range
  | some overlap ↦ elim overlap [ true ↦ waits | false ↦ lock_region me (region start len f) f ]
]
wait_and_lock me start len (g ∷ wakes) f = elim (is_overlap me (region start len f) f) [
  | none ↦ out_of_range
  | some overlap ↦ elim overlap [
    | true ↦ wait_and_lock me start len wakes g
    | false ↦ lock_region me (region start len f) f
  ]
]

unfoldable pub io61_lock : ℕ → ℕ → ℕ → List File → File → LockResult
io61_lock me start len wakes f =
    if len == 0 then finished success f else wait_and_lock me start len wakes f

unfoldable pub unlock_region : ℕ → List ℕ → File → LockResult
unlock_region me [] f = finished success f
unlock_region me (i ∷ is) f =
    if ltb i nchunks
    then if not (f.nlocked i == 0) && f.owner i == me
      then unlock_region me is (record f { nlocked = set_chunk i (f.nlocked i - 1) f.nlocked })
      else assertion_failed
    else out_of_range

unfoldable pub io61_unlock : ℕ → ℕ → ℕ → File → LockResult
io61_unlock me start len f =
    if len == 0 then finished success f else unlock_region me (region start len f) f

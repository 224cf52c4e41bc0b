-- ===== src/Io61/Locks/Ledger.antt =====
-- The regions that threads hold, against the arrays of pset4/io61.cc that stand for them: chunk by
-- chunk, `nlocked` counts the regions held, and `owner` is the one thread that holds them.
use cs61_f23_psets_tomkhe.Prelude.{
  ℕ, ◌+◌, ◌/◌, ◌≤◌, ◌<◌, ◌≡◌, ◌≢◌, Bool, true, not, ◌&&◌, List, [], ◌∷◌, ◌++◌, arith, ◌==◌, ==_iff,
}
use cs61_f23_psets_tomkhe.Io61.Locks.{
  nchunks, File, fdopen_locks, success, failure, finished, region, io61_try_lock, io61_lock,
  io61_unlock,
}
use cs61_f23_psets_tomkhe.Io61.Locks.Chunks.{spans, bit, occurs, occurs-chunks}

-- A region that a thread has locked and not unlocked.
pub record Held : Type 0 where
  pub thread : ℕ
  pub start : ℕ
  pub len : ℕ

abbrev pub held : ℕ → ℕ → ℕ → Held
held thread start len = record { thread = thread; start = start; len = len }

-- A region of no bytes is no region: a call for it changes nothing.
abbrev pub covers : ℕ → Held → ℕ → Bool
covers c h j = not (h.len == 0) && spans c h.start (h.start + h.len) j

unfoldable pub depth : ℕ → ℕ → List Held → ℕ
depth c j [] = 0
depth c j (h ∷ hs) = bit (covers c h j) + depth c j hs

unfoldable pub OwnedBy : ℕ → ℕ → ℕ → List Held → Type 0
OwnedBy o c j [] = Unit {0}
OwnedBy o c j (h ∷ hs) = (covers c h j ≡ true → h.thread ≡ o) × OwnedBy o c j hs

pub record IsLedger (hs : List Held) (f : File) : Type 0 where
  pub chunk_pos : 0 < f.chunk_sz
  pub counts : (j : ℕ) → f.nlocked j ≡ depth f.chunk_sz j hs
  pub in_range : (j : ℕ) → nchunks ≤ j → f.nlocked j ≡ 0
  pub owners : (j : ℕ) → OwnedBy (f.owner j) f.chunk_sz j hs

-- What the threads of a program hold, in some order, and the file, after the calls that have
-- returned so far. A thread unlocks only a region that it holds. A waiting `io61_lock` is a `locked`
-- at the last of its wakes.
pub data Reaches (size : ℕ) (owner : ℕ → ℕ) : List Held → File → Type 0 where
  opened : Reaches size owner [] (fdopen_locks size owner)
  tried :
      (me start len : ℕ) (hs : List Held) (f g : File)
      → Reaches size owner hs f
      → io61_try_lock me start len f ≡ finished success g
      → Reaches size owner (held me start len ∷ hs) g
  refused :
      (me start len : ℕ) (hs : List Held) (f g : File)
      → Reaches size owner hs f
      → io61_try_lock me start len f ≡ finished failure g
      → Reaches size owner hs g
  locked :
      (me start len : ℕ) (hs : List Held) (f g : File)
      → Reaches size owner hs f
      → io61_lock me start len [] f ≡ finished success g
      → Reaches size owner (held me start len ∷ hs) g
  unlocked :
      (me start len : ℕ) (hs hs' : List Held) (f g : File)
      → Reaches size owner (hs ++ held me start len ∷ hs') f
      → io61_unlock me start len f ≡ finished success g
      → Reaches size owner (hs ++ hs') g

pub occurs-region :
    (start len j : ℕ) (f : File)
    → 0 < f.chunk_sz
    → occurs j (region start len f) ≡ bit (spans f.chunk_sz start (start + len) j)
occurs-region start len j f pos =
    occurs-chunks (start + len) (start / f.chunk_sz) f.chunk_sz (start + len) j pos (omega arith)

pub owned_idle : (o c j : ℕ) (hs : List Held) → depth c j hs ≡ 0 → OwnedBy o c j hs
unfolding depth OwnedBy
owned_idle o c j [] z = tt
owned_idle o c j (h ∷ hs) z = (λ e. ground arith, owned_idle o c j hs (omega arith))

pub covers_some :
    (me start len c j : ℕ)
    → len ≢ 0
    → covers c (held me start len) j ≡ spans c start (start + len) j
covers_some me start len c j ne = ground (arith, ==_iff len 0)

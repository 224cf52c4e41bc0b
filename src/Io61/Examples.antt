-- ===== src/Io61/Examples.antt =====
-- Threads that lock regions of files of pset4/io61.cc.
use cs61_f23_psets_tomkhe.Prelude.{ℕ, ◌≡◌, refl, ◌⊎◌, [], ◌∷◌, arith}
use mathlib.Core.List.{mem-cons_self, mem-cons_of_mem}
use cs61_f23_psets_tomkhe.Io61.Locks.{
  File, fdopen_locks, success, failure, finished, chunks, is_overlap, lock_chunk, lock_region,
  io61_try_lock, io61_lock, wait_and_lock, io61_unlock,
}
use cs61_f23_psets_tomkhe.Io61.Locks.Ledger.{held, IsLedger, Reaches, opened, tried}
use cs61_f23_psets_tomkhe.Io61.Locks.Reaching.{Reaches-IsLedger}
use cs61_f23_psets_tomkhe.Io61.Locks.Exclusion.{exclusion}
use cs61_f23_psets_tomkhe.Io61.Locks.Progress.{io61_unlock_succeeds}
use cs61_f23_psets_tomkhe.Io61.Locks.Trying.{IsContended, io61_try_lock_decides}

abbrev nobody : ℕ → ℕ
nobody i = 0

abbrev start_file : File
start_file = fdopen_locks 100 nobody

-- Thread 1 has locked the bytes 20 to 40, which lie in the chunks 1 and 2.
abbrev one_locked : File
one_locked = lock_chunk 1 2 (lock_chunk 1 1 start_file)

first_lock : io61_try_lock 1 20 20 start_file ≡ finished success one_locked
unfolding io61_try_lock chunks is_overlap lock_region
first_lock = refl

one_held : Reaches 100 nobody (held 1 20 20 ∷ []) one_locked
one_held = tried 1 20 20 [] start_file one_locked opened first_lock

-- Thread 2 locks the bytes 50 to 60, in the chunk 3.
abbrev two_locked : File
two_locked = lock_chunk 2 3 one_locked

second_lock : io61_try_lock 2 50 10 one_locked ≡ finished success two_locked
unfolding io61_try_lock chunks is_overlap lock_region
second_lock = refl

two_held : Reaches 100 nobody (held 2 50 10 ∷ held 1 20 20 ∷ []) two_locked
two_held = tried 2 50 10 _ one_locked two_locked one_held second_lock

-- Thread 1 locks one more time what it has locked.
abbrev twice_locked : File
twice_locked = lock_chunk 1 1 one_locked

again : io61_try_lock 1 20 4 one_locked ≡ finished success twice_locked
unfolding io61_try_lock chunks is_overlap lock_region
again = refl

contested : io61_try_lock 2 44 1 one_locked ≡ finished failure one_locked
unfolding io61_try_lock chunks is_overlap
contested = refl

Reaches-IsLedger_example : IsLedger (held 2 50 10 ∷ held 1 20 20 ∷ []) two_locked
Reaches-IsLedger_example =
    Reaches-IsLedger 100 nobody (held 2 50 10 ∷ held 1 20 20 ∷ []) two_locked two_held

exclusion_example : (held 1 20 4).thread ≡ (held 1 20 20).thread
exclusion_example =
    exclusion 100 nobody (held 1 20 4 ∷ held 1 20 20 ∷ []) twice_locked (held 1 20 4) (held 1 20 20)
      22 (tried 1 20 4 _ one_locked twice_locked one_held again) mem-cons_self
      (mem-cons_of_mem (held 1 20 4) mem-cons_self) (omega arith, omega arith)
      (omega arith, omega arith)

io61_unlock_succeeds_example :
    (g : File) × (io61_unlock 1 20 20 two_locked ≡ finished success g)
    × Reaches 100 nobody (held 2 50 10 ∷ []) g
io61_unlock_succeeds_example =
    io61_unlock_succeeds 100 nobody 1 20 20 (held 2 50 10 ∷ []) [] two_locked two_held

io61_try_lock_decides_example :
    (¬ IsContended 2 44 1 16 (held 1 20 20 ∷ [])
      × (g : File) × (io61_try_lock 2 44 1 one_locked ≡ finished success g)
      × Reaches 100 nobody (held 2 44 1 ∷ held 1 20 20 ∷ []) g)
    ⊎ (IsContended 2 44 1 16 (held 1 20 20 ∷ [])
        × (io61_try_lock 2 44 1 one_locked ≡ finished failure one_locked))
io61_try_lock_decides_example =
    io61_try_lock_decides 100 nobody 2 44 1 (held 1 20 20 ∷ []) one_locked one_held (omega arith)
      (omega arith) (omega arith)

-- Thread 2 waits until thread 1 has unlocked.
waited :
    io61_lock 2 44 1 (start_file ∷ []) one_locked ≡ finished success (lock_chunk 2 2 start_file)
unfolding io61_lock wait_and_lock chunks is_overlap lock_region
waited = refl

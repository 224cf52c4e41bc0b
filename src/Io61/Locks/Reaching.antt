-- ===== src/Io61/Locks/Reaching.antt =====
-- The arrays of pset4/io61.cc agree with the regions held in every state that calls reach.
use cs61_f23_psets_tomkhe.Prelude.{
  ℕ, ◌≡◌, ◌≢◌, ◌⊎◌, inl, inr, false, some, List, [], ◌∷◌, ◌++◌, arith, ◌==◌, Bool-cases,
}
use cs61_f23_psets_tomkhe.Io61.Locks.{
  File, success, failure, finished, region, is_overlap, lock_chunk, lock_region, io61_try_lock,
  io61_lock, wait_and_lock, io61_unlock,
}
use cs61_f23_psets_tomkhe.Io61.Locks.Ledger.{
  Held, held, IsLedger, Reaches, opened, tried, refused, locked, unlocked,
}
use cs61_f23_psets_tomkhe.Io61.Locks.Granting.{
  empty-IsLedger, opened-IsLedger, depth-append, OwnedBy-append, lock_region-IsLedger,
  unlock_region-IsLedger,
}

-- A call that succeeds has changed nothing, or has found the region free and locked it.
try_lock-cases :
    (me start len : ℕ) (f g : File)
    → io61_try_lock me start len f ≡ finished success g
    → ((len ≡ 0) × (f ≡ g))
      ⊎ ((len ≢ 0)
          × (is_overlap me (region start len f) f ≡ some false)
          × (lock_region me (region start len f) f ≡ finished success g))
unfolding io61_try_lock
try_lock-cases me start len f g e = elim (Bool-cases (len == 0)) [
  | inl z ↦ inl (ground arith)
  | inr n ↦ inr (ground arith)
]

lock-cases :
    (me start len : ℕ) (f g : File)
    → io61_lock me start len [] f ≡ finished success g
    → ((len ≡ 0) × (f ≡ g))
      ⊎ ((len ≢ 0)
          × (is_overlap me (region start len f) f ≡ some false)
          × (lock_region me (region start len f) f ≡ finished success g))
unfolding io61_lock wait_and_lock
lock-cases me start len f g e = elim (Bool-cases (len == 0)) [
  | inl z ↦ inl (ground arith)
  | inr n ↦ inr (ground arith)
]

granted-IsLedger :
    (me start len : ℕ) (hs : List Held) (f g : File)
    → IsLedger hs f
    → ((len ≡ 0) × (f ≡ g))
      ⊎ ((len ≢ 0)
          × (is_overlap me (region start len f) f ≡ some false)
          × (lock_region me (region start len f) f ≡ finished success g))
    → IsLedger (held me start len ∷ hs) g
granted-IsLedger me start len hs f g v (inl (z, same)) =
    rw (← same, z) (empty-IsLedger me start hs f v)
granted-IsLedger me start len hs f g v (inr (ne, free, e)) =
    lock_region-IsLedger me start len hs f g v ne free e

pub lock_region-succeeds :
    (me : ℕ) (is : List ℕ) (f g : File) → lock_region me is f ≡ finished failure g → ⊥
unfolding lock_region
lock_region-succeeds me [] f g e = cc
lock_region-succeeds me (i ∷ is) f g e =
    ground (arith, lock_region-succeeds me is (lock_chunk me i f) g)

refused_same :
    (me start len : ℕ) (f g : File) → io61_try_lock me start len f ≡ finished failure g → f ≡ g
unfolding io61_try_lock
refused_same me start len f g e = ground (arith, lock_region-succeeds me (region start len f) f g)

forget-IsLedger :
    (me start : ℕ) (hs hs' : List Held) (f : File)
    → IsLedger (hs ++ held me start 0 ∷ hs') f
    → IsLedger (hs ++ hs') f
forget-IsLedger me start hs hs' f v = record {
  chunk_pos = v.chunk_pos;
  counts = λ j. omega (arith, v.counts j, depth-append f.chunk_sz j (held me start 0) hs hs');
  in_range = v.in_range;
  owners = λ j. (OwnedBy-append (f.owner j) f.chunk_sz j (held me start 0) hs hs' (v.owners j)).1;
}

unlock-IsLedger :
    (me start len : ℕ) (hs hs' : List Held) (f g : File)
    → IsLedger (hs ++ held me start len ∷ hs') f
    → io61_unlock me start len f ≡ finished success g
    → IsLedger (hs ++ hs') g
unfolding io61_unlock
unlock-IsLedger me start len hs hs' f g v e = elim (Bool-cases (len == 0)) [
  | inl z ↦
      let none_held : len ≡ 0 = ground arith in
      let same : f ≡ g = ground arith in
      rw (← same) (forget-IsLedger me start hs hs' f (rw none_held at v))
  | inr n ↦ unlock_region-IsLedger me start len hs hs' f g v (ground arith) (rw n at e)
]

-- In every state that the calls of any threads reach, in any order, the arrays agree with the
-- regions held: each chunk counts the regions that meet it, all of them its owner's.
pub Reaches-IsLedger :
    (size : ℕ) (owner : ℕ → ℕ) (hs : List Held) (f : File) → Reaches size owner hs f → IsLedger hs f
Reaches-IsLedger size owner hs f opened = opened-IsLedger size owner
Reaches-IsLedger size owner hs f (tried me start len ks k g r e) =
    granted-IsLedger me start len ks k g (Reaches-IsLedger size owner ks k r)
      (try_lock-cases me start len k g e)
Reaches-IsLedger size owner hs f (refused me start len ks k g r e) =
    rw (← refused_same me start len k g e) (Reaches-IsLedger size owner ks k r)
Reaches-IsLedger size owner hs f (locked me start len ks k g r e) =
    granted-IsLedger me start len ks k g (Reaches-IsLedger size owner ks k r)
      (lock-cases me start len k g e)
Reaches-IsLedger size owner hs f (unlocked me start len ks ks' k g r e) =
    unlock-IsLedger me start len ks ks' k g (Reaches-IsLedger size owner _ k r) e

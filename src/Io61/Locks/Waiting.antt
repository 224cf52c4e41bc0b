-- ===== src/Io61/Locks/Waiting.antt =====
-- `io61_lock` of pset4/io61.cc returns what `io61_try_lock` gives at its last wake.
use cs61_f23_psets_tomkhe.Io61.Locks.Reaching.{lock_region-succeeds}
use cs61_f23_psets_tomkhe.Prelude.{
  ℕ, ◌≡◌, refl, ap, ◌∙◌, ◌≢◌, inl, inr, false, some, List, [], ◌∷◌, arith, ◌==◌, ==_iff, Bool-cases,
  Option-cases,
}
use mathlib.Core.List.{Mem, mem-cons_self, mem-cons_of_mem}
use cs61_f23_psets_tomkhe.Io61.Locks.{
  File, Status, success, failure, finished, region, is_overlap, lock_region, io61_try_lock,
  io61_lock, wait_and_lock,
}

lock_region-success :
    (me : ℕ) (is : List ℕ) (f g : File) (s : Status)
    → lock_region me is f ≡ finished s g
    → s ≡ success
lock_region-success me is f g success e = refl
lock_region-success me is f g failure e = absurd (lock_region-succeeds me is f g e)

abbrev pub LocksAtWake : ℕ → ℕ → ℕ → List File → Status → File → Type 0
LocksAtWake me start len wakes s g =
    (s ≡ success) × (k : File) × Mem k wakes × (io61_try_lock me start len k ≡ finished success g)

locks_here :
    (me start len : ℕ) (f g : File) (s : Status)
    → len ≢ 0
    → is_overlap me (region start len f) f ≡ some false
    → lock_region me (region start len f) f ≡ finished s g
    → (s ≡ success) × (io61_try_lock me start len f ≡ finished success g)
unfolding io61_try_lock
locks_here me start len f g s ne free e =
    let ok = lock_region-success me (region start len f) f g s e in
    (ok, ground (arith, ok, ==_iff len 0))

Locks-now :
    (me start len : ℕ) (wakes : List File) (f g : File) (s : Status)
    → len ≢ 0
    → is_overlap me (region start len f) f ≡ some false
    → lock_region me (region start len f) f ≡ finished s g
    → LocksAtWake me start len (f ∷ wakes) s g
Locks-now me start len wakes f g s ne free e =
    let (ok, found) = locks_here me start len f g s ne free e in (ok, f, mem-cons_self, found)

wait_and_lock-Locks :
    (me start len : ℕ) (wakes : List File) (f g : File) (s : Status)
    → len ≢ 0
    → wait_and_lock me start len wakes f ≡ finished s g
    → LocksAtWake me start len (f ∷ wakes) s g
unfolding wait_and_lock
wait_and_lock-Locks me start len [] f g s ne e =
    elim (Option-cases (is_overlap me (region start len f) f)) [
      | inl n ↦ absurd (ground arith)
      | inr (b, o) ↦ elim (Bool-cases b) [
        | inr free ↦ Locks-now me start len [] f g s ne (o ∙ ap some free) (ground arith)
        | inl taken ↦ absurd (ground arith)
      ]
    ]
wait_and_lock-Locks me start len (w ∷ wakes) f g s ne e =
    elim (Option-cases (is_overlap me (region start len f) f)) [
      | inl n ↦ absurd (ground arith)
      | inr (b, o) ↦ elim (Bool-cases b) [
        | inr free ↦ Locks-now me start len (w ∷ wakes) f g s ne (o ∙ ap some free) (ground arith)
        | inl taken ↦
            let (ok, k, m, t) = wait_and_lock-Locks me start len wakes w g s ne (ground arith) in
            (ok, k, mem-cons_of_mem f m, t)
      ]
    ]

-- `io61_lock` never returns -1: when it returns, it returns 0, and has locked the region as
-- `io61_try_lock` would have done in the state that the call found or in one that it woke up in.
pub io61_lock_waits :
    (me start len : ℕ) (wakes : List File) (f g : File) (s : Status)
    → io61_lock me start len wakes f ≡ finished s g
    → LocksAtWake me start len (f ∷ wakes) s g
unfolding io61_lock
io61_lock_waits me start len wakes f g s e = elim (Bool-cases (len == 0)) [
  | inl z ↦ (ground arith, f, mem-cons_self, unfold io61_try_lock in rw z (ground arith))
  | inr n ↦ wait_and_lock-Locks me start len wakes f g s (ground (arith, ==_iff len 0)) (rw n at e)
]

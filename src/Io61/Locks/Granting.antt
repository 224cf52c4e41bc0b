-- ===== src/Io61/Locks/Granting.antt =====
-- Locking and unlocking the chunks of a region (pset4/io61.cc) keeps arrays and regions in agreement.
use mathlib.Core.Path.{subst}
use cs61_f23_psets_tomkhe.Prelude.{
  ℕ, ◌+◌, ◌<◌, ◌≡◌, refl, sym, ap, ◌∙◌, ◌≢◌, ◌⊎◌, inl, inr, true, false, some, List, [], ◌∷◌, ◌++◌,
  arith,
}
use cs61_f23_psets_tomkhe.Io61.Locks.{
  File, fdopen_locks, success, finished, region, is_overlap, lock_region, unlock_region,
}
use cs61_f23_psets_tomkhe.Io61.Locks.Chunks.{
  bit, occurs, lock_region-Locked, lock_region-InRange, unlock_region-Unlocked, no_overlap,
}
use cs61_f23_psets_tomkhe.Io61.Locks.Ledger.{
  Held, held, covers, depth, OwnedBy, IsLedger, occurs-region, owned_idle, covers_some,
}

pub empty-IsLedger :
    (me start : ℕ) (hs : List Held) (f : File) → IsLedger hs f → IsLedger (held me start 0 ∷ hs) f
unfolding depth OwnedBy
empty-IsLedger me start hs f v = record {
  chunk_pos = v.chunk_pos;
  counts = λ j. omega (arith, v.counts j);
  in_range = v.in_range;
  owners = λ j. (λ e. cc, v.owners j);
}

module _ (me start len : ℕ) (hs : List Held) (f g : File) (v : IsLedger hs f) (ne : len ≢ 0)
    (free : is_overlap me (region start len f) f ≡ some false)
    (e : lock_region me (region start len f) f ≡ finished success g) where
  locks :
      (g.chunk_sz ≡ f.chunk_sz)
      × ((j : ℕ)
          → (g.nlocked j ≡ f.nlocked j + occurs j (region start len f))
            × (((0 < occurs j (region start len f)) × (g.owner j ≡ me))
                ⊎ ((occurs j (region start len f) ≡ 0) × (g.owner j ≡ f.owner j))))
  locks = lock_region-Locked me (region start len f) f g success e

  -- The chunks that the call has locked were this thread's, or nobody's.
  owned_before : (j : ℕ) → 0 < occurs j (region start len f) → OwnedBy me f.chunk_sz j hs
  owned_before j some_lock = elim (no_overlap me (region start len f) f j free) [
    | inl z ↦ absurd (omega arith)
    | inr idle ↦ elim idle [
      | inl z ↦ owned_idle me f.chunk_sz j hs (sym (v.counts j) ∙ z)
      | inr same ↦ subst (λ o. OwnedBy o f.chunk_sz j hs) same (v.owners j)
    ]
  ]

  owned_after :
      (j : ℕ)
      → (covers f.chunk_sz (held me start len) j ≡ true → me ≡ g.owner j)
        × OwnedBy (g.owner j) f.chunk_sz j hs
  owned_after j = elim ((locks.1 j).1) [
    | inl (some_lock, mine) ↦ rw mine (λ _. refl, owned_before j some_lock)
    | inr (none_there, same) ↦ rw same (λ c. absurd (uncovered c none_there), v.owners j)
  ]
    where
      uncovered :
          covers f.chunk_sz (held me start len) j ≡ true → occurs j (region start len f) ≡ 0 → ⊥
      uncovered c z =
          let is_spanned = sym (covers_some me start len f.chunk_sz j ne) ∙ c in
          let one = occurs-region start len j f v.chunk_pos ∙ ap bit is_spanned in omega arith

  depth_after : (j : ℕ) → g.nlocked j ≡ depth f.chunk_sz j (held me start len ∷ hs)
  unfolding depth
  depth_after j = omega (
    arith,
    (locks.1 j).0,
    v.counts j,
    ap bit (covers_some me start len f.chunk_sz j ne),
    occurs-region start len j f v.chunk_pos,
  )

  pub lock_region-IsLedger : IsLedger (held me start len ∷ hs) g
  lock_region-IsLedger = record {
    chunk_pos = rw locks.0 v.chunk_pos;
    counts = λ j. rw locks.0 (depth_after j);
    in_range = λ j le. ground (
      arith,
      (locks.1 j).0,
      v.in_range j,
      lock_region-InRange me (region start len f) f g success j e,
    );
    owners = λ j. rw locks.0 (unfold OwnedBy in owned_after j);
  }

pub depth-append :
    (c j : ℕ) (h : Held) (hs hs' : List Held)
    → depth c j (hs ++ h ∷ hs') ≡ bit (covers c h j) + depth c j (hs ++ hs')
unfolding depth
depth-append c j h [] hs' = refl
depth-append c j h (k ∷ hs) hs' = omega (arith, depth-append c j h hs hs')

pub OwnedBy-append :
    (o c j : ℕ) (h : Held) (hs hs' : List Held)
    → OwnedBy o c j (hs ++ h ∷ hs')
    → (covers c h j ≡ true → h.thread ≡ o) × OwnedBy o c j (hs ++ hs')
unfolding OwnedBy
OwnedBy-append o c j h [] hs' w = w
OwnedBy-append o c j h (k ∷ hs) hs' w =
    let (mine, rest) = OwnedBy-append o c j h hs hs' w.1 in (mine, (w.0, rest))

pub unlock_region-IsLedger :
    (me start len : ℕ) (hs hs' : List Held) (f g : File)
    → IsLedger (hs ++ held me start len ∷ hs') f
    → len ≢ 0
    → unlock_region me (region start len f) f ≡ finished success g
    → IsLedger (hs ++ hs') g
unlock_region-IsLedger me start len hs hs' f g v ne e =
    let unlocks = unlock_region-Unlocked me (region start len f) f g success e in
    record {
      chunk_pos = rw (unlocks.0) v.chunk_pos;
      counts = λ j. rw (unlocks.0) (
          omega (
            arith,
            (unlocks.1 j).0,
            v.counts j,
            depth-append f.chunk_sz j (held me start len) hs hs',
            ap bit (covers_some me start len f.chunk_sz j ne),
            occurs-region start len j f v.chunk_pos,
          ));
      in_range = λ j le. omega (arith, (unlocks.1 j).0, v.in_range j le);
      owners = λ j.
          rw (unlocks.0, (unlocks.1 j).1)
            (OwnedBy-append (f.owner j) f.chunk_sz j (held me start len) hs hs' (v.owners j)).1;
    }

pub opened-IsLedger : (size : ℕ) (owner : ℕ → ℕ) → IsLedger [] (fdopen_locks size owner)
unfolding depth OwnedBy
opened-IsLedger size owner = record {
  chunk_pos = ground arith;
  counts = λ j. refl;
  in_range = λ j le. refl;
  owners = λ j. tt;
}

-- ===== src/Io61/Locks/Progress.antt =====
-- `io61_unlock` of pset4/io61.cc succeeds on every region that is held.
use cs61_f23_psets_tomkhe.Io61.Locks.Reaching.{Reaches-IsLedger}
use cs61_f23_psets_tomkhe.Io61.Locks.Granting.{depth-append, OwnedBy-append}
use cs61_f23_psets_tomkhe.Prelude.{
  ℕ, ◌+◌, ◌-◌, ◌≤◌, ◌<◌, ◌≡◌, refl, sym, ap, ◌∙◌, ◌≢◌, ◌⊎◌, inl, inr, List, [], ◌∷◌, ◌++◌, arith,
  ◌==◌, ==_iff, Bool-cases,
}
use cs61_f23_psets_tomkhe.Io61.Locks.{
  nchunks, File, success, finished, region, set_chunk, unlock_region, io61_unlock,
}
use cs61_f23_psets_tomkhe.Io61.Locks.Chunks.{spans, bit, occurs}
use cs61_f23_psets_tomkhe.Io61.Locks.Ledger.{
  Held, held, IsLedger, Reaches, unlocked, occurs-region, covers_some,
}

unlock_region-Succeeds :
    (me : ℕ) (is : List ℕ) (f : File)
    → ((j : ℕ) → occurs j is ≤ f.nlocked j)
    → ((j : ℕ) → (occurs j is ≡ 0) ⊎ ((j < nchunks) × (f.owner j ≡ me)))
    → (g : File) × (unlock_region me is f ≡ finished success g)
unfolding unlock_region occurs
unlock_region-Succeeds me [] f enough mine = (f, refl)
unlock_region-Succeeds me (i ∷ is) f enough mine =
    let (g, e) =
      unlock_region-Succeeds me is (record f { nlocked = set_chunk i (f.nlocked i - 1) f.nlocked })
        (λ j. ground (arith, enough j, ==_iff i j, ==_iff j i)) (λ j. ground (arith, mine j)) in
    (g, ground (arith, enough i, mine i, ==_iff i i, ==_iff (f.owner i) me, ==_iff (f.nlocked i) 0))

held_chunks :
    (me start len : ℕ) (hs hs' : List Held) (f : File)
    → IsLedger (hs ++ held me start len ∷ hs') f
    → len ≢ 0
    → (j : ℕ) → (occurs j (region start len f) ≡ 0) ⊎ ((j < nchunks) × (f.owner j ≡ me))
held_chunks me start len hs hs' f v ne j =
    let c = f.chunk_sz in
    let spans_occurs = occurs-region start len j f v.chunk_pos in
    let mine = (OwnedBy-append (f.owner j) c j (held me start len) hs hs' (v.owners j)).0 in
    elim (Bool-cases (spans c start (start + len) j)) [
      | inr e ↦ inl (spans_occurs ∙ ap bit e)
      | inl e ↦
          let cover = covers_some me start len c j ne ∙ e in
          let locked_once = depth-append c j (held me start len) hs hs' in
          inr (ground (arith, ap bit cover, v.counts j, v.in_range j), sym (mine cover))
    ]

-- A thread that holds a region can always unlock it: the call returns 0, no assertion fails, and
-- the state that it leaves is one that calls reach, without that region.
pub io61_unlock_succeeds :
    (size : ℕ) (owner : ℕ → ℕ) (me start len : ℕ) (hs hs' : List Held) (f : File)
    → Reaches size owner (hs ++ held me start len ∷ hs') f
    → (g : File) × (io61_unlock me start len f ≡ finished success g)
      × Reaches size owner (hs ++ hs') g
unfolding io61_unlock
io61_unlock_succeeds size owner me start len hs hs' f r = elim (Bool-cases (len == 0)) [
  | inl z ↦ (f, rw z refl, unlocked me start len hs hs' f f r (unfold io61_unlock in rw z refl))
  | inr n ↦
      let v = Reaches-IsLedger size owner _ f r in
      let ne : len ≢ 0 = ground (arith, ==_iff len 0) in
      let (g, e) =
        unlock_region-Succeeds me (region start len f) f
          (λ j. omega (
            arith,
            v.counts j,
            depth-append f.chunk_sz j (held me start len) hs hs',
            ap bit (covers_some me start len f.chunk_sz j ne),
            occurs-region start len j f v.chunk_pos,
          ))
          (held_chunks me start len hs hs' f v ne) in
      (g, rw n e, unlocked me start len hs hs' f g r (unfold io61_unlock in rw n e))
]

-- ===== src/Io61/Locks/Exclusion.antt =====
-- No two threads hold the same byte of a file (pset4/io61.cc).
use cs61_f23_psets_tomkhe.Io61.Locks.Reaching.{Reaches-IsLedger}
use cs61_f23_psets_tomkhe.Prelude.{
  ℕ, ◌+◌, ◌/◌, ◌≤◌, ◌<◌, ◌≡◌, sym, ap, ◌∙◌, true, List, [], ◌∷◌, arith,
}
use mathlib.Core.Logic.Or
use mathlib.Core.List.{Mem, not-mem-nil, eq-or-mem_of_mem-cons}
use native.Mathlib.Nat.{ℕ_set, div-mul-le_self, le-div_iff_mul-le}
use cs61_f23_psets_tomkhe.Io61.Locks.{File}
use cs61_f23_psets_tomkhe.Io61.Locks.Ledger.{Held, covers, OwnedBy, Reaches}

abbrev pub HasByte : ℕ → Held → Type 0
HasByte b h = (h.start ≤ b) × (b < h.start + h.len)

covers_byte : (c b : ℕ) (h : Held) → 0 < c → HasByte b h → covers c h (b / c) ≡ true
covers_byte c b h pos has = ground (
  arith,
  has,
  div-mul-le_self h.start c,
  div-mul-le_self b c,
  le-div_iff_mul-le {k = c} {x = h.start / c} {y = b} pos,
)

pub OwnedBy-Mem :
    (o c j : ℕ) (h : Held) (hs : List Held)
    → Mem h hs
    → OwnedBy o c j hs
    → covers c h j ≡ true
    → h.thread ≡ o
unfolding OwnedBy
OwnedBy-Mem o c j h [] m w cover = absurd (not-mem-nil m)
OwnedBy-Mem o c j h (k ∷ hs) m w cover =
    Or.elim (ℕ_set h.thread o) (eq-or-mem_of_mem-cons m)
      (λ e. ap (λ (u : Held). u.thread) e ∙ w.0 (rw e at cover))
      (λ n. OwnedBy-Mem o c j h hs n w.1 cover)

-- In every state that the calls of any threads reach, two regions that are held and have a byte in
-- common are held by the same thread.
pub exclusion :
    (size : ℕ) (owner : ℕ → ℕ) (hs : List Held) (f : File) (h k : Held) (b : ℕ)
    → Reaches size owner hs f
    → Mem h hs
    → Mem k hs
    → HasByte b h
    → HasByte b k
    → h.thread ≡ k.thread
exclusion size owner hs f h k b r mh mk hb kb =
    let v = Reaches-IsLedger size owner hs f r in
    let j = b / f.chunk_sz in
    OwnedBy-Mem (f.owner j) f.chunk_sz j h hs mh (v.owners j)
      (covers_byte f.chunk_sz b h v.chunk_pos hb)
    ∙ sym (
        OwnedBy-Mem (f.owner j) f.chunk_sz j k hs mk (v.owners j)
          (covers_byte f.chunk_sz b k v.chunk_pos kb))

-- ===== src/Io61/Locks/Trying.antt =====
-- `io61_try_lock` of pset4/io61.cc decides whether a region is free.
use cs61_f23_psets_tomkhe.Io61.Locks.Reaching.{Reaches-IsLedger}
use cs61_f23_psets_tomkhe.Prelude.{
  ℕ, ◌+◌, ◌*◌, ◌^◌, ◌≤◌, ◌<◌, ◌≡◌, refl, sym, ap, ◌∙◌, ◌≢◌, ◌⊎◌, inl, inr, true, false, none, some,
  List, [], ◌∷◌, arith, ==_iff, Bool-cases, Option-cases, length,
}
use mathlib.Core.List.{Mem, mem-cons_self, mem-cons_of_mem}
use native.Mathlib.Nat.{mul-le-mul_right}
use cs61_f23_psets_tomkhe.Io61.Locks.{
  nchunks, File, success, failure, finished, region, is_other, is_overlap, lock_chunk, lock_region,
  io61_try_lock,
}
use cs61_f23_psets_tomkhe.Io61.Locks.Chunks.{spans, bit, occurs, no_overlap}
use cs61_f23_psets_tomkhe.Io61.Locks.Ledger.{
  Held, held, covers, depth, IsLedger, Reaches, tried, owned_idle, occurs-region,
}
use cs61_f23_psets_tomkhe.Io61.Locks.Exclusion.{OwnedBy-Mem}

is_overlap_found :
    (me : ℕ) (is : List ℕ) (f : File)
    → is_overlap me is f ≡ some true
    → (j : ℕ) × (0 < occurs j is) × (f.nlocked j ≢ 0) × (f.owner j ≢ me)
unfolding is_overlap occurs
is_overlap_found me [] f e = absurd (ground arith)
is_overlap_found me (i ∷ is) f e = elim (Bool-cases (is_other me i f)) [
  | inl other ↦ (
    i,
    ground (arith, ==_iff i i),
    λ z. ground (arith, ==_iff (f.nlocked i) 0),
    λ o. ground (arith, ==_iff (f.owner i) me),
  )
  | inr mine ↦
      let (j, lt, busy, other) = is_overlap_found me is f (ground arith) in
      (j, ground arith, busy, other)
]

is_overlap_total :
    (me : ℕ) (is : List ℕ) (f : File)
    → ((j : ℕ) → 0 < occurs j is → j < nchunks)
    → is_overlap me is f ≢ none
unfolding is_overlap occurs
is_overlap_total me [] f near e = ground arith
is_overlap_total me (i ∷ is) f near e =
    ground (arith, near i, ==_iff i i, is_overlap_total me is f (λ j lt. near j (ground arith)))

lock_region-Succeeds :
    (me : ℕ) (is : List ℕ) (f : File)
    → ((j : ℕ)
        → 0 < occurs j is
        → (j < nchunks)
          × ((f.nlocked j ≡ 0) ⊎ (f.owner j ≡ me))
          × (f.nlocked j + occurs j is < 2 ^ 31))
    → (g : File) × (lock_region me is f ≡ finished success g)
unfolding lock_region occurs
lock_region-Succeeds me [] f ok = (f, refl)
lock_region-Succeeds me (i ∷ is) f ok =
    let (g, e) =
      lock_region-Succeeds me is (lock_chunk me i f)
        (λ j lt. ground (arith, ok j (ground arith), ==_iff i j, ==_iff j i)) in
    (g, ground (arith, ok i, ==_iff i i, ==_iff (f.owner i) me, ==_iff (f.nlocked i) 0))

depth_found :
    (c j : ℕ) (hs : List Held) → depth c j hs ≢ 0 → (h : Held) × Mem h hs × (covers c h j ≡ true)
unfolding depth
depth_found c j [] ne = absurd (ne refl)
depth_found c j (h ∷ hs) ne = elim (Bool-cases (covers c h j)) [
  | inl e ↦ (h, mem-cons_self, e)
  | inr e ↦
      let (k, m, cover) = depth_found c j hs (λ z. ne (rw (e, z) refl)) in
      (k, mem-cons_of_mem h m, cover)
]

depth-le-length : (c j : ℕ) (hs : List Held) → depth c j hs ≤ length hs
unfolding depth
depth-le-length c j [] = omega arith
depth-le-length c j (h ∷ hs) = ground (arith, depth-le-length c j hs)

-- Another thread holds a region that meets a chunk of this one.
abbrev pub IsContended : ℕ → ℕ → ℕ → ℕ → List Held → Type 0
IsContended me start len c hs =
    (h : Held) × (j : ℕ) × Mem h hs
    × (h.thread ≢ me)
    × (covers c h j ≡ true)
    × (spans c start (start + len) j ≡ true)

module _ (me start len : ℕ) (hs : List Held) (f : File) (v : IsLedger hs f) (ne : len ≢ 0)
    (inside : start + len ≤ nchunks * f.chunk_sz) (few : length hs + 1 < 2 ^ 31) where
  near : (j : ℕ) → 0 < occurs j (region start len f) → j < nchunks
  near j lt =
      let above : nchunks ≤ j → nchunks * f.chunk_sz ≤ j * f.chunk_sz =
        λ h. mul-le-mul_right f.chunk_sz h in
      ground (arith, occurs-region start len j f v.chunk_pos, above)

  free_chunks :
      is_overlap me (region start len f) f ≡ some false
      → (j : ℕ) → 0 < occurs j (region start len f)
      → (j < nchunks)
        × ((f.nlocked j ≡ 0) ⊎ (f.owner j ≡ me))
        × (f.nlocked j + occurs j (region start len f) < 2 ^ 31)
  free_chunks free j lt = ground (
    arith,
    near j lt,
    no_overlap me (region start len f) f j free,
    occurs-region start len j f v.chunk_pos,
    v.counts j,
    depth-le-length f.chunk_sz j hs,
  )

  uncontended :
      is_overlap me (region start len f) f ≡ some false → IsContended me start len f.chunk_sz hs → ⊥
  uncontended free (h, j, m, other, cover, spanned) =
      let here = occurs-region start len j f v.chunk_pos ∙ ap bit spanned in
      elim (no_overlap me (region start len f) f j free) [
        | inl z ↦ absurd (omega arith)
        | inr idle ↦ elim idle [
          | inl z ↦
              let anyone = owned_idle (h.thread + 1) f.chunk_sz j hs (sym (v.counts j) ∙ z) in
              let wrong = OwnedBy-Mem (h.thread + 1) f.chunk_sz j h hs m anyone cover in
              absurd (omega arith)
          | inr mine ↦ other (OwnedBy-Mem (f.owner j) f.chunk_sz j h hs m (v.owners j) cover ∙ mine)
        ]
      ]

  contended :
      is_overlap me (region start len f) f ≡ some true → IsContended me start len f.chunk_sz hs
  contended taken =
      let (j, lt, busy, other) = is_overlap_found me (region start len f) f taken in
      let (h, m, cover) = depth_found f.chunk_sz j hs (λ z. busy (v.counts j ∙ z)) in
      let owned = OwnedBy-Mem (f.owner j) f.chunk_sz j h hs m (v.owners j) cover in
      (
        h,
        j,
        m,
        (λ same. other (sym owned ∙ same)),
        cover,
        ground (arith, occurs-region start len j f v.chunk_pos),
      )

-- In a state that calls reach, in which fewer than 2^31 - 1 regions are held, and for a region of at
-- least one byte that the chunks reach, `io61_try_lock` decides: either no other thread holds a
-- region that meets one of its chunks, and it locks the region; or one does, and it returns -1 and
-- leaves the locks as they were.
pub io61_try_lock_decides :
    (size : ℕ) (owner : ℕ → ℕ) (me start len : ℕ) (hs : List Held) (f : File)
    → Reaches size owner hs f
    → len ≢ 0
    → start + len ≤ nchunks * f.chunk_sz
    → length hs + 1 < 2 ^ 31
    → (¬ IsContended me start len f.chunk_sz hs
        × (g : File) × (io61_try_lock me start len f ≡ finished success g)
        × Reaches size owner (held me start len ∷ hs) g)
      ⊎ (IsContended me start len f.chunk_sz hs
          × (io61_try_lock me start len f ≡ finished failure f))
io61_try_lock_decides size owner me start len hs f r ne inside few =
    let v = Reaches-IsLedger size owner hs f r in
    elim (Option-cases (is_overlap me (region start len f) f)) [
      | inl n ↦
          absurd
            (is_overlap_total me (region start len f) f (near me start len hs f v ne inside few) n)
      | inr (b, o) ↦ elim (Bool-cases b) [
        | inl taken ↦ inr (
          contended me start len hs f v ne inside few (o ∙ ap some taken),
          unfold io61_try_lock in ground (arith, ==_iff len 0),
        )
        | inr untaken ↦
            let free = o ∙ ap some untaken in
            let (g, e) =
              lock_region-Succeeds me (region start len f) f
                (free_chunks me start len hs f v ne inside few free) in
            let done : io61_try_lock me start len f ≡ finished success g =
              unfold io61_try_lock in ground (arith, ==_iff len 0) in
            inl (
              uncontended me start len hs f v ne inside few free,
              g,
              done,
              tried me start len hs f g r done,
            )
      ]
    ]

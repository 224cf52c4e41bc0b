-- ===== src/M61/Separation.antt =====
-- Free blocks of pset1/m61.cc are joined as far as they can be: between two of them lies at least
-- one byte that is not free.
use cs61_f23_psets_tomkhe.Prelude.{
  ℕ, suc, ◌+◌, ◌-◌, ◌≤◌, ◌<◌, ◌≡◌, refl, ap, ◌∙◌, ◌⊎◌, inl, inr, none, some, List, [], ◌∷◌, arith,
  ◌==◌, if◌then◌else◌, Bool-cases, Option-cases,
}
use cs61_f23_psets_tomkhe.OrderedMap.{find, insert, erase, assign, upper_bound, before}
use cs61_f23_psets_tomkhe.OrderedMap.Sorted.{
  IsSorted, IsSorted-mono, insert-IsSorted, erase-IsSorted, assign-IsSorted, find-below,
  upper_bound-find, before-find,
}
use cs61_f23_psets_tomkhe.M61.Malloc.{shrink_block}
use cs61_f23_psets_tomkhe.M61.Free.{merge_right, merge_left, coalesce}

-- Blocks in ascending order, none touching the next.
abbrev pub IsSeparated : ℕ → List (ℕ × ℕ) → Type 0
IsSeparated b [] = Unit {0}
IsSeparated b ((k, n) ∷ m) = (b ≤ k) × (0 < n) × IsSeparated (k + n + 1) m

IsSeparated-mono : {a b : ℕ} (m : List (ℕ × ℕ)) → a ≤ b → IsSeparated b m → IsSeparated a m
IsSeparated-mono [] h p = tt
IsSeparated-mono ((k, n) ∷ m) h p = (omega arith, p.1, p.2)

before-none : (k b : ℕ) (m : List (ℕ × ℕ)) → k ≤ b → IsSeparated b m → before k m ≡ none
unfolding before
before-none k b [] h p = refl
before-none k b ((j, n) ∷ m) h p = ground arith

-- A new block that overlaps no block of the map.
abbrev pub Apart : ℕ → ℕ → List (ℕ × ℕ) → Type 0
Apart k n [] = Unit {0}
Apart k n ((j, w) ∷ m) = ((k + n ≤ j) ⊎ (j + w ≤ k)) × Apart k n m

-- `coalesce` in front of every block that is larger, and past one that is smaller.
coalesce-front :
    (k n j w : ℕ) (m : List (ℕ × ℕ))
    → k + n ≤ j
    → 0 < n
    → IsSeparated j ((j, w) ∷ m)
    → coalesce k n ((j, w) ∷ m) ≡ (if k + n == j then (k, n + w) ∷ m else (k, n) ∷ (j, w) ∷ m)
unfolding coalesce merge_left merge_right insert upper_bound before assign erase
coalesce-front k n j w m h pos p = ground arith

insert-cons :
    (k n j w : ℕ) (m : List (ℕ × ℕ)) → j < k → insert k n ((j, w) ∷ m) ≡ (j, w) ∷ insert k n m
unfolding insert
insert-cons k n j w m h = ground arith

merge_right-cons :
    (k n j w : ℕ) (m : List (ℕ × ℕ))
    → j < k
    → merge_right k n ((j, w) ∷ m) ≡ ((merge_right k n m).0, (j, w) ∷ (merge_right k n m).1)
unfolding merge_right upper_bound assign erase
merge_right-cons k n j w m h = elim (Option-cases (upper_bound k m)) [
  | inl e ↦ ground arith
  | inr ((right, r), e) ↦ ground (arith, upper_bound-find k right r m e)
]

merge_right-IsSorted :
    (k n b : ℕ) (m : List (ℕ × ℕ)) → IsSorted b m → IsSorted b (merge_right k n m).1
unfolding merge_right
merge_right-IsSorted k n b m h = elim (Option-cases (upper_bound k m)) [
  | inl e ↦ rw (e, merge_right) h
  | inr ((right, r), e) ↦
      rw (e, merge_right)
        (elim (Bool-cases (n == right - k)) [
          | inl near ↦ rw near (erase-IsSorted right b _ (assign-IsSorted k b (n + r) m h))
          | inr far ↦ rw far h
        ])
]

merge_left-cons :
    (k n j w left l : ℕ) (m : List (ℕ × ℕ))
    → j < k
    → before k m ≡ some (left, l)
    → j < left
    → merge_left k (n, (j, w) ∷ m) ≡ (j, w) ∷ merge_left k (n, m)
unfolding merge_left before assign erase
merge_left-cons k n j w left l m h e lt = ground arith

before-cons :
    (k i u : ℕ) (m : List (ℕ × ℕ))
    → i < k
    → IsSorted (suc i) m
    → (left : ℕ) × (l : ℕ) × (before k ((i, u) ∷ m) ≡ some (left, l)) × (i ≤ left)
unfolding before
before-cons k i u m h p = elim (Option-cases (before k m)) [
  | inl e ↦ (i, u, ground arith, omega arith)
  | inr ((left, l), e) ↦
      let found = before-find k (suc i) left l m p e in
      (left, l, ground arith, omega (arith, found.0))
]

IsSeparated-IsSorted : (b : ℕ) (m : List (ℕ × ℕ)) → IsSeparated b m → IsSorted b m
IsSeparated-IsSorted b [] p = tt
IsSeparated-IsSorted b ((k, n) ∷ m) p =
    (p.0, IsSorted-mono m (omega arith) (IsSeparated-IsSorted (k + n + 1) m p.2))

coalesce-skip :
    (k n j w i u : ℕ) (m : List (ℕ × ℕ))
    → j < i
    → i < k
    → IsSorted (suc i) m
    → coalesce k n ((j, w) ∷ (i, u) ∷ m) ≡ (j, w) ∷ coalesce k n ((i, u) ∷ m)
unfolding coalesce
coalesce-skip k n j w i u m h g p =
    let r = merge_right k n (insert k n m) in
    let sorted = merge_right-IsSorted k n (suc i) _ (insert-IsSorted k (suc i) n m g p) in
    let (left, l, e, le) = before-cons k i u r.1 g sorted in
    ap (λ x. merge_left k (merge_right k n x)) (insert-cons k n j w ((i, u) ∷ m) (omega arith))
    ∙ ap (λ x. merge_left k x) (merge_right-cons k n j w (insert k n ((i, u) ∷ m)) (omega arith))
    ∙ rw (insert-cons k n i u m g) (
        rw (merge_right-cons k n i u (insert k n m) g)
          (merge_left-cons k r.0 j w left l ((i, u) ∷ r.1) (omega arith) e (omega arith)))

-- between its two neighbours
coalesce-between :
    (b k n j w i u : ℕ) (m : List (ℕ × ℕ))
    → 0 < n
    → j + w ≤ k
    → k + n ≤ i
    → IsSeparated b ((j, w) ∷ (i, u) ∷ m)
    → IsSeparated b (coalesce k n ((j, w) ∷ (i, u) ∷ m))
unfolding coalesce merge_left merge_right insert upper_bound before assign erase
coalesce-between b k n j w i u m pos h g p =
    ground (arith, before-none k (i + u + 1) m, IsSeparated-mono {a = i + u + 1} {b = i + u + 1} m)

coalesce-last :
    (b k n j w : ℕ) → 0 < n → 0 < w → b ≤ j → j + w ≤ k → IsSeparated b (coalesce k n ((j, w) ∷ []))
unfolding coalesce merge_left merge_right insert upper_bound before assign erase
coalesce-last b k n j w pos posw h g = ground arith

coalesce-empty : (b k n : ℕ) → 0 < n → b ≤ k → IsSeparated b (coalesce k n [])
unfolding coalesce merge_left merge_right insert upper_bound before assign erase
coalesce-empty b k n pos h = ground arith

pub coalesce-IsSeparated :
    (b k n : ℕ) (m : List (ℕ × ℕ))
    → 0 < n
    → b ≤ k
    → Apart k n m
    → IsSeparated b m
    → IsSeparated b (coalesce k n m)
coalesce-IsSeparated b k n [] pos h o p = coalesce-empty b k n pos h
coalesce-IsSeparated b k n ((j, w) ∷ m) pos h (inl right, o) p =
    rw (coalesce-front k n j w m right pos (omega arith, p.1, p.2))
      (ground (arith, IsSeparated-mono {a = k + (n + w) + 1} {b = j + w + 1} m))
coalesce-IsSeparated b k n ((j, w) ∷ []) pos h (inr left, o) p =
    coalesce-last b k n j w pos p.1 p.0 left
coalesce-IsSeparated b k n ((j, w) ∷ (i, u) ∷ m) pos h (inr left, (inl right, o)) p =
    coalesce-between b k n j w i u m pos left right p
coalesce-IsSeparated b k n ((j, w) ∷ (i, u) ∷ m) pos h (inr left, (inr left', o)) p =
    rw
      (coalesce-skip k n j w i u m (omega arith) (omega arith)
        (IsSorted-mono m (omega arith) (IsSeparated-IsSorted (i + u + 1) m p.2.2)))
      (
        p.0,
        p.1,
        coalesce-IsSeparated (j + w + 1) k n ((i, u) ∷ m) pos (omega arith) (inr left', o) p.2,
      )

insert-front : (k v b : ℕ) (m : List (ℕ × ℕ)) → k < b → IsSeparated b m → insert k v m ≡ (k, v) ∷ m
unfolding insert
insert-front k v b [] h p = refl
insert-front k v b ((j, w) ∷ m) h p = ground arith

find-at-least : (k n b : ℕ) (m : List (ℕ × ℕ)) → IsSeparated b m → find k m ≡ some n → b ≤ k
unfolding find
find-at-least k n b [] p f = cc
find-at-least k n b ((j, w) ∷ m) p f = ground (arith, find-at-least k n (j + w + 1) m)

pub shrink_block-IsSeparated :
    (b start n used : ℕ) (m : List (ℕ × ℕ))
    → find start m ≡ some n
    → 0 < used
    → used ≤ n
    → IsSeparated b m
    → IsSeparated b (shrink_block start n used m)
unfolding shrink_block find erase insert
shrink_block-IsSeparated b start n used [] f pos le p = cc
shrink_block-IsSeparated b start n used ((j, w) ∷ m) f pos le p = elim (Bool-cases (j == start)) [
  | inl same ↦ ground (
    arith,
    insert-front (start + used) (start + n - (start + used)) (j + w + 1) m,
    IsSeparated-mono {a = b} {b = j + w + 1} m,
    IsSeparated-mono {a = start + used + (start + n - (start + used)) + 1} {b = j + w + 1} m,
  )
  | inr other ↦ ground (
    arith,
    find-at-least start n (j + w + 1) m p.2 (rw other at f),
    shrink_block-IsSeparated (j + w + 1) start n used m (rw other at f) pos le p.2,
  )
]

-- The blocks of a map that each keep off a new one.
pub Apart-of-find :
    (k n b : ℕ) (m : List (ℕ × ℕ))
    → IsSorted b m
    → ((j w : ℕ) → find j m ≡ some w → (k + n ≤ j) ⊎ (j + w ≤ k))
    → Apart k n m
unfolding find
Apart-of-find k n b [] s f = tt
Apart-of-find k n b ((j, w) ∷ m) s f = (
  f j w (ground arith),
  Apart-of-find k n (suc j) m s.1 (λ i u e. f i u (ground (arith, find-below i (suc j) m))),
)

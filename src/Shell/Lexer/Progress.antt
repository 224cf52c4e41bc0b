-- ===== src/Shell/Lexer/Progress.antt =====
-- Every token of pset5/helpers.cc but the end's takes at least one byte and ends in the string.
use cs61_f23_psets_tomkhe.Prelude.{
  ℕ, zero, suc, ◌+◌, ◌-◌, ◌≤◌, ◌<◌, ◌≡◌, refl, ap, ◌⊎◌, inl, inr, Bool, true, false, some, List, [],
  ◌∷◌, arith, ◌==◌, Bool-cases, length, drop,
}
use mathlib.Core.Path.{subst}
use cs61_f23_psets_tomkhe.Shell.Lexer.{
  CString, at, isspace, isshellspecial, Token, skip_spaces, skip_comment, count_digits, goes_on,
  read_word, redirect_length, classify, update, begin, at_end, tokens,
}

count_digits-le : (s : CString) → count_digits s ≤ length s
unfolding count_digits
count_digits-le [] = omega arith
count_digits-le (c ∷ s) = ground (arith, count_digits-le s)

pub length-drop : (n : ℕ) (s : CString) → length (drop n s) ≡ length s - n
length-drop zero s = omega arith
length-drop (suc n) [] = omega arith
length-drop (suc n) (c ∷ s) = omega (arith, length-drop n s)

pub read_word_bounds :
    (len : ℕ) (quoted : Bool) (q : ℕ) (s : CString)
    → (len ≤ (read_word len quoted q s).0) × ((read_word len quoted q s).0 ≤ len + length s)
unfolding read_word
read_word_bounds len quoted q [] = omega arith
read_word_bounds len quoted q (c ∷ []) = ground arith
read_word_bounds len quoted q (c ∷ d ∷ s) = ground (
  arith,
  read_word_bounds (len + 1) true c (d ∷ s),
  read_word_bounds (len + 1) quoted 0 (d ∷ s),
  read_word_bounds (len + 2) true q s,
  read_word_bounds (len + 1) quoted q (d ∷ s),
)

-- No byte of a C string is the terminator.
abbrev pub IsCString : CString → Type 0
IsCString [] = Unit {0}
IsCString (c ∷ s) = (0 < c) × IsCString s

at-in : (s : CString) (i : ℕ) → 0 < at s i → i < length s
at-in [] i h = absurd (omega arith)
at-in (c ∷ s) zero h = omega arith
at-in (c ∷ s) (suc i) h = omega (arith, at-in s i h)

read_word_pos :
    (len : ℕ) (quoted : Bool) (q c : ℕ) (s : CString)
    → goes_on q c ≡ true
    → len < (read_word len quoted q (c ∷ s)).0
unfolding read_word
read_word_pos len quoted q c [] h = ground arith
read_word_pos len quoted q c (d ∷ s) h = ground (
  arith,
  read_word_bounds (len + 1) true c (d ∷ s),
  read_word_bounds (len + 1) quoted 0 (d ∷ s),
  read_word_bounds (len + 2) true q s,
  read_word_bounds (len + 1) quoted q (d ∷ s),
)

redirect_length_bounds :
    (n : ℕ) (s : CString)
    → n < length s
    → (0 < redirect_length n s) × (redirect_length n s ≤ length s)
unfolding redirect_length
redirect_length_bounds n s h =
    ground (arith, at-in s (n + 1), count_digits-le (drop (n + 1) s), length-drop (n + 1) s)

word_bounds :
    (n c : ℕ) (s : CString)
    → n ≤ length (c ∷ s)
    → (n ≡ 0 → goes_on 0 c ≡ true)
    → (0 < (read_word n false 0 (drop n (c ∷ s))).0)
      × ((read_word n false 0 (drop n (c ∷ s))).0 ≤ length (c ∷ s))
word_bounds zero c s h g =
    (read_word_pos 0 false 0 c s (g refl), omega (arith, read_word_bounds 0 false 0 (c ∷ s)))
word_bounds (suc n) c s h g =
    omega (arith, read_word_bounds (suc n) false 0 (drop n s), length-drop n s)

classify_bounds :
    (n c : ℕ) (s : CString)
    → n ≤ length (c ∷ s)
    → 0 < c
    → isspace c ≡ false
    → (0 < (classify n (c ∷ s)).len)
      × ((classify n (c ∷ s)).len ≤ length (c ∷ s))
      × ((classify n (c ∷ s)).s ≡ c ∷ s)
unfolding classify
classify_bounds n c s le pos sp =
    ground (arith, at-in (c ∷ s) n, at-in s 0, redirect_length_bounds n (c ∷ s), word_bounds n c s)

skip_spaces-space : (s : CString) → isspace (at (skip_spaces s) 0) ≡ false
unfolding skip_spaces
skip_spaces-space [] = refl
skip_spaces-space (c ∷ s) = ground (arith, skip_spaces-space s)

skip_spaces-IsCString :
    (s : CString) → IsCString s → IsCString (skip_spaces s) × (length (skip_spaces s) ≤ length s)
unfolding skip_spaces
skip_spaces-IsCString [] h = omega arith
skip_spaces-IsCString (c ∷ s) h = ground (arith, skip_spaces-IsCString s h.1)

drop-IsCString : (n : ℕ) (s : CString) → IsCString s → IsCString (drop n s)
drop-IsCString zero s h = h
drop-IsCString (suc n) [] h = tt
drop-IsCString (suc n) (c ∷ s) h = drop-IsCString n s h.1

-- What `update` makes of the rest `r` of the string behind spaces and comments.
abbrev Advances : CString → Token → Type 0
Advances r t =
    (t.s ≡ r)
    × IsCString t.s
    × ((at_end t ≡ true) ⊎ (at_end t ≡ false) × (0 < t.len) × (t.len ≤ length t.s))

classify-Advances :
    (r : CString)
    → IsCString r
    → isspace (at r 0) ≡ false
    → Advances r (classify (count_digits r) r)
classify-Advances [] h sp =
    unfold classify count_digits redirect_length isshellspecial read_word in (refl, tt, inl refl)
classify-Advances (c ∷ s) h sp =
    let bounds = classify_bounds (count_digits (c ∷ s)) c s (count_digits-le (c ∷ s)) h.0 sp in
    let same = bounds.2 in (same, rw same h, inr (rw same refl, bounds.0, rw same (bounds.1)))

update-Advances :
    (s : CString)
    → IsCString s
    → Advances (skip_comment (skip_spaces s)) (update s)
      × (length (skip_comment (skip_spaces s)) ≤ length s)
unfolding update skip_comment
update-Advances s h = start (skip_spaces s) (skip_spaces-space s) (skip_spaces-IsCString s h)
  where
    start :
        (r : CString)
        → isspace (at r 0) ≡ false
        → IsCString r × (length r ≤ length s)
        → Advances (skip_comment r) (classify (count_digits (skip_comment r)) (skip_comment r))
          × (length (skip_comment r) ≤ length s)
    start [] sp p = (classify-Advances [] tt refl, p.1)
    start (c ∷ r) sp p = elim (Bool-cases (c == b'#')) [
      | inl e ↦ rw e (classify-Advances [] tt refl, omega arith)
      | inr e ↦ rw e (classify-Advances (c ∷ r) p.0 sp, p.1)
    ]

-- Behind a token that is not the end's, the string is shorter.
next_shorter :
    (s : CString)
    → IsCString s
    → at_end (update s) ≡ false
    → IsCString (drop (update s).len (update s).s)
      × (length (drop (update s).len (update s).s) < length s)
next_shorter s h e = shorter adv.0.2
  where
    adv :
        Advances (skip_comment (skip_spaces s)) (update s)
        × (length (skip_comment (skip_spaces s)) ≤ length s)
    adv = update-Advances s h

    shorter :
        (at_end (update s) ≡ true)
          ⊎ (at_end (update s) ≡ false)
            × (0 < (update s).len)
            × ((update s).len ≤ length (update s).s)
        → IsCString (drop (update s).len (update s).s)
          × (length (drop (update s).len (update s).s) < length s)
    shorter (inl z) = cc
    shorter (inr (z, pos, le)) = (
      drop-IsCString (update s).len (update s).s adv.0.1,
      omega (arith, length-drop (update s).len (update s).s, ap length adv.0.0, adv.1, pos, le),
    )

tokens_from :
    (fuel : ℕ) (s : CString)
    → IsCString s
    → length s < fuel
    → (ts : List Token) × (tokens fuel (update s) ≡ some ts) × (length ts ≤ length s)
unfolding tokens
tokens_from zero s h lt = absurd (omega arith)
tokens_from (suc fuel) s h lt = elim (Bool-cases (at_end (update s))) [
  | inl e ↦ ([], rw e refl, omega arith)
  | inr e ↦
      let shorter = next_shorter s h e in
      let (ts, found, le) =
        tokens_from fuel (drop (update s).len (update s).s) shorter.0 (omega arith) in
      (update s ∷ ts, rw e (rw found refl), omega arith)
]

-- The loop over the tokens of a line ends, after at most as many tokens as the line has bytes.
pub tokens_total :
    (line : CString)
    → IsCString line
    → (ts : List Token) × (tokens (length line + 1) (begin line) ≡ some ts)
      × (length ts ≤ length line)
tokens_total line h =
    let adv = update-Advances line h in
    let trimmed = subst IsCString adv.0.0 adv.0.1 in
    let (ts, found, le) =
      tokens_from (length line + 1) (skip_comment (skip_spaces line)) trimmed
        (omega (arith, adv.1)) in
    (ts, found, omega (arith, le, adv.1))

-- ===== src/Bank/Records/RoundTrip.antt =====
-- A balance that `write` stores is the one that `read` finds.
use native.Mathlib.Nat.{pow-suc, pow-zero, add-zero}
use cs61_f23_psets_tomkhe.Prelude.{
  choose_false, ℕ, zero, suc, ◌+◌, ◌-◌, ◌*◌, ◌/◌, ◌%◌, ◌^◌, ◌<◌, ◌≤◌, ◌≡◌, refl, ap, ◌∙◌, inl, inr,
  false, none, some, List, [], ◌∷◌, ◌++◌, ltb, length, take, drop, min, pos, arith, length-append,
  Option-cases,
}
use cs61_f23_psets_tomkhe.WeensyOs.Numbers.{
  starts_with, digit, digit_char, print_loop, print_number,
}
use cs61_f23_psets_tomkhe.WeensyOs.Numbers.Scanning.{exact}
use cs61_f23_psets_tomkhe.WeensyOs.Printing.Directives.{
  long_text, digits_of, exact-digits_of, digits_of-nonempty,
}
use cs61_f23_psets_tomkhe.Bank.Records.{
  asize, balance_offset, balance_size, parsed, name_of, skip_blanks, long_from_chars, parse, blanks,
  unparse, put_balance,
}

newline_ends : (x : ℕ) → exact 10 (10 ∷ []) x ≡ (10 ∷ [], x)
unfolding digit
newline_ends x = refl

-- digits in front of a newline
exact-append :
    (s : List ℕ) (x v : ℕ) → exact 10 s x ≡ ([], v) → exact 10 (s ++ (10 ∷ [])) x ≡ (10 ∷ [], v)
exact-append [] x v h = newline_ends x ∙ ap (λ (r : List ℕ × ℕ). (10 ∷ [], r.1)) h
exact-append (c ∷ s) x v h = elim (Option-cases (digit 10 c)) [
  | inl e ↦ ground arith
  | inr p ↦ let (d, e) = p in ground (arith, exact-append s (x * 10 + d) v)
]

-- a number prints at most `p` digits if it is below 10 ^ p
print_loop_short :
    (p q val : ℕ) (out : List ℕ)
    → val < 10 ^ suc p
    → length (print_loop q val false 10 none out) ≤ suc p + length out
unfolding print_loop
print_loop_short p zero val out h = omega arith
print_loop_short zero (suc q) val out h = ground (arith, pow-suc 10 0, pow-zero 10)
print_loop_short (suc p) (suc q) val out h =
    ground (
      arith,
      pow-suc 10 (suc p),
      print_loop_short p q (val / 10) (digit_char false (val % 10) ∷ out),
    )

digits_of-short : (v : ℕ) → v ≤ 9999999 → length (digits_of v) ≤ 7
unfolding digits_of print_number
digits_of-short v h = omega (arith, print_loop_short 6 31 v [] (omega arith))

drop-blanks : (k n : ℕ) (s : List ℕ) → k ≤ n → drop k (blanks n ++ s) ≡ blanks (n - k) ++ s
drop-blanks zero n s h = ap (λ (x : ℕ). blanks x ++ s) (omega arith)
drop-blanks (suc k) zero s h = ground arith
drop-blanks (suc k) (suc n) s h =
    drop-blanks k n s (omega arith) ∙ ap (λ (x : ℕ). blanks x ++ s) (omega arith)

skip_blanks-blanks : (n : ℕ) (s : List ℕ) → skip_blanks (blanks n ++ s) ≡ skip_blanks s
unfolding skip_blanks
skip_blanks-blanks zero s = refl
skip_blanks-blanks (suc n) s = skip_blanks-blanks n s

length-blanks : (n : ℕ) → length (blanks n) ≡ n
length-blanks zero = refl
length-blanks (suc n) = omega (arith, length-blanks n)

-- a row of digits has no blank or sign in front
digits_plain :
    (t u : List ℕ) (v : ℕ)
    → 0 < length t
    → exact 10 t 0 ≡ ([], v)
    → (skip_blanks (t ++ u) ≡ t ++ u)
      × (starts_with b'+' (t ++ u) ≡ false)
      × (starts_with b'-' (t ++ u) ≡ false)
unfolding skip_blanks digit
digits_plain [] u v h e = ground arith
digits_plain (c ∷ t) u v h e = elim (Option-cases (digit 10 c)) [
  | inl n ↦ ground arith
  | inr p ↦ let (d, s) = p in ground arith
]

long_from_digits :
    (t : List ℕ) (v : ℕ)
    → 0 < length t
    → v ≤ 9999999
    → exact 10 t 0 ≡ ([], v)
    → long_from_chars (t ++ (10 ∷ [])) ≡ inr (pos v)
unfolding long_from_chars
long_from_digits t v h hv e =
    let (_, _, no_minus) = digits_plain t (10 ∷ []) v h e in
    ground (arith, no_minus, exact-append t 0 v e, length-append t (10 ∷ []))

-- the bytes that `unparse` gives for a number of at most 7 digits
abbrev field_of : ℕ → List ℕ
field_of v = blanks (balance_size - length (digits_of v)) ++ (digits_of v ++ (10 ∷ []))

unparse-field_of : (v : ℕ) → v ≤ 9999999 → unparse (pos v) ≡ some (field_of v)
unfolding unparse long_text
unparse-field_of v h =
    let short = digits_of-short v h in
    rw add-zero (
      choose_false (ltb balance_size (length (digits_of v))) _ _ (ground arith)
      ∙ ap some (drop-blanks (length (digits_of v)) balance_size (digits_of v ++ (10 ∷ [])) short))

length-field_of : (v : ℕ) → v ≤ 9999999 → length (field_of v) ≡ 8
length-field_of v h =
    let k = balance_size - length (digits_of v) in
    omega (
      arith,
      length-append (blanks k) (digits_of v ++ (10 ∷ [])),
      length-append (digits_of v) (10 ∷ []),
      length-blanks k,
      digits_of-short v h,
    )

drop-take : (n : ℕ) (s u : List ℕ) → n ≤ length s → drop n (take n s ++ u) ≡ u
drop-take zero s u h = refl
drop-take (suc n) [] u h = ground arith
drop-take (suc n) (c ∷ s) u h = drop-take n s u (omega arith)

length-take : (n : ℕ) (s : List ℕ) → n ≤ length s → length (take n s) ≡ n
length-take zero s h = refl
length-take (suc n) [] h = ground arith
length-take (suc n) (c ∷ s) h = omega (arith, length-take n s (omega arith))

parse_at :
    (buf : List ℕ) (namesz v : ℕ)
    → length buf ≡ asize
    → drop balance_offset buf ≡ field_of v
    → v ≤ 9999999
    → parse buf namesz ≡ parsed (name_of (min (namesz - 1) asize) buf) (pos v)
unfolding parse
parse_at buf namesz v hl hd hv =
    let t = digits_of v in
    let some_digit = digits_of-nonempty v in
    let digits = exact-digits_of v (omega arith) in
    let (plain, no_plus, no_minus) = digits_plain t (10 ∷ []) v some_digit digits in
    let blanked : skip_blanks (drop balance_offset buf) ≡ t ++ (10 ∷ []) =
      ap skip_blanks hd ∙ skip_blanks-blanks (balance_size - length t) (t ++ (10 ∷ [])) ∙ plain in
    rw blanked (ground (arith, no_plus, long_from_digits t v some_digit hv digits))

-- A balance from 0 to 9,999,999 is read back: `unparse` gives 8 bytes for it, and the record that
-- has them in place of its balance parses to that balance and the name that its bytes begin with.
pub parse-unparse :
    (buf : List ℕ) (namesz v : ℕ)
    → length buf ≡ asize
    → v ≤ 9999999
    → (bytes : List ℕ) × (unparse (pos v) ≡ some bytes)
      × (length bytes ≡ 8)
      × (parse (put_balance buf bytes) namesz
          ≡ parsed (name_of (min (namesz - 1) asize) (put_balance buf bytes)) (pos v))
parse-unparse buf namesz v hl hv = (
  field_of v,
  unparse-field_of v hv,
  length-field_of v hv,
  parse_at (put_balance buf (field_of v)) namesz v
      (omega (
        arith,
        length-append (take balance_offset buf) (field_of v),
        length-take balance_offset buf (omega arith),
        length-field_of v hv,
      ))
      (drop-take balance_offset buf (field_of v) (omega arith)) hv,
)

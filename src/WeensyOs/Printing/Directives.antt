-- ===== src/WeensyOs/Printing/Directives.antt =====
-- What `%ld` prints, `strtol` reads.
use native.Mathlib.Nat.{zero-sub, zero-add, add-zero}
use cs61_f23_psets_tomkhe.Prelude.{
  ℕ, suc, ◌+◌, ◌^◌, ◌<◌, ◌≤◌, ◌≡◌, refl, ap, ◌∙◌, Bool, true, false, none, List, [], ◌∷◌, ◌++◌, map,
  inl, inr, arith, length, take, leb, if◌then◌else◌, Option-cases, ℤ, pos, negsuc, pos_part,
  neg_part, word,
}
use cs61_f23_psets_tomkhe.WeensyOs.Numbers.{
  digit, long_of, number_head, skip_spaces, strtol_fix_base, print_number, strtol,
}
use cs61_f23_psets_tomkhe.WeensyOs.Numbers.Scanning.{exact}
use cs61_f23_psets_tomkhe.WeensyOs.Numbers.Clamping.{strtol-clamped, clamped}
use cs61_f23_psets_tomkhe.WeensyOs.Numbers.RoundTrip.{exact-print_loop, not_empty}
use cs61_f23_psets_tomkhe.WeensyOs.Printing.{
  Flags, machine_word, Cell, printed, set_flag, read_flags, read_width, read_precision, read_length,
}
use cs61_f23_psets_tomkhe.WeensyOs.Printing.Fields.{
  convert, convert_signed, field_bytes, field_prefix, data_length, zeros,
}
use cs61_f23_psets_tomkhe.WeensyOs.Printing.Loop.{
  vprintf, read_directive, print_directive, before, painted,
}

-- the decimal digits of a number
unfoldable pub digits_of : ℕ → List ℕ
digits_of v = print_number 32 v (pos 10) false

unfoldable pub long_text : ℤ → List ℕ
long_text x = (if leb 1 (neg_part x) then b'-' ∷ [] else []) ++ digits_of (pos_part x + neg_part x)

take-length : (xs : List ℕ) → take (length xs) xs ≡ xs
take-length [] = refl
take-length (x ∷ xs) = ap (λ (r : List ℕ). x ∷ r) (take-length xs)

pub append-nil {ℓ} : {A : Type ℓ} (xs : List A) → xs ++ [] ≡ xs
append-nil [] = refl
append-nil (x ∷ xs) = ap (◌∷◌ x) (append-nil xs)

pub exact-digits_of : (v : ℕ) → v < word → exact 10 (digits_of v) 0 ≡ ([], v)
unfolding digits_of print_number
exact-digits_of v h =
    exact-print_loop 31 v 10 false [] (omega arith) (omega arith) (omega arith) (omega arith)

pub digits_of-nonempty : (v : ℕ) → 0 < length (digits_of v)
unfolding digits_of print_number
digits_of-nonempty v = not_empty 30 v 10 false

-- a text that begins with a digit has no blanks or sign to step over
head_plain :
    (t : List ℕ) (v : ℕ) → 0 < length t → exact 10 t 0 ≡ ([], v) → number_head t 10 ≡ (false, t, 10)
unfolding number_head skip_spaces strtol_fix_base digit
head_plain [] v h e = ground arith
head_plain (c ∷ t) v h e = elim (Option-cases (digit 10 c)) [
  | inl n ↦ ground arith
  | inr p ↦ let (d, s) = p in ground arith
]

head_minus : (t : List ℕ) → number_head (b'-' ∷ t) 10 ≡ (true, t, 10)
unfolding number_head skip_spaces strtol_fix_base
head_minus t = refl

abbrev long_flags : Bool → Flags
long_flags minus = record {
  alt = false;
  zero_fill = false;
  left_justify = false;
  space_positive = false;
  plus_positive = false;
  thousands = false;
  numeric = true;
  signed = true;
  negative = minus;
  alt2 = false;
}

field_plain :
    (minus : Bool) (n : ℕ)
    → field_bytes (long_flags minus) (negsuc 0) none (pos 10) n []
      ≡ (if minus then b'-' ∷ [] else []) ++ digits_of n
unfolding field_bytes field_prefix data_length zeros digits_of
field_plain true n = rw zero-sub (ap (λ (r : List ℕ). b'-' ∷ r) (append-nil _ ∙ take-length _))
field_plain false n = rw zero-sub (append-nil _ ∙ take-length _)

printed_long :
    (f color w : ℕ)
    → w < word
    → vprintf (suc (suc f)) color (b'%' ∷ b'l' ∷ b'd' ∷ []) (machine_word w ∷ [])
      ≡ printed (painted color (long_text (long_of w)))
unfolding vprintf read_directive print_directive before long_text read_flags set_flag read_width
    read_precision read_length convert convert_signed
printed_long f color w h = ground (
  arith,
  field_plain (leb 1 (neg_part (long_of w))) (pos_part (long_of w) + neg_part (long_of w)),
  append-nil (painted color (long_text (long_of w))),
)

-- what `strtol` reads from a text whose head is known
strtol_at :
    (s t : List ℕ) (v : ℕ) (minus : Bool)
    → number_head s 10 ≡ (minus, t, 10)
    → exact 10 t 0 ≡ ([], v)
    → 0 < length t
    → strtol s 10 ≡ (clamped minus v, [])
strtol_at s t v minus head digits some_digit =
    let clamps = strtol-clamped s 10 (omega arith) in ground (arith, head, digits, clamps)

strtol-long_text :
    (x : ℤ) → pos_part x < 2 ^ 63 → neg_part x ≤ 2 ^ 63 → strtol (long_text x) 10 ≡ (x, [])
unfolding long_text
strtol-long_text (pos v) h h' =
    let digits = exact-digits_of v (omega arith) in
    let some_digit = digits_of-nonempty v in
    rw add-zero (
      ground (
        arith,
        strtol_at (digits_of v) (digits_of v) v false (head_plain (digits_of v) v some_digit digits)
            digits some_digit,
      ))
strtol-long_text (negsuc v) h h' =
    let digits = exact-digits_of (suc v) (omega arith) in
    rw zero-add (
      ground (
        arith,
        strtol_at (b'-' ∷ digits_of (suc v)) (digits_of (suc v)) (suc v) true (head_minus _) digits
            (digits_of-nonempty (suc v)),
      ))

abbrev pub bytes_of : List Cell → List ℕ
bytes_of = map λ c. c.byte

bytes_of-painted : (color : ℕ) (t : List ℕ) → bytes_of (painted color t) ≡ t
bytes_of-painted color [] = refl
bytes_of-painted color (c ∷ t) = ap (◌∷◌ c) (bytes_of-painted color t)

long_of_bounds :
    (w : ℕ) → w < word → (pos_part (long_of w) < 2 ^ 63) × (neg_part (long_of w) ≤ 2 ^ 63)
long_of_bounds w h = ground arith

-- Every `long` that `vprintf` prints with `%ld` is read back by `strtol` in base 10, with its sign,
-- from all of the bytes printed.
pub strtol-vprintf :
    (f color w : ℕ)
    → w < word
    → (cells : List Cell) × (vprintf
          (suc (suc f))
          color
          (b'%' ∷ b'l' ∷ b'd' ∷ [])
          (machine_word w ∷ [])
        ≡ printed cells)
      × (strtol (bytes_of cells) 10 ≡ (long_of w, []))
strtol-vprintf f color w h =
    let (low, high) = long_of_bounds w h in
    (
      painted color (long_text (long_of w)),
      printed_long f color w h,
      rw (bytes_of-painted color (long_text (long_of w))) (strtol-long_text (long_of w) low high),
    )

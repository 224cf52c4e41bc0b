-- ===== src/WeensyOs/Numbers/RoundTrip.antt =====
-- What `print_number` prints, `from_chars` reads back.
use native.Mathlib.Nat.{div-lt_iff_lt-mul, pow-suc, pow-zero, div-add-mod', mod-lt}
use cs61_f23_psets_tomkhe.Prelude.{
  ℕ, zero, suc, ◌+◌, ◌/◌, ◌%◌, ◌^◌, ◌<◌, ◌≤◌, ◌≡◌, ◌⊎◌, inl, inr, Bool, true, false, none, some,
  List, [], ◌∷◌, arith, ◌==◌, length, word, Bool-cases, ℤ, pos, negsuc, pos_part, neg_part,
}
use cs61_f23_psets_tomkhe.WeensyOs.Numbers.{
  ok, digit, digit_char, from_chars, print_loop, print_number,
}
use cs61_f23_psets_tomkhe.WeensyOs.Numbers.Scanning.{exact, from_chars-decided}

digit-digit_char :
    (base d : ℕ) (lower : Bool) → base ≤ 16 → d < base → digit base (digit_char lower d) ≡ some d
unfolding digit
digit-digit_char base d true hb h = ground arith
digit-digit_char base d false hb h = ground arith

div_fits : (p val base : ℕ) → 0 < base → val < base ^ suc p → val / base < base ^ p
div_fits p val base hb h =
    ground (arith, div-lt_iff_lt-mul {k = base} {x = val} {y = base ^ p} hb, pow-suc base p)

last_digit :
    (base val : ℕ) (lower : Bool) (out : List ℕ)
    → 1 < base
    → base ≤ 16
    → exact base (digit_char lower (val % base) ∷ out) (val / base) ≡ exact base out val
last_digit base val lower out hb hb' =
    let e : digit base (digit_char lower (val % base)) ≡ some (val % base) =
      digit-digit_char base (val % base) lower hb' (mod-lt val (omega arith)) in
    ground (arith, e, div-add-mod' val base)

pub exact-print_loop :
    (p val base : ℕ) (lower : Bool) (out : List ℕ)
    → 1 < base
    → base ≤ 16
    → 0 < p
    → val < base ^ p
    → exact base (print_loop p val lower base none out) 0 ≡ exact base out val
unfolding print_loop
exact-print_loop zero val base lower out hb hb' hp hv = ground arith
exact-print_loop (suc p) val base lower out hb hb' hp hv = elim (Bool-cases (val / base == 0)) [
  | inl last ↦ ground (arith, last_digit base val lower out hb hb')
  | inr more ↦
      let smaller = div_fits p val base (omega arith) hv in
      ground (
        arith,
        last_digit base val lower out hb hb',
        exact-print_loop p (val / base) base lower (digit_char lower (val % base) ∷ out) hb hb'
            (ground (arith, pow-zero base)) smaller,
      )
]

shorter :
    (p val base : ℕ) (lower : Bool) (out : List ℕ)
    → length out ≤ length (print_loop p val lower base none out)
unfolding print_loop
shorter zero val base lower out = omega arith
shorter (suc p) val base lower out =
    ground (arith, shorter p (val / base) base lower (digit_char lower (val % base) ∷ out))

pub not_empty :
    (p val base : ℕ) (lower : Bool) → 0 < length (print_loop (suc p) val lower base none [])
unfolding print_loop
not_empty p val base lower =
    ground (arith, shorter p (val / base) base lower (digit_char lower (val % base) ∷ []))

read_back :
    (p val base : ℕ) (lower : Bool)
    → 1 < base
    → base ≤ 16
    → val < word
    → val < base ^ suc p
    → from_chars (print_loop (suc p) val lower base none []) base
      ≡ record { ptr = []; ec = ok; value = some val }
read_back p val base lower hb hb' hw hv = ground (
  arith,
  from_chars-decided base (print_loop (suc p) val lower base none []) (omega arith) (omega arith),
  exact-print_loop (suc p) val base lower [] hb hb' (omega arith) hv,
  not_empty p val base lower,
)

abbrev pub magnitude : ℤ → ℕ
magnitude b = pos_part b + neg_part b

-- A number below 2^64 that `print_number` prints in base 10 or 16, with capital or small digits and
-- no marks between groups, fits its 32 bytes, and `from_chars` reads it back whole.
pub from_chars-print_number :
    (val : ℕ) (base : ℤ)
    → val < word
    → (base ≡ pos 10) ⊎ (base ≡ pos 16) ⊎ (base ≡ negsuc 15)
    → from_chars (print_number 32 val base false) (magnitude base)
      ≡ record { ptr = []; ec = ok; value = some val }
unfolding print_number
from_chars-print_number val base hv (inl e) =
    rw e (read_back 30 val 10 false (omega arith) (omega arith) hv (omega arith))
from_chars-print_number val base hv (inr (inl e)) =
    rw e (read_back 30 val 16 false (omega arith) (omega arith) hv (omega arith))
from_chars-print_number val base hv (inr (inr e)) =
    rw e (read_back 30 val 16 true (omega arith) (omega arith) hv (omega arith))

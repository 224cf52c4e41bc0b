-- ===== src/WeensyOs/Numbers.antt =====
-- Numbers in text: `from_chars`, `strtoul`, `strtol` and `print_number` of pset3/lib.cc. The bytes
-- that a call may read, up to `last` or to the terminator, are a list, and a pointer into them is
-- the rest of it; a read at the terminator gives 0. `unsigned long` has 64 bits, and `base` is at
-- most 36.
pub mod Scanning
pub mod RoundTrip
pub mod Clamping
use cs61_f23_psets_tomkhe.Prelude.{
  ℕ, zero, suc, ◌+◌, ◌-◌, ◌*◌, ◌/◌, ◌%◌, ◌^◌, Bool, true, false, ◌&&◌, ◌||◌, not, Option, none,
  some, List, [], ◌∷◌, ltb, leb, ◌==◌, if◌then◌else◌, length, drop, get_or, word, ℤ, pos, negsuc,
  pos_part, neg_part,
}
use cs61_f23_psets_tomkhe.WeensyOs.Strings.{isspace, flag}

pub data Ec : Type 0 where
  ok e_inval e_range : Ec

-- `from_chars_result` and `value`, which only a success sets
pub record FromCharsResult {ℓ} (V : Type ℓ) : Type ℓ where
  pub ptr : List ℕ
  pub ec : Ec
  pub value : Option V

unfoldable pub digit : ℕ → ℕ → Option ℕ
digit base c =
    if leb b'0' c && ltb c (b'0' + base)
    then some (c - b'0')
    else if leb b'a' c && ltb c (b'a' + base - 10)
    then some (c - b'a' + 10)
    else if leb b'A' c && ltb c (b'A' + base - 10)
    then some (c - b'A' + 10)
    else none

-- the loop of `from_chars`: where it stops, `x` and `overflow`
unfoldable pub scan : ℕ → List ℕ → ℕ → Bool → List ℕ × ℕ × Bool
scan base [] x overflow = ([], x, overflow)
scan base (c ∷ s) x overflow = elim (digit base c) [
  | none ↦ (c ∷ s, x, overflow)
  | some d ↦ elim (ltb ((word - 1 - d) / base) x) [
    | true ↦ scan base s x true
    | false ↦ scan base s (x * base + d) overflow
  ]
]

unfoldable pub scanned : List ℕ → List ℕ × ℕ × Bool → FromCharsResult ℕ
scanned first (s, x, overflow) =
    if length s == length first
    then record { ptr = s; ec = e_inval; value = none }
    else if overflow
    then record { ptr = s; ec = e_range; value = none }
    else record { ptr = s; ec = ok; value = some x }

unfoldable pub from_chars : List ℕ → ℕ → FromCharsResult ℕ
from_chars first base = scanned first (scan base first 0 false)

-- `-x` on `unsigned long`
abbrev pub neg_word : ℕ → ℕ
neg_word x = (word - x) % word

-- `long(x)`
abbrev pub long_of : ℕ → ℤ
long_of x = if ltb x (2 ^ 63) then pos x else negsuc (word - 1 - x)

abbrev pub starts_with : ℕ → List ℕ → Bool
starts_with c s = get_or s 0 0 == c

-- `x` after the call of `from_chars`, which leaves it 0 when it fails
abbrev pub read_x : FromCharsResult ℕ → ℕ
read_x r = elim r.value [ none ↦ 0 | some v ↦ v ]

-- `from_chars` on `long`
unfoldable pub from_chars_long : List ℕ → ℕ → FromCharsResult ℤ
from_chars_long first base =
    let negative = starts_with b'-' first in
    let r = from_chars (drop (flag negative) first) base in
    let x = read_x r in
    elim r.ec [
      | e_inval ↦ record { ptr = first; ec = e_inval; value = none }
      | e_range ↦ record { ptr = r.ptr; ec = e_range; value = none }
      | ok ↦
          if ltb (2 ^ 63 - flag (not negative)) x
          then record { ptr = r.ptr; ec = e_range; value = none }
          else record {
            ptr = r.ptr;
            ec = ok;
            value = some (long_of (if negative then neg_word x else x));
          }
    ]

-- `t` and `base` after `strtol_fix_base`
unfoldable pub strtol_fix_base : List ℕ → ℕ → List ℕ × ℕ
strtol_fix_base t base =
    let t0 = get_or t 0 0 in
    let t1 = get_or t 1 0 in
    if base == 0
    then (if t0 == b'0'
        then (if t1 == b'x' || t1 == b'X'
            then (drop 2 t, 16)
            else if t1 == b'o' || t1 == b'O'
            then (drop 2 t, 8)
            else if t1 == b'b' || t1 == b'B'
            then (drop 2 t, 2)
            else (t, 8))
        else (t, 10))
    else if base == 16 && t0 == b'0' && (t1 == b'x' || t1 == b'X')
    then (drop 2 t, base)
    else (t, base)

unfoldable pub skip_spaces : List ℕ → List ℕ
skip_spaces [] = []
skip_spaces (c ∷ t) = if isspace c then skip_spaces t else c ∷ t

-- what `strtoul` and `strtol` do first: `negative`, and the digits' start and base
unfoldable pub number_head : List ℕ → ℕ → Bool × List ℕ × ℕ
number_head s base =
    let t = skip_spaces s in
    let negative = starts_with b'-' t in
    let (digits, b) = strtol_fix_base (drop (flag (negative || starts_with b'+' t)) t) base in
    (negative, digits, b)

abbrev pub end_of : List ℕ → FromCharsResult ℕ → List ℕ
end_of s r = elim r.ec [ e_inval ↦ s | _ ↦ r.ptr ]

abbrev pub is_range : Ec → Bool
is_range ec = elim ec [ e_range ↦ true | _ ↦ false ]

-- the result of `strtoul`, from whether `from_chars` is out of range, and from `x`
unfoldable pub strtoul_value : Bool → Bool → ℕ → ℕ
strtoul_value negative range x =
    let x' = if range then word - 1 else x in if negative then neg_word x' else x'

-- the same for `strtol`
unfoldable pub strtol_value : Bool → Bool → ℕ → ℤ
strtol_value negative range x =
    let bound = 2 ^ 63 - flag (not negative) in
    let x' = if range || ltb bound x then bound else x in
    long_of (if negative then neg_word x' else x')

-- the value, and `*endptr`
unfoldable pub strtoul : List ℕ → ℕ → ℕ × List ℕ
strtoul s base =
    let (negative, t, b) = number_head s base in
    let r = from_chars t b in (strtoul_value negative (is_range r.ec) (read_x r), end_of s r)

unfoldable pub strtol : List ℕ → ℕ → ℤ × List ℕ
strtol s base =
    let (negative, t, b) = number_head s base in
    let r = from_chars t b in (strtol_value negative (is_range r.ec) (read_x r), end_of s r)

abbrev pub digit_char : Bool → ℕ → ℕ
digit_char lower d = if ltb d 10 then b'0' + d else (if lower then b'a' else b'A') + (d - 10)

-- Where `print_number` puts the next mark between groups, if it has any; a place in front of the
-- buffer is as good as its start, where the loop has ended.
abbrev pub next_mark : Bool → ℕ → ℕ → Option ℕ
next_mark thousands base p = if thousands then some (p - (if base == 10 then 3 else 4)) else none

-- The loop of `print_number`, `p` bytes behind the start of the buffer with `val` to print and
-- `out` printed. It writes one byte a round.
unfoldable pub print_loop : ℕ → ℕ → Bool → ℕ → Option ℕ → List ℕ → List ℕ
print_loop zero val lower base mark out = out
print_loop (suc p) val lower base mark out =
    let here : Bool = elim mark [ none ↦ false | some q ↦ suc p == q ] in
    let out' =
      (if here then (if base == 10 then b',' else 39) else digit_char lower (val % base)) ∷ out in
    let val' = if here then val else val / base in
    let mark' = if here then next_mark true base p else mark in
    elim (val' == 0) [ true ↦ out' | false ↦ print_loop p val' lower base mark' out' ]

-- The text that `print_number` leaves at the end of the `sz` bytes, in front of the terminator. A
-- negative base has small letters.
unfoldable pub print_number : ℕ → ℕ → ℤ → Bool → List ℕ
print_number sz val base thousands =
    let b = pos_part base + neg_part base in
    print_loop (sz - 1) val (leb 1 (neg_part base)) b (next_mark thousands b (sz - 1)) []

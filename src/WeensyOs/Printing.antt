-- ===== src/WeensyOs/Printing.antt =====
-- `printer::vprintf`, `vsnprintf` and `snprintf` of pset3/lib.cc. A format is the list of its bytes;
-- the argument list is a list of machine words and of texts that pointers point to, and reading an
-- argument that is not there, or of the other kind, is undefined. What is printed is the list of the
-- calls of `putc`, each with its byte and colour, which a printer takes one after the other. Widths
-- and precisions written in a format stay below 2^31.
pub mod Fields
pub mod Loop
pub mod Ending
pub mod Buffers
pub mod Directives
use cs61_f23_psets_tomkhe.Prelude.{
  ℕ, zero, suc, ◌+◌, ◌-◌, ◌*◌, ◌%◌, ◌^◌, Bool, true, false, ◌&&◌, ◌||◌, not, Option, none, some,
  List, [], ◌∷◌, ◌++◌, map, ltb, leb, ◌==◌, if◌then◌else◌, length, take, drop, get_or, word, min, ℤ,
  pos, negsuc, sub_ℕ, pos_part, neg_part,
}
use cs61_f23_psets_tomkhe.WeensyOs.Numbers.{print_number, long_of}

-- The bits of `flags`, in the order of the `FLAG_` constants.
pub record Flags : Type 0 where
  pub alt : Bool
  pub zero_fill : Bool
  pub left_justify : Bool
  pub space_positive : Bool
  pub plus_positive : Bool
  pub thousands : Bool
  pub numeric : Bool
  pub signed : Bool
  pub negative : Bool
  pub alt2 : Bool

abbrev pub no_flags : Flags
no_flags = record {
  alt = false;
  zero_fill = false;
  left_justify = false;
  space_positive = false;
  plus_positive = false;
  thousands = false;
  numeric = false;
  signed = false;
  negative = false;
  alt2 = false;
}

-- one argument of the variable list
pub data Arg : Type 0 where
  machine_word : ℕ → Arg
  text : List ℕ → Arg

-- a call of `putc`
pub record Cell : Type 0 where
  pub byte : ℕ
  pub color : ℕ

-- What `vprintf` is: what it prints, undefined for its arguments, or out of fuel.
pub data Printed : Type 0 where
  printed : List Cell → Printed
  undefined_argument : Printed
  out_of_fuel : Printed

-- `strchr(flag_chars, c)`, with the bit it stands for set
unfoldable pub set_flag : ℕ → Flags → Option Flags
set_flag c fl =
    if c == b'#'
    then some (record fl { alt = true })
    else if c == b'0'
    then some (record fl { zero_fill = true })
    else if c == b'-'
    then some (record fl { left_justify = true })
    else if c == b' '
    then some (record fl { space_positive = true })
    else if c == b'+'
    then some (record fl { plus_positive = true })
    else if c == 39
    then some (record fl { thousands = true })
    else none

unfoldable pub read_flags : List ℕ → Flags → Flags × List ℕ
read_flags [] fl = (fl, [])
read_flags (c ∷ s) fl = elim (set_flag c fl) [ none ↦ (fl, c ∷ s) | some fl' ↦ read_flags s fl' ]

-- the loop over decimal digits of the width and of the precision
unfoldable pub read_decimal : List ℕ → ℕ → ℕ × List ℕ
read_decimal [] n = (n, [])
read_decimal (c ∷ s) n =
    if leb b'0' c && leb c b'9' then read_decimal s (10 * n + c - b'0') else (n, c ∷ s)

-- `int` from the low 32 bits
abbrev pub int_of : ℕ → ℤ
int_of w = let x = w % 2 ^ 32 in if ltb x (2 ^ 31) then pos x else negsuc (2 ^ 32 - 1 - x)

-- `va_arg` of a machine word, and of a pointer to a text
abbrev pub word_arg : List Arg → Option (ℕ × List Arg)
word_arg (machine_word w ∷ args) = some (w, args)
word_arg _ = none

abbrev pub text_arg : List Arg → Option (List ℕ × List Arg)
text_arg (text t ∷ args) = some (t, args)
text_arg _ = none

abbrev pub first : List ℕ → ℕ
first s = get_or s 0 0

-- the width; -1 where none is given
unfoldable pub read_width : List ℕ → List Arg → Option (ℤ × List ℕ × List Arg)
read_width s args =
    if leb b'1' (first s) && leb (first s) b'9'
    then (let (n, rest) = read_decimal s 0 in some (pos n, rest, args))
    else if first s == b'*'
    then elim (word_arg args) [ none ↦ none | some r ↦ some (int_of r.0, drop 1 s, r.1) ]
    else some (negsuc 0, s, args)

-- the precision; `none` stands for -1
unfoldable pub read_precision : List ℕ → List Arg → Option (Option ℕ × List ℕ × List Arg)
read_precision s args =
    let t = drop 1 s in
    if not (first s == b'.')
    then some (none, s, args)
    else if leb b'0' (first t) && leb (first t) b'9'
    then (let (n, rest) = read_decimal t 0 in some (some n, rest, args))
    else if first t == b'*'
    then elim (word_arg args) [
      | none ↦ none
      | some r ↦ some (some (pos_part (int_of r.0)), drop 1 t, r.1)
    ]
    else some (some 0, t, args)

-- `length`
unfoldable pub read_length : List ℕ → Bool × List ℕ
read_length s =
    let c = first s in
    if c == b'l' || c == b't' || c == b'z'
    then (true, drop 1 s)
    else if c == b'h'
    then (false, drop 1 s)
    else (false, s)

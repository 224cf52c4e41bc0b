-- ===== src/WeensyOs/Printing/Fields.antt =====
-- The conversions of `vprintf`, and the field that one prints.
use cs61_f23_psets_tomkhe.Prelude.{
  ℕ, zero, suc, ◌+◌, ◌-◌, ◌%◌, ◌^◌, Bool, true, ◌&&◌, ◌||◌, not, Option, none, some, List, [], ◌∷◌,
  ◌++◌, ltb, leb, ◌==◌, if◌then◌else◌, length, take, word, min, ℤ, pos, negsuc, pos_part, neg_part,
}
use cs61_f23_psets_tomkhe.WeensyOs.Numbers.{print_number, long_of}
use cs61_f23_psets_tomkhe.WeensyOs.Printing.{Flags, Arg, int_of, word_arg, text_arg}

-- What a conversion character asks for: a new colour, or a field with its number or its text.
pub data Conversion : Type 0 where
  recolor : ℕ → Conversion
  field : Flags → ℤ → ℕ → List ℕ → Conversion

-- `numbuf` holds one byte and the terminator
abbrev pub one_byte : ℕ → List ℕ
one_byte c = if c == 0 then [] else c ∷ []

unfoldable pub convert_signed : Bool → Flags → List Arg → Option (Conversion × List Arg)
convert_signed long fl args = elim (word_arg args) [
  | none ↦ none
  | some r ↦
      let x = if long then long_of (r.0 % word) else int_of r.0 in
      let minus = leb 1 (neg_part x) in
      some (
        field (record fl { numeric = true; signed = true; negative = minus }) (pos 10)
            (pos_part x + neg_part x) [],
        r.1,
      )
]

-- from the label `format_unsigned` on
unfoldable pub convert_unsigned : Bool → ℤ → Flags → List Arg → Option (Conversion × List Arg)
convert_unsigned long base fl args = elim (word_arg args) [
  | none ↦ none
  | some r ↦ some (
    field (record fl { numeric = true }) base (if long then r.0 % word else r.0 % 2 ^ 32) [],
    r.1,
  )
]

-- the switch on the main conversion character; 0 is the end of the format
unfoldable pub convert : ℕ → Bool → Flags → List Arg → Option (Conversion × List Arg)
convert c long fl args =
    if c == b'd' || c == b'i'
    then convert_signed long fl args
    else if c == b'u'
    then convert_unsigned long (pos 10) fl args
    else if c == b'x'
    then convert_unsigned long (negsuc 15) fl args
    else if c == b'X'
    then convert_unsigned long (pos 16) fl args
    else if c == b'p'
    then convert_unsigned true (negsuc 15) (record fl { alt = true; alt2 = true }) args
    else if c == b's'
    then elim (text_arg args) [ none ↦ none | some r ↦ some (field fl (pos 10) 0 r.0, r.1) ]
    else if c == b'C'
    then elim (word_arg args) [ none ↦ none | some r ↦ some (recolor (r.0 % 2 ^ 32), r.1) ]
    else if c == b'c'
    then elim (word_arg args) [
      | none ↦ none
      | some r ↦ some (field fl (pos 10) 0 (one_byte (r.0 % 256)), r.1)
    ]
    else some (field fl (pos 10) 0 (one_byte (if c == 0 then b'%' else c)), args)

unfoldable pub field_prefix : Flags → ℤ → ℕ → List ℕ
field_prefix fl base num =
    let hex = pos_part base + neg_part base == 16 in
    let minus_base = leb 1 (neg_part base) in
    if fl.numeric && fl.signed
    then (if fl.negative
        then b'-' ∷ []
        else if fl.plus_positive
        then b'+' ∷ []
        else if fl.space_positive
        then b' ' ∷ []
        else [])
    else if fl.numeric && fl.alt && hex && (not (num == 0) || fl.alt2)
    then (if minus_base then b'0' ∷ b'x' ∷ [] else b'0' ∷ b'X' ∷ [])
    else []

-- `datalen`: `strnlen` up to the precision of a text, or `strlen`
unfoldable pub data_length : Flags → Option ℕ → List ℕ → ℕ
data_length fl precision bytes = elim precision [
  | none ↦ length bytes
  | some p ↦ if fl.numeric then length bytes else min p (length bytes)
]

unfoldable pub zeros : Flags → ℤ → Option ℕ → ℕ → ℕ → ℕ
zeros fl width precision datalen prefixlen =
    let filled =
      if fl.numeric
        && fl.zero_fill
        && not fl.left_justify
        && ltb (datalen + prefixlen) (pos_part width)
      then pos_part width - datalen - prefixlen
      else 0 in
    elim precision [
      | none ↦ filled
      | some p ↦ if fl.numeric then (if ltb datalen p then p - datalen else 0) else filled
    ]

abbrev pub repeat : ℕ → ℕ → List ℕ
repeat zero c = []
repeat (suc n) c = c ∷ repeat n c

-- the bytes of a field, blanks included
unfoldable pub field_bytes : Flags → ℤ → Option ℕ → ℤ → ℕ → List ℕ → List ℕ
field_bytes fl width precision base num text =
    let bytes = if fl.numeric then print_number 32 num base fl.thousands else text in
    let prefix = field_prefix fl base num in
    let datalen = data_length fl precision bytes in
    let zs = zeros fl width precision datalen (length prefix) in
    let blanks = pos_part width - (datalen + zs + length prefix) in
    (if fl.left_justify then [] else repeat blanks b' ')
    ++ (prefix
        ++ (repeat zs b'0'
            ++ (take datalen bytes ++ (if fl.left_justify then repeat blanks b' ' else []))))

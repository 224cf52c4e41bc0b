-- ===== src/WeensyOs/Printing/Loop.antt =====
-- The loop of `vprintf` over the format.
use cs61_f23_psets_tomkhe.Prelude.{
  ℕ, zero, suc, true, false, Option, none, some, List, [], ◌∷◌, ◌++◌, map, ◌==◌, drop, ℤ,
}
use cs61_f23_psets_tomkhe.WeensyOs.Printing.{
  no_flags, Arg, Cell, Printed, printed, undefined_argument, out_of_fuel, first, read_flags,
  read_width, read_precision, read_length,
}
use cs61_f23_psets_tomkhe.WeensyOs.Printing.Fields.{
  Conversion, recolor, field, convert, field_bytes,
}

-- What stands behind a `%`, read: the conversion, its width and precision, and the format and the
-- arguments behind it.
pub record Directive : Type 0 where
  pub conversion : Conversion
  pub width : ℤ
  pub precision : Option ℕ
  pub rest : List ℕ
  pub args : List Arg

unfoldable pub read_directive : List ℕ → List Arg → Option Directive
read_directive s args =
    let (fl, s1) = read_flags s no_flags in
    elim (read_width s1 args) [
      | none ↦ none
      | some r ↦
          let (width, s2, args2) = r in
          elim (read_precision s2 args2) [
            | none ↦ none
            | some r' ↦
                let (precision, s3, args3) = r' in
                let (long, s4) = read_length s3 in
                elim (convert (first s4) long fl args3) [
                  | none ↦ none
                  | some r'' ↦ some record {
                    conversion = r''.0;
                    width = width;
                    precision = precision;
                    rest = drop 1 s4;
                    args = r''.1;
                  }
                ]
          ]
    ]

abbrev pub painted : ℕ → List ℕ → List Cell
painted color = map λ c. record { byte = c; color = color }

unfoldable pub before : List Cell → Printed → Printed
before cells (printed rest) = printed (cells ++ rest)
before cells undefined_argument = undefined_argument
before cells out_of_fuel = out_of_fuel

-- a round that has read a directive, and the rounds `loop` after it
unfoldable pub print_directive : (ℕ → List ℕ → List Arg → Printed) → ℕ → Option Directive → Printed
print_directive loop color none = undefined_argument
print_directive loop color (some d) = elim d.conversion [
  | recolor color' ↦ loop color' d.rest d.args
  | field fl base num text ↦
      before (painted color (field_bytes fl d.width d.precision base num text))
        (loop color d.rest d.args)
]

unfoldable pub vprintf : ℕ → ℕ → List ℕ → List Arg → Printed
vprintf zero color format args = out_of_fuel
vprintf (suc f) color [] args = printed []
vprintf (suc f) color (c ∷ format) args = elim (c == b'%') [
  | true ↦ print_directive (vprintf f) color (read_directive format args)
  | false ↦ before (painted color (c ∷ [])) (vprintf f color format args)
]

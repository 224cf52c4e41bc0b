-- ===== src/WeensyOs/Console.antt =====
-- The console of pset3/lib.cc: `console_clear`, `console_printer`, `console_puts` and
-- `console_vprintf`. A pointer to a cell is its distance from `console`; the array is a function, so
-- that a store past its 2000 cells would be seen. The hardware cursor is not modelled.
pub mod Screen
use Prim.Native.Nat.{bit_or}
use mathlib.Core.Option
use cs61_f23_psets_tomkhe.Prelude.{
  ℕ, zero, suc, ◌+◌, ◌-◌, ◌%◌, Bool, true, false, Option, none, some, List, [], ◌∷◌, ltb, leb, ◌==◌,
  if◌then◌else◌, ℤ, pos, negsuc, map, take,
}
use cs61_f23_psets_tomkhe.WeensyOs.Memory.{Memory, store}
use cs61_f23_psets_tomkhe.WeensyOs.Printing.{
  Arg, Cell, Printed, printed, undefined_argument, out_of_fuel,
}
use cs61_f23_psets_tomkhe.WeensyOs.Printing.Loop.{vprintf}

-- `CONSOLE_COLUMNS`, and the number of cells
abbrev pub columns : ℕ
columns = 80

abbrev pub screen : ℕ
screen = 2000

-- the loop of `console_clear` over the `n` cells from `i` on
unfoldable pub clear_cells : ℕ → ℕ → Memory → Memory
clear_cells zero i m = m
clear_cells (suc n) i m = clear_cells n (i + 1) (store i (bit_or b' ' 0x0700) m)

-- `console` and `cursorpos`
pub record Console : Type 0 where
  pub cells : Memory
  pub cursorpos : ℕ

unfoldable pub console_clear : Console → Console
console_clear k = record { cells = clear_cells screen 0 k.cells; cursorpos = 0 }

-- `cell_` and `scroll_`, and the array
pub record ConsolePrinter : Type 0 where
  pub cell : ℕ
  pub scrolls : Bool
  pub cells : Memory

unfoldable pub console_printer : ℤ → Bool → Console → ConsolePrinter
console_printer (negsuc _) scrolls k = record {
  cell = k.cursorpos;
  scrolls = scrolls;
  cells = k.cells;
}
console_printer (pos cpos) scrolls k = record {
  cell = if leb cpos screen then cpos else 0;
  scrolls = scrolls;
  cells = k.cells;
}

-- the two loops of `scroll`, over `n` cells from `i` on
unfoldable pub move_up : ℕ → ℕ → Memory → Memory
move_up zero i m = m
move_up (suc n) i m = move_up n (i + 1) (store i (m (i + columns)) m)

unfoldable pub blank : ℕ → ℕ → Memory → Memory
blank zero i m = m
blank (suc n) i m = blank n (i + 1) (store i 0 m)

unfoldable pub scroll : ConsolePrinter → ConsolePrinter
scroll cp =
    if cp.scrolls
    then record {
      cell = cp.cell - columns;
      scrolls = cp.scrolls;
      cells = blank columns (screen - columns) (move_up (screen - columns) 0 cp.cells);
    }
    else record { cell = 0; scrolls = cp.scrolls; cells = cp.cells }

-- the loop of `putc` that scrolls while the cell is past the screen
unfoldable pub settle : ℕ → ConsolePrinter → Option ConsolePrinter
settle zero cp = none
settle (suc f) cp = elim (leb screen cp.cell) [ true ↦ settle f (scroll cp) | false ↦ some cp ]

-- the loop of `putc` that fills a line, with `n` cells left in it
unfoldable pub fill_line : ℕ → ℕ → ConsolePrinter → ConsolePrinter
fill_line zero color cp = cp
fill_line (suc n) color cp = fill_line n color (record {
  cell = cp.cell + 1;
  scrolls = cp.scrolls;
  cells = store cp.cell (bit_or b' ' color) cp.cells;
})

-- the rest of `putc`
unfoldable pub put_cell : Cell → ConsolePrinter → ConsolePrinter
put_cell c cp =
    if c.byte == 10 then fill_line (columns - cp.cell % columns) c.color cp else record {
      cell = cp.cell + 1;
      scrolls = cp.scrolls;
      cells = store cp.cell (bit_or c.byte c.color) cp.cells;
    }

unfoldable pub console_putc : ℕ → Cell → ConsolePrinter → Option ConsolePrinter
console_putc f c cp = Option.map (put_cell c) (settle f cp)

unfoldable pub console_putcs : ℕ → List Cell → ConsolePrinter → Option ConsolePrinter
console_putcs f [] cp = some cp
console_putcs f (c ∷ cs) cp = elim (console_putc f c cp) [
  | none ↦ none
  | some cp' ↦ console_putcs f cs cp'
]

-- what a call ends with: the result, and `move_cursor` if `cpos` is negative
unfoldable pub finish_print : ℤ → Console → ConsolePrinter → ℕ × Console
finish_print (pos _) k cp = (cp.cell, record { cells = cp.cells; cursorpos = k.cursorpos })
finish_print (negsuc _) k cp = (cp.cell, record { cells = cp.cells; cursorpos = cp.cell })

abbrev pub is_negative : ℤ → Bool
is_negative (pos _) = false
is_negative (negsuc _) = true

-- `console_puts` of the `len` bytes of `s`
unfoldable pub console_puts : ℕ → ℤ → ℕ → List ℕ → Console → Option (ℕ × Console)
console_puts f cpos color s k = Option.map (finish_print cpos k) (
    console_putcs f (map (λ c. record { byte = c; color = color }) s)
      (console_printer cpos (is_negative cpos) k))

unfoldable pub console_vprintf : ℕ → ℤ → ℕ → List ℕ → List Arg → Console → Option (ℕ × Console)
console_vprintf f cpos color format args k = elim (vprintf f color format args) [
  | printed cells ↦
      Option.map (finish_print cpos k)
        (console_putcs f cells (console_printer cpos (is_negative cpos) k))
  | undefined_argument ↦ none
  | out_of_fuel ↦ none
]

-- ===== src/WeensyOs/Console/Screen.antt =====
-- The console printer stays on the screen.
use mathlib.Core.Option
use mathlib.Core.Path.{subst}
use cs61_f23_psets_tomkhe.Prelude.{
  choose_true, choose_false, ℕ, zero, suc, ◌+◌, ◌-◌, ◌%◌, ◌<◌, ◌≤◌, ◌≡◌, refl, ap, ◌∙◌, sym, inl,
  inr, true, false, some, List, [], ◌∷◌, leb, ◌==◌, ℤ, pos, negsuc, map, arith, Bool-cases,
}
use cs61_f23_psets_tomkhe.WeensyOs.Memory.{Memory, store}
use cs61_f23_psets_tomkhe.WeensyOs.Printing.{Cell}
use cs61_f23_psets_tomkhe.WeensyOs.Console.{
  columns, screen, Console, ConsolePrinter, console_printer, move_up, blank, scroll, settle,
  fill_line, put_cell, console_putc, console_putcs, finish_print, is_negative, console_puts,
}

-- the arrays agree behind the screen
abbrev pub SameOutside : Memory → Memory → Type 0
SameOutside m m' = (a : ℕ) → screen ≤ a → m' a ≡ m a

move_up-SameOutside : (n i : ℕ) (m : Memory) → i + n ≤ screen → SameOutside m (move_up n i m)
unfolding move_up
move_up-SameOutside zero i m h a ha = refl
move_up-SameOutside (suc n) i m h a ha =
    ground (arith, move_up-SameOutside n (i + 1) (store i (m (i + columns)) m) (omega arith) a ha)

blank-SameOutside : (n i : ℕ) (m : Memory) → i + n ≤ screen → SameOutside m (blank n i m)
unfolding blank
blank-SameOutside zero i m h a ha = refl
blank-SameOutside (suc n) i m h a ha =
    ground (arith, blank-SameOutside n (i + 1) (store i 0 m) (omega arith) a ha)

-- a printer that stands on the screen or just behind it, and has changed nothing outside
OnScreen : Memory → ConsolePrinter → Type 0
OnScreen m cp = (cp.cell ≤ screen) × SameOutside m cp.cells

scroll_up :
    (cp : ConsolePrinter)
    → cp.scrolls ≡ true
    → scroll cp ≡ record {
      cell = cp.cell - columns;
      scrolls = cp.scrolls;
      cells = blank columns (screen - columns) (move_up (screen - columns) 0 cp.cells);
    }
unfolding scroll
scroll_up cp h = choose_true cp.scrolls _ _ h

scroll_over :
    (cp : ConsolePrinter)
    → cp.scrolls ≡ false
    → scroll cp ≡ record { cell = 0; scrolls = cp.scrolls; cells = cp.cells }
unfolding scroll
scroll_over cp h = choose_false cp.scrolls _ _ h

scroll-OnScreen :
    (m : Memory) (cp : ConsolePrinter)
    → OnScreen m cp
    → OnScreen m (scroll cp) × ((scroll cp).cell < screen)
unfolding OnScreen
scroll-OnScreen m cp (h, same) =
    let P : ConsolePrinter → Type 0 = λ r. OnScreen m r × (r.cell < screen) in
    elim (Bool-cases cp.scrolls) [
      | inl e ↦ subst P (sym (scroll_up cp e)) (
        (
          omega arith,
          λ a ha.
              blank-SameOutside columns (screen - columns) _ (omega arith) a ha
              ∙ move_up-SameOutside (screen - columns) 0 cp.cells (omega arith) a ha
              ∙ same a ha,
        ),
        omega arith,
      )
      | inr e ↦ subst P (sym (scroll_over cp e)) ((omega arith, same), omega arith)
    ]

fill_line-OnScreen :
    (n color : ℕ) (m : Memory) (cp : ConsolePrinter)
    → cp.cell + n ≤ screen
    → SameOutside m cp.cells
    → OnScreen m (fill_line n color cp)
unfolding OnScreen fill_line
fill_line-OnScreen zero color m cp h same = (omega arith, same)
fill_line-OnScreen (suc n) color m cp h same =
    fill_line-OnScreen n color m _ (omega arith) (λ a ha. ground (arith, same a ha))

put_cell-OnScreen :
    (c : Cell) (m : Memory) (cp : ConsolePrinter)
    → OnScreen m cp
    → cp.cell < screen
    → OnScreen m (put_cell c cp)
unfolding OnScreen put_cell
put_cell-OnScreen c m cp (h, same) small = elim (Bool-cases (c.byte == 10)) [
  | inl e ↦
      subst (OnScreen m) (sym (choose_true (c.byte == 10) _ _ e))
        (fill_line-OnScreen (columns - cp.cell % columns) c.color m cp (omega arith) same)
  | inr e ↦
      subst (OnScreen m) (sym (choose_false (c.byte == 10) _ _ e))
        (omega arith, λ a ha. ground (arith, same a ha))
]

settle-scroll :
    (f : ℕ) (cp : ConsolePrinter)
    → leb screen cp.cell ≡ true
    → settle (suc f) cp ≡ settle f (scroll cp)
unfolding settle
settle-scroll f cp h = rw (settle, h) refl

settle_rest :
    (f : ℕ) (cp : ConsolePrinter) → leb screen cp.cell ≡ false → settle (suc f) cp ≡ some cp
unfolding settle
settle_rest f cp h = rw (settle, h) refl

-- a printer that has scrolled once stands on the screen
settle-OnScreen :
    (f : ℕ) (m : Memory) (cp : ConsolePrinter)
    → OnScreen m cp
    → (cp' : ConsolePrinter) × (settle (suc (suc f)) cp ≡ some cp')
      × OnScreen m cp'
      × (cp'.cell < screen)
settle-OnScreen f m cp h = elim (Bool-cases (leb screen cp.cell)) [
  | inl e ↦
      let (scrolled, small) = scroll-OnScreen m cp h in
      (
        scroll cp,
        settle-scroll (suc f) cp e ∙ settle_rest f (scroll cp) (ground arith),
        scrolled,
        small,
      )
  | inr e ↦ (cp, settle_rest (suc f) cp e, h, ground arith)
]

-- what a sequence of bytes leaves
Prints : ℕ → Memory → List Cell → ConsolePrinter → Type 0
Prints f m cells cp =
    (cp' : ConsolePrinter) × (console_putcs f cells cp ≡ some cp') × OnScreen m cp'

put_one :
    (f : ℕ) (c : Cell) (cells : List Cell) (cp cp1 : ConsolePrinter)
    → settle f cp ≡ some cp1
    → console_putcs f (c ∷ cells) cp ≡ console_putcs f cells (put_cell c cp1)
unfolding console_putc console_putcs
put_one f c cells cp cp1 h = rw (console_putcs, h) refl

console_putcs-OnScreen :
    (f : ℕ) (m : Memory) (cells : List Cell) (cp : ConsolePrinter)
    → OnScreen m cp
    → Prints (suc (suc f)) m cells cp
unfolding Prints console_putcs
console_putcs-OnScreen f m [] cp h = (cp, refl, h)
console_putcs-OnScreen f m (c ∷ cells) cp h =
    let (cp1, settled, h1, small) = settle-OnScreen f m cp h in
    let (cp', prints, h') =
      console_putcs-OnScreen f m cells (put_cell c cp1) (put_cell-OnScreen c m cp1 h1 small) in
    (cp', put_one (suc (suc f)) c cells cp cp1 settled ∙ prints, h')

console_printer-OnScreen :
    (cpos : ℤ) (k : Console)
    → k.cursorpos ≤ screen
    → OnScreen k.cells (console_printer cpos (is_negative cpos) k)
unfolding OnScreen console_printer
console_printer-OnScreen (negsuc n) k h = (h, λ a ha. refl)
console_printer-OnScreen (pos n) k h = (ground arith, λ a ha. refl)

finish_print-place :
    (cpos : ℤ) (k : Console) (cp : ConsolePrinter)
    → k.cursorpos ≤ screen
    → OnScreen k.cells cp
    → let (place, k') = finish_print cpos k cp in
      (place ≤ screen) × (k'.cursorpos ≤ screen) × SameOutside k.cells k'.cells
unfolding OnScreen finish_print
finish_print-place (pos n) k cp h (low, same) = (low, h, same)
finish_print-place (negsuc n) k cp h (low, same) = (low, low, same)

-- From a cursor on the screen or just behind it, `console_puts` at any position ends, with two
-- rounds of scrolling at most for each byte; it changes no memory behind the 2000 cells of the
-- screen, and the place that it returns and the cursor are on the screen or just behind it.
pub console_puts-stays :
    (f color : ℕ) (cpos : ℤ) (s : List ℕ) (k : Console)
    → 1 < f
    → k.cursorpos ≤ screen
    → (place : ℕ) × (k' : Console) × (console_puts f cpos color s k ≡ some (place, k'))
      × (place ≤ screen)
      × (k'.cursorpos ≤ screen)
      × SameOutside k.cells k'.cells
unfolding console_puts Prints
console_puts-stays zero color cpos s k hf h = absurd (omega arith)
console_puts-stays (suc zero) color cpos s k hf h = absurd (omega arith)
console_puts-stays (suc (suc f)) color cpos s k hf h =
    let (cp, prints, on_screen) =
      console_putcs-OnScreen f k.cells (map (λ c. record { byte = c; color = color }) s) _
        (console_printer-OnScreen cpos k h) in
    let (low, cursor, same) = finish_print-place cpos k cp h on_screen in
    let (place, k') = finish_print cpos k cp in
    (place, k', ap (Option.map (finish_print cpos k)) prints, low, cursor, same)

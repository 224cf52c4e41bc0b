-- ===== src/WeensyOs/Printing/Buffers.antt =====
-- `string_printer` and `vsnprintf` of pset3/lib.cc.
use mathlib.Core.Path.{subst}
use cs61_f23_psets_tomkhe.Prelude.{
  ℕ, zero, suc, ◌+◌, ◌-◌, ◌%◌, ◌≤◌, ◌≡◌, refl, sym, ap, ◌∙◌, true, false, ◌&&◌, not, Option, none,
  some, List, [], ◌∷◌, inl, inr, arith, length, get_or, leb, ltb, ◌==◌, if◌then◌else◌, min,
  Bool-cases,
}
use cs61_f23_psets_tomkhe.WeensyOs.Memory.{Memory, store}
use cs61_f23_psets_tomkhe.WeensyOs.Printing.{Arg, Cell, printed, undefined_argument, out_of_fuel}
use cs61_f23_psets_tomkhe.WeensyOs.Printing.Loop.{vprintf}

-- `s_`, `end_` and `n_`, and the memory that they point into.
pub record StringPrinter : Type 0 where
  pub s : ℕ
  pub end : ℕ
  pub n : ℕ
  pub memory : Memory

unfoldable pub string_printer : ℕ → ℕ → Memory → StringPrinter
string_printer s size m = record { s = s; end = s + size; n = 0; memory = m }

unfoldable pub string_putc : Cell → StringPrinter → StringPrinter
string_putc c sp =
    if ltb sp.s sp.end
    then record {
      s = sp.s + 1;
      end = sp.end;
      n = sp.n + 1;
      memory = store sp.s (c.byte % 256) sp.memory;
    }
    else record { s = sp.s; end = sp.end; n = sp.n + 1; memory = sp.memory }

unfoldable pub string_putcs : List Cell → StringPrinter → StringPrinter
string_putcs [] sp = sp
string_putcs (c ∷ cells) sp = string_putcs cells (string_putc c sp)

-- the terminator that `vsnprintf` stores
unfoldable pub terminate : ℕ → StringPrinter → Memory
terminate size sp =
    if not (size == 0) && ltb sp.s sp.end
    then store sp.s 0 sp.memory
    else if not (size == 0)
    then store (sp.end - 1) 0 sp.memory
    else sp.memory

-- The result, and the memory; `none` is a call that is undefined for its arguments, or out of fuel.
unfoldable pub vsnprintf : ℕ → ℕ → ℕ → List ℕ → List Arg → Memory → Option (ℕ × Memory)
vsnprintf f s size format args m = elim (vprintf f 0 format args) [
  | printed cells ↦
      let sp = string_putcs cells (string_printer s size m) in some (sp.n, terminate size sp)
  | undefined_argument ↦ none
  | out_of_fuel ↦ none
]

abbrev no_cell : Cell
no_cell = record { byte = 0; color = 0 }

-- the byte of the cell at an index
abbrev pub byte_at : List Cell → ℕ → ℕ
byte_at cells i = (get_or cells i no_cell).byte % 256

putc_fits :
    (c : Cell) (s end n : ℕ) (m : Memory)
    → ltb s end ≡ true
    → string_putc c (record { s = s; end = end; n = n; memory = m })
      ≡ record { s = s + 1; end = end; n = n + 1; memory = store s (c.byte % 256) m }
unfolding string_putc
putc_fits c s end n m h = rw h refl

putc_full :
    (c : Cell) (s end n : ℕ) (m : Memory)
    → ltb s end ≡ false
    → string_putc c (record { s = s; end = end; n = n; memory = m })
      ≡ record { s = s; end = end; n = n + 1; memory = m }
unfolding string_putc
putc_full c s end n m h = rw h refl

-- what the printer `sp` has after some bytes: the memory is filled up to its end
Filled : List Cell → ℕ → ℕ → ℕ → Memory → StringPrinter → Type 0
Filled cells s end n m sp =
    (sp.s ≡ min (s + length cells) end)
    × (sp.end ≡ end)
    × (sp.n ≡ n + length cells)
    × ((a : ℕ)
        → sp.memory a
          ≡ (if leb s a && ltb a (min (s + length cells) end) then byte_at cells (a - s) else m a))

string_putcs-Filled :
    (cells : List Cell) (s end n : ℕ) (m : Memory)
    → s ≤ end
    → Filled cells s end n m (string_putcs cells (record { s = s; end = end; n = n; memory = m }))
unfolding string_putcs Filled
string_putcs-Filled [] s end n m h = (ground arith, ground arith, ground arith, λ a. ground arith)
string_putcs-Filled (c ∷ cells) s end n m h = elim (Bool-cases (ltb s end)) [
  | inl e ↦
      let (at_s, at_end, count, bytes) =
        string_putcs-Filled cells (s + 1) end (n + 1) (store s (c.byte % 256) m) (ground arith) in
      subst (Filled (c ∷ cells) s end n m) (sym (ap (string_putcs cells) (putc_fits c s end n m e)))
        (ground arith, ground arith, ground arith, λ a. ground (arith, bytes a))
  | inr e ↦
      let (at_s, at_end, count, bytes) = string_putcs-Filled cells s end (n + 1) m h in
      subst (Filled (c ∷ cells) s end n m) (sym (ap (string_putcs cells) (putc_full c s end n m e)))
        (ground arith, ground arith, ground arith, λ a. ground (arith, bytes a))
]

-- where `vsnprintf` puts its terminator
abbrev pub text_end : ℕ → ℕ → List Cell → ℕ
text_end s size cells = s + min (length cells) (size - 1)

-- the byte at `a` after the text has been printed at `s`, cut to the buffer and terminated
abbrev pub truncated : ℕ → ℕ → List Cell → Memory → ℕ → ℕ
truncated s size cells m a =
    if leb s a && ltb a (text_end s size cells)
    then byte_at cells (a - s)
    else if a == text_end s size cells && ltb 0 size
    then 0
    else m a

terminate_lem :
    (size s' end : ℕ) (n : ℕ) (m : Memory)
    → terminate size (record { s = s'; end = end; n = n; memory = m })
      ≡ (if size == 0 then m else store (if ltb s' end then s' else end - 1) 0 m)
unfolding terminate
terminate_lem size s' end n m = ground arith

-- the memory `m'`, filled from `m`, with its terminator
terminated :
    (cells : List Cell) (s size a : ℕ) (m m' : Memory)
    → m' a ≡ (
        if leb s a && ltb a (min (s + length cells) (s + size)) then byte_at cells (a - s) else m a)
    → (if size == 0
          then m'
          else store
              (if ltb (min (s + length cells) (s + size)) (s + size)
                then min (s + length cells) (s + size)
                else s + size - 1)
              0
              m')
        a
      ≡ truncated s size cells m a
terminated cells s zero a m m' h = ground arith
terminated cells s (suc size) a m m' h = elim (Bool-cases (ltb size (length cells))) [
  | inl e ↦ ground arith
  | inr e ↦ ground arith
]

terminate-truncated :
    (cells : List Cell) (s size : ℕ) (m : Memory) (sp : StringPrinter)
    → Filled cells s (s + size) 0 m sp
    → (a : ℕ) → terminate size sp a ≡ truncated s size cells m a
unfolding Filled
terminate-truncated cells s size m sp (at_s, at_end, count, bytes) a =
    ap (λ (r : Memory). r a) (terminate_lem size sp.s sp.end sp.n sp.memory)
    ∙ rw at_s (rw at_end (terminated cells s size a m sp.memory (bytes a)))

counted :
    (cells : List Cell) (s end n : ℕ) (m : Memory) (sp : StringPrinter)
    → Filled cells s end n m sp
    → sp.n ≡ n + length cells
unfolding Filled
counted cells s end n m sp (at_s, at_end, count, bytes) = count

-- When `vprintf` prints some bytes, `vsnprintf` returns their number, however small the buffer; the
-- buffer then holds the first of them, one less than its size, and a terminator behind them; and no
-- byte outside the buffer, nor behind the terminator, changes. A buffer of size 0 is not touched.
pub vsnprintf-truncated :
    (f s size : ℕ) (format : List ℕ) (args : List Arg) (m : Memory) (cells : List Cell)
    → vprintf f 0 format args ≡ printed cells
    → (m' : Memory) × (vsnprintf f s size format args m ≡ some (length cells, m'))
      × ((a : ℕ) → m' a ≡ truncated s size cells m a)
unfolding vsnprintf string_printer
vsnprintf-truncated f s size format args m cells h =
    let sp = string_putcs cells (string_printer s size m) in
    let filled = string_putcs-Filled cells s (s + size) 0 m (omega arith) in
    let number : sp.n ≡ length cells = omega (arith, counted cells s (s + size) 0 m sp filled) in
    (
      terminate size sp,
      rw (vsnprintf, h) (ap (λ (k : ℕ). some (k, terminate size sp)) number),
      terminate-truncated cells s size m sp filled,
    )

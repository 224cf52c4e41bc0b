-- ===== src/WeensyOs/Examples.antt =====
-- Runs of the models of pset3, and the properties at concrete inputs.
use cs61_f23_psets_tomkhe.Prelude.{
  ℕ, ◌-◌, ◌^◌, ◌%◌, ◌≤◌, ◌<◌, ◌≡◌, refl, true, false, none, some, List, [], ◌∷◌, arith, ◌==◌,
  if◌then◌else◌, ◌⊎◌, pos, negsuc,
}
use cs61_f23_psets_tomkhe.WeensyOs.Memory.{Memory, memmove}
use cs61_f23_psets_tomkhe.WeensyOs.Memory.Copying.{memmove-moved}
use cs61_f23_psets_tomkhe.WeensyOs.Strings.{
  strcmp, strncmp, strcasecmp, strncasecmp, strstr, tolower,
}
use cs61_f23_psets_tomkhe.WeensyOs.Strings.Spelling.{Spells}
use cs61_f23_psets_tomkhe.WeensyOs.Strings.Comparing.{comparisons_agree}
use cs61_f23_psets_tomkhe.WeensyOs.Strings.Searching.{strstr-first_at}
use cs61_f23_psets_tomkhe.WeensyOs.Numbers.{
  print_number, print_loop, strtoul, strtoul_value, strtol, number_head, strtol_fix_base,
  skip_spaces, from_chars, scan, scanned, digit,
}
use cs61_f23_psets_tomkhe.WeensyOs.Printing.{
  machine_word, Cell, printed, read_flags, set_flag, read_width, read_decimal, read_precision,
  read_length,
}
use cs61_f23_psets_tomkhe.WeensyOs.Printing.Fields.{
  convert, convert_signed, field_bytes, field_prefix, data_length, zeros,
}
use cs61_f23_psets_tomkhe.WeensyOs.Printing.Loop.{
  vprintf, read_directive, print_directive, before, painted,
}
use cs61_f23_psets_tomkhe.WeensyOs.Printing.Buffers.{vsnprintf, vsnprintf-truncated, truncated}
use cs61_f23_psets_tomkhe.WeensyOs.Printing.Directives.{strtol-vprintf, bytes_of}
use cs61_f23_psets_tomkhe.WeensyOs.Console.{Console, console_puts, screen}
use cs61_f23_psets_tomkhe.WeensyOs.Console.Screen.{console_puts-stays, SameOutside}
use cs61_f23_psets_tomkhe.WeensyOs.Kernel.Pages.{Physical, kalloc}
use cs61_f23_psets_tomkhe.WeensyOs.Kernel.Pages.Finding.{Allocates, kalloc-Allocates}
use cs61_f23_psets_tomkhe.WeensyOs.Kernel.Scheduling.{
  pid_max, runnable, Processes, is_ready, run, schedule_from, schedule, syscall_sleep, set_proc,
}
use cs61_f23_psets_tomkhe.WeensyOs.Kernel.Scheduling.Fairness.{schedule_decides, behind, PassedOver}
use cs61_f23_psets_tomkhe.WeensyOs.Kernel.Scheduling.Turns.{Passes, waiting, turn, turns_bounded}

with_marks :
    print_number 32 1234567 (pos 10) true
    ≡ b'1' ∷ b',' ∷ b'2' ∷ b'3' ∷ b'4' ∷ b',' ∷ b'5' ∷ b'6' ∷ b'7' ∷ []
unfolding print_number print_loop
with_marks = refl

hex_wraps :
    strtoul (b' ' ∷ b'-' ∷ b'0' ∷ b'x' ∷ b'f' ∷ b'F' ∷ b'z' ∷ []) 0 ≡ (2 ^ 64 - 255, b'z' ∷ [])
unfolding strtoul strtoul_value number_head strtol_fix_base skip_spaces from_chars scan scanned
    digit
hex_wraps = refl

-- a colon is no digit, but reads as one
colon_reads : (from_chars (b':' ∷ []) 16).value ≡ some 10
unfolding from_chars scan scanned digit
colon_reads = refl

-- the areas share two bytes
memmove-moved_example : memmove 12 10 4 (λ a. a) 15 ≡ 13
memmove-moved_example = memmove-moved 12 10 4 (λ a. a) 15

-- "ab" at 100 and "aC" at 200
abbrev two_texts : Memory
two_texts a =
    if a == 100
    then b'a'
    else if a == 101
    then b'b'
    else if a == 200
    then b'a'
    else if a == 201
    then b'C'
    else 0

ab_spelled : Spells two_texts 100 (b'a' ∷ b'b' ∷ [])
ab_spelled = (refl, ground arith, (refl, ground arith, refl))

ac_spelled : Spells two_texts 200 (b'a' ∷ b'C' ∷ [])
ac_spelled = (refl, ground arith, (refl, ground arith, refl))

comparisons_agree_example :
    (strcmp 5 two_texts 100 200 ≡ some (pos 1))
    × (strncmp two_texts 100 200 1 ≡ pos 0)
    × (strcasecmp 5 two_texts 100 200 ≡ some (negsuc 0))
    × (strncasecmp two_texts 100 200 1 ≡ pos 0)
unfolding tolower
comparisons_agree_example =
    comparisons_agree 5 two_texts 100 200 1 (b'a' ∷ b'b' ∷ []) (b'a' ∷ b'C' ∷ []) ab_spelled
      ac_spelled (omega arith)

-- "ab" begins with "ab" without its first byte at its second
strstr-first_at_example : strstr 9 two_texts 100 101 ≡ some 101
strstr-first_at_example =
    strstr-first_at 9 two_texts 100 101 (b'a' ∷ b'b' ∷ []) (b'b' ∷ []) ab_spelled
      (refl, ground arith, refl) (omega arith)

abbrev too_small : List ℕ
too_small =
    b'-' ∷ b'9' ∷ b'9' ∷ b'9' ∷ b'9' ∷ b'9' ∷ b'9' ∷ b'9' ∷ b'9' ∷ b'9' ∷ b'9' ∷ b'9' ∷ b'9' ∷ b'9'
    ∷ b'9' ∷ b'9' ∷ b'9' ∷ b'9' ∷ b'9' ∷ b'9' ∷ b'!' ∷ []

abbrev percent_d : List ℕ
percent_d = b'%' ∷ b'+' ∷ b'4' ∷ b'd' ∷ b'!' ∷ []

percent_d_printed :
    vprintf 9 0 percent_d (machine_word 42 ∷ [])
    ≡ printed (painted 0 (b' ' ∷ b'+' ∷ b'4' ∷ b'2' ∷ b'!' ∷ []))
unfolding vprintf read_directive print_directive before read_flags set_flag read_width read_decimal
    read_precision read_length convert convert_signed field_bytes field_prefix data_length zeros
    print_number print_loop
percent_d_printed = refl

vsnprintf-truncated_example :
    (m' : Memory) × (vsnprintf 9 100 4 percent_d (machine_word 42 ∷ []) (λ _. 7) ≡ some (5, m'))
    × ((a : ℕ)
        → m' a ≡ truncated 100 4 (painted 0 (b' ' ∷ b'+' ∷ b'4' ∷ b'2' ∷ b'!' ∷ [])) (λ _. 7) a)
vsnprintf-truncated_example =
    vsnprintf-truncated 9 100 4 percent_d (machine_word 42 ∷ []) (λ _. 7) _ percent_d_printed

strtol-vprintf_example :
    (cells : List Cell) × (vprintf 2 7 (b'%' ∷ b'l' ∷ b'd' ∷ []) (machine_word (2 ^ 64 - 5) ∷ [])
      ≡ printed cells)
    × (strtol (bytes_of cells) 10 ≡ (negsuc 4, []))
strtol-vprintf_example = strtol-vprintf 0 7 (2 ^ 64 - 5) (omega arith)

-- the last cell, and then a scroll
abbrev at_the_end : Console
at_the_end = record { cells = λ a. a; cursorpos = 1999 }

console_puts-stays_example :
    (place : ℕ) × (k' : Console) × (console_puts 2
        (negsuc 0)
        0x700
        (b'h' ∷ 10 ∷ b'i' ∷ [])
        at_the_end
      ≡ some (place, k'))
    × (place ≤ screen)
    × (k'.cursorpos ≤ screen)
    × SameOutside (λ a. a) k'.cells
console_puts-stays_example =
    console_puts-stays 2 0x700 (negsuc 0) (b'h' ∷ 10 ∷ b'i' ∷ []) at_the_end (omega arith)
      (omega arith)

abbrev fresh : Physical
fresh = record { refcount = λ _. 0; memory = λ _. 0 }

kalloc-Allocates_example : Allocates 0x50000 100 fresh (kalloc 0x50000 100 fresh)
kalloc-Allocates_example = kalloc-Allocates 0x50000 100 fresh

-- all runnable, the odd ones asleep until the clock shows 50
abbrev some_asleep : Processes
some_asleep = record {
  ptable = λ pid. record { state = runnable; wake_up = if pid % 2 == 0 then 0 else 50 };
  current = 1;
  ticks = 10;
}

schedule_decides_example :
    ((d : ℕ) × (1 ≤ d)
      × (d ≤ pid_max)
      × (is_ready some_asleep (behind 1 d) ≡ true)
      × PassedOver some_asleep 1 d
      × (schedule 16 some_asleep
          ≡ some (record { ptable = some_asleep.ptable; current = behind 1 d; ticks = 10 })))
    ⊎ (((pid : ℕ) → pid < pid_max → is_ready some_asleep pid ≡ false)
        × (schedule 16 some_asleep ≡ none))
schedule_decides_example = schedule_decides 16 some_asleep (omega arith)

abbrev two_runs : Processes
two_runs = record { ptable = some_asleep.ptable; current = 2; ticks = 10 }

two_scheduled : schedule 16 some_asleep ≡ some two_runs
unfolding schedule schedule_from is_ready run
two_scheduled = refl

passed_once : Passes 4 1 some_asleep two_runs
unfolding is_ready
passed_once = turn 16 (waiting some_asleep) refl two_scheduled (ground arith) refl

turns_bounded_example : 1 < pid_max
turns_bounded_example = turns_bounded 4 1 (omega arith) passed_once

abbrev one_sleeps : Processes
one_sleeps = record {
  ptable = set_proc 1 (record { state = runnable; wake_up = 12 }) some_asleep.ptable;
  current = 2;
  ticks = 10;
}

slept : syscall_sleep 16 (pos 20) some_asleep ≡ some one_sleeps
unfolding syscall_sleep schedule schedule_from is_ready run
slept = refl

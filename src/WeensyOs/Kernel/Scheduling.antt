-- ===== src/WeensyOs/Kernel/Scheduling.antt =====
-- `schedule`, `run` and `syscall_sleep` of pset3/kernel.cc, on the process table. Interrupts are off
-- in the kernel, so `ticks` stands still while `schedule` spins. Its loop recurs on fuel, and `none`
-- is a loop that is out of it. The keyboard, the memory viewer and the page tables are left out.
pub mod Fairness
pub mod Turns
use mathlib.Core.Option
use cs61_f23_psets_tomkhe.Prelude.{
  ℕ, zero, suc, ◌+◌, ◌-◌, ◌/◌, ◌%◌, ◌^◌, Bool, true, false, ◌&&◌, Option, none, some, leb, ◌==◌,
  if◌then◌else◌, word, ℤ, pos_part, neg_part,
}

-- `PID_MAX`
abbrev pub pid_max : ℕ
pid_max = 16

-- The `P_` constants.
pub data ProcState : Type 0 where
  unused runnable blocked faulted : ProcState

-- The members of `proc` that scheduling looks at.
pub record Proc : Type 0 where
  pub state : ProcState
  pub wake_up : ℕ

-- `ptable`, the process that runs, and `ticks`
pub record Processes : Type 0 where
  pub ptable : ℕ → Proc
  pub current : ℕ
  pub ticks : ℕ

abbrev pub is_runnable : ProcState → Bool
is_runnable s = elim s [ runnable ↦ true | _ ↦ false ]

-- the test of `schedule`
unfoldable pub is_ready : Processes → ℕ → Bool
is_ready ps pid = is_runnable (ps.ptable pid).state && leb (ps.ptable pid).wake_up ps.ticks

-- `run`, whose assertion is the first half of the test
unfoldable pub run : ℕ → Processes → Option Processes
run pid ps =
    if is_runnable (ps.ptable pid).state
    then some (record { ptable = ps.ptable; current = pid; ticks = ps.ticks })
    else none

-- the loop of `schedule`, behind the process `pid`
unfoldable pub schedule_from : ℕ → ℕ → Processes → Option Processes
schedule_from zero pid ps = none
schedule_from (suc f) pid ps =
    let pid' = (pid + 1) % pid_max in
    elim (is_ready ps pid') [ true ↦ run pid' ps | false ↦ schedule_from f pid' ps ]

unfoldable pub schedule : ℕ → Processes → Option Processes
schedule f ps = schedule_from f ps.current ps

abbrev pub set_proc : ℕ → Proc → (ℕ → Proc) → ℕ → Proc
set_proc pid p table q = if q == pid then p else table q

-- `time / (1000 / HZ)`, as the `unsigned long` that is added to `ticks`
abbrev pub ticks_of : ℤ → ℕ
ticks_of time = (pos_part time / 10 + (word - neg_part time / 10)) % word

-- `wake_up` has 32 bits
unfoldable pub syscall_sleep : ℕ → ℤ → Processes → Option Processes
syscall_sleep f time ps =
    let p = ps.ptable ps.current in
    let p' : Proc = record {
      state = p.state;
      wake_up = (ps.ticks + ticks_of time) % word % 2 ^ 32;
    } in
    schedule f
      (record { ptable = set_proc ps.current p' ps.ptable; current = ps.current; ticks = ps.ticks })

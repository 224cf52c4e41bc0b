-- ===== src/WeensyOs/Kernel/Scheduling/Turns.antt =====
-- A process that stays ready gets its turn, and one that sleeps does not before its time.
use mathlib.Core.Path.{subst}
use cs61_f23_psets_tomkhe.Prelude.{
  ℕ, suc, ◌+◌, ◌-◌, ◌/◌, ◌%◌, ◌^◌, ◌<◌, ◌≤◌, ◌≡◌, ◌≢◌, sym, ap, ◌∙◌, ◌⊎◌, inl, inr, Bool, true,
  false, ◌&&◌, some, leb, arith, word, pos,
}
use cs61_f23_psets_tomkhe.WeensyOs.Kernel.Scheduling.{
  pid_max, Proc, Processes, is_runnable, is_ready, schedule, syscall_sleep, set_proc, ticks_of,
}
use cs61_f23_psets_tomkhe.WeensyOs.Kernel.Scheduling.Fairness.{behind, Picks, schedule_from-Picks}

-- From the first state to the last, `schedule` was called `n` times with the process `q` ready, and
-- ran another one each time. Between two calls the table and the clock change at will.
pub data Passes (q : ℕ) : ℕ → Processes → Processes → Type 0 where
  waiting : (ps : Processes) → Passes q 0 ps ps
  turn :
      {n : ℕ} {ps now chosen after : Processes} (f : ℕ)
      → Passes q n ps now
      → is_ready now q ≡ true
      → schedule f now ≡ some chosen
      → chosen.current ≢ q
      → after.current ≡ chosen.current
      → Passes q (suc n) ps after

-- `q` is `d` places behind the process that runs
abbrev pub Ahead : ℕ → ℕ → Processes → Type 0
Ahead q d ps = (1 ≤ d) × (behind ps.current d ≡ q)

-- a call that does not pick `q`, while `q` is ready, comes nearer to it
behind-behind : (pid k d : ℕ) → k < d → behind (behind pid k) (d - k) ≡ behind pid d
behind-behind pid k d h = omega arith

not_both : true ≢ false
not_both = cc

nearer :
    (f q d : ℕ) (now chosen : Processes)
    → Ahead q d now
    → is_ready now q ≡ true
    → schedule f now ≡ some chosen
    → chosen.current ≢ q
    → (d' : ℕ) × (d' < d) × Ahead q d' chosen
unfolding schedule Picks
nearer f q d now chosen (low, at) ready h other =
    let (k, klow, picked, kready, over) = schedule_from-Picks f now.current now chosen h in
    let current : chosen.current ≡ behind now.current k =
      ap (λ (x : Processes). x.current) picked in
    elim (place k d) [
      | inl before ↦ (
        d - k,
        omega arith,
        (
          omega arith,
          ap (λ x. behind x (d - k)) current ∙ behind-behind now.current k d before ∙ at,
        ),
      )
      | inr (inl same) ↦ absurd (other (current ∙ ap (behind now.current) same ∙ at))
      | inr (inr after) ↦
          absurd (not_both (sym ready ∙ subst (λ x. is_ready now x ≡ false) at (over d low after)))
    ]
  where
    place : (k d : ℕ) → (k < d) ⊎ (k ≡ d) ⊎ (d < k)
    place k d = omega arith

-- `n` calls that passed `q` over have used up `n` of the places between
passes_lem :
    (q n d : ℕ) (ps after : Processes)
    → Passes q n ps after
    → Ahead q d ps
    → (d' : ℕ) × (d' + n ≤ d) × Ahead q d' after
passes_lem q n d ps after (waiting _) h = (d, omega arith, h)
passes_lem q n d ps after
      (turn {n = m} {now = now} {chosen = chosen} f passes ready picks other same) h =
    let (d1, le, ahead) = passes_lem q m d ps now passes h in
    let (d2, lt, (low, at)) = nearer f q d1 now chosen ahead ready picks other in
    (d2, omega arith, (low, ap (λ x. behind x d2) same ∙ at))

-- No starvation: while a process stays runnable and past its wake-up time, `schedule` picks others
-- at most 15 times in a row, whatever the table and the clock do between its calls.
pub turns_bounded :
    (q n : ℕ) {ps after : Processes} → q < pid_max → Passes q n ps after → n < pid_max
turns_bounded q n {ps} {after} hq passes =
    let d = (q + 15 - ps.current % 16) % 16 + 1 in
    let (d', le, (low, at)) = passes_lem q n d ps after passes (omega arith, omega arith) in
    omega arith

-- whom the call after the sleep has found: a ready process, in the same table
found_ready :
    (f : ℕ) (ps chosen : Processes)
    → schedule f ps ≡ some chosen
    → (chosen.ptable ≡ ps.ptable) × (is_ready ps chosen.current ≡ true)
unfolding schedule Picks
found_ready f ps chosen h =
    let (d, low, at, ready, over) = schedule_from-Picks f ps.current ps chosen h in
    (
      ap (λ (x : Processes). x.ptable) at,
      subst (λ x. is_ready ps x ≡ true) (sym (ap (λ (x : Processes). x.current) at)) ready,
    )

abbrev ready_at : Proc → ℕ → Bool
ready_at p clock = is_runnable p.state && leb p.wake_up clock

too_early : (b : Bool) (now n : ℕ) → 1 ≤ n → (b && leb (now + n) now) ≢ true
too_early true now n h = ground arith
too_early false now n h = cc

-- A process that calls `sleep` for 10 milliseconds or more is not the one that runs next; and from
-- then on it is ready at a time of the clock just if it is runnable and its wake-up time, the clock
-- at the call and a tick for each 10 milliseconds, has come. The wake-up time must fit 32 bits.
pub syscall_sleep-waits :
    (f t later : ℕ) (ps chosen : Processes)
    → 10 ≤ t
    → ps.ticks + t / 10 < 2 ^ 32
    → syscall_sleep f (pos t) ps ≡ some chosen
    → (chosen.current ≢ ps.current)
      × (is_ready
            (record { ptable = chosen.ptable; current = chosen.current; ticks = later })
            ps.current
          ≡ (is_runnable (ps.ptable ps.current).state && leb (ps.ticks + t / 10) later))
unfolding syscall_sleep is_ready
syscall_sleep-waits f t later ps chosen ht fits h =
    let p' : Proc = record {
      state = (ps.ptable ps.current).state;
      wake_up = (ps.ticks + ticks_of (pos t)) % word % 2 ^ 32;
    } in
    let asleep : Processes = record {
      ptable = set_proc ps.current p' ps.ptable;
      current = ps.current;
      ticks = ps.ticks;
    } in
    let (table, ready) = found_ready f asleep chosen h in
    let wakes : (ps.ticks + ticks_of (pos t)) % word % 2 ^ 32 ≡ ps.ticks + t / 10 = omega arith in
    let own : set_proc ps.current p' ps.ptable ps.current ≡ p' = ground arith in
    let entry : chosen.ptable ps.current ≡ p' = ap (λ (x : ℕ → Proc). x ps.current) table ∙ own in
    (
      λ same. too_early (is_runnable p'.state) ps.ticks (t / 10) (omega arith) (
          sym (ap (λ (w : ℕ). is_runnable p'.state && leb w ps.ticks) wakes)
          ∙ sym (ap (λ (p : Proc). ready_at p ps.ticks) own)
          ∙ subst (λ x. is_ready asleep x ≡ true) same ready),
      ap (λ (p : Proc). ready_at p later) entry
          ∙ ap (λ (w : ℕ). is_runnable p'.state && leb w later) wakes,
    )

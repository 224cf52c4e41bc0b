-- ===== src/WeensyOs/Kernel/Scheduling/Fairness.antt =====
-- Whom `schedule` picks, and that it passes nobody over for long.
use mathlib.Core.Path.{subst}
use cs61_f23_psets_tomkhe.Prelude.{
  choose_true, ℕ, zero, suc, ◌+◌, ◌-◌, ◌%◌, ◌<◌, ◌≤◌, ◌≡◌, refl, sym, ap, ◌∙◌, ◌⊎◌, inl, inr, Bool,
  true, false, ◌&&◌, Option, none, some, arith, Bool-cases,
}
use cs61_f23_psets_tomkhe.WeensyOs.Kernel.Scheduling.{
  pid_max, Processes, is_runnable, is_ready, run, schedule_from, schedule,
}

-- the process `d` places behind `pid`
abbrev pub behind : ℕ → ℕ → ℕ
behind pid d = (pid + d) % pid_max

none_some : {ps' : Processes} {P : Type 0} → ◌≡◌ {A = Option Processes} none (some ps') → P
none_some h = cc

some-injective : {x y : Processes} → ◌≡◌ {A = Option Processes} (some x) (some y) → x ≡ y
some-injective h = cc

ready_runnable : (a b : Bool) → (a && b) ≡ true → a ≡ true
ready_runnable true b h = refl
ready_runnable false b h = cc

abbrev pub running : ℕ → Processes → Processes
running pid ps = record { ptable = ps.ptable; current = pid; ticks = ps.ticks }

run_ready : (pid : ℕ) (ps : Processes) → is_ready ps pid ≡ true → run pid ps ≡ some (running pid ps)
unfolding run is_ready
run_ready pid ps h =
    choose_true (is_runnable (ps.ptable pid).state) _ _
      (ready_runnable (is_runnable (ps.ptable pid).state) _ h)

spin_ready :
    (f pid : ℕ) (ps : Processes)
    → is_ready ps (behind pid 1) ≡ true
    → schedule_from (suc f) pid ps ≡ some (running (behind pid 1) ps)
unfolding schedule_from
spin_ready f pid ps h = rw (schedule_from, h) (run_ready (behind pid 1) ps h)

spin_on :
    (f pid : ℕ) (ps : Processes)
    → is_ready ps (behind pid 1) ≡ false
    → schedule_from (suc f) pid ps ≡ schedule_from f (behind pid 1) ps
unfolding schedule_from
spin_on f pid ps h = rw (schedule_from, h) refl

-- none of the `d - 1` processes behind `pid` is ready
abbrev pub PassedOver : Processes → ℕ → ℕ → Type 0
PassedOver ps pid d = (e : ℕ) → 1 ≤ e → e < d → is_ready ps (behind pid e) ≡ false

pub behind_next : (pid e : ℕ) → behind (behind pid 1) e ≡ behind pid (e + 1)
behind_next pid e = omega arith

-- what the loop has found, if it ends
unfoldable pub Picks : Processes → ℕ → Processes → Type 0
Picks ps pid ps' =
    (d : ℕ) × (1 ≤ d)
    × (ps' ≡ running (behind pid d) ps)
    × (is_ready ps (behind pid d) ≡ true)
    × PassedOver ps pid d

passed_next :
    (ps : Processes) (pid d : ℕ)
    → is_ready ps (behind pid 1) ≡ false
    → PassedOver ps (behind pid 1) d
    → PassedOver ps pid (d + 1)
passed_next ps pid d h over zero low high = absurd (omega arith)
passed_next ps pid d h over (suc zero) low high = h
passed_next ps pid d h over (suc (suc e)) low high =
    subst (λ x. is_ready ps x ≡ false) (behind_next pid (suc e) ∙ ap (behind pid) (omega arith))
      (over (suc e) (omega arith) (omega arith))

pub schedule_from-Picks :
    (f pid : ℕ) (ps ps' : Processes) → schedule_from f pid ps ≡ some ps' → Picks ps pid ps'
unfolding Picks schedule_from
schedule_from-Picks zero pid ps ps' h = none_some h
schedule_from-Picks (suc f) pid ps ps' h = elim (Bool-cases (is_ready ps (behind pid 1))) [
  | inl ready ↦ (
    1,
    omega arith,
    some-injective (sym h ∙ spin_ready f pid ps ready),
    ready,
    λ e low high. absurd (omega arith),
  )
  | inr idle ↦
      let (d, low, at, ready, over) =
        schedule_from-Picks f (behind pid 1) ps ps' (sym (spin_on f pid ps idle) ∙ h) in
      (
        d + 1,
        omega arith,
        at ∙ ap (λ x. running x ps) (behind_next pid d),
        subst (λ x. is_ready ps x ≡ true) (behind_next pid d) ready,
        passed_next ps pid d idle over,
      )
]

passed_shift :
    (ps : Processes) (pid d : ℕ) → PassedOver ps pid (d + 1) → PassedOver ps (behind pid 1) d
passed_shift ps pid d over e low high =
    subst (λ x. is_ready ps x ≡ false) (sym (behind_next pid e))
      (over (e + 1) (omega arith) (omega arith))

schedule_from_picks :
    (f pid d : ℕ) (ps : Processes)
    → d < f
    → is_ready ps (behind pid (d + 1)) ≡ true
    → PassedOver ps pid (d + 1)
    → schedule_from f pid ps ≡ some (running (behind pid (d + 1)) ps)
schedule_from_picks zero pid d ps hf ready over = absurd (omega arith)
schedule_from_picks (suc f) pid zero ps hf ready over =
    spin_ready f pid ps (subst (λ x. is_ready ps (behind pid x) ≡ true) (omega arith) ready)
    ∙ ap (λ x. some (running (behind pid x) ps)) (omega arith)
schedule_from_picks (suc f) pid (suc d) ps hf ready over =
    let shift : behind (behind pid 1) (d + 1) ≡ behind pid (suc d + 1) =
      behind_next pid (d + 1) ∙ ap (behind pid) (omega arith) in
    spin_on f pid ps (over 1 (omega arith) (omega arith))
    ∙ schedule_from_picks f (behind pid 1) d ps (omega arith)
        (subst (λ x. is_ready ps x ≡ true) (sym shift) ready)
        (passed_shift ps pid (d + 1) (subst (PassedOver ps pid) (omega arith) over))
    ∙ ap (λ x. some (running x ps)) shift

schedule_from_idle :
    (f pid : ℕ) (ps : Processes)
    → ((e : ℕ) → 1 ≤ e → is_ready ps (behind pid e) ≡ false)
    → schedule_from f pid ps ≡ none
unfolding schedule_from
schedule_from_idle zero pid ps h = refl
schedule_from_idle (suc f) pid ps h =
    spin_on f pid ps (h 1 (omega arith))
    ∙ schedule_from_idle f (behind pid 1) ps (λ e low.
      subst (λ x. is_ready ps x ≡ false) (sym (behind_next pid e)) (h (e + 1) (omega arith)))

-- the first ready process within `n` places, if there is one
last_or_before : (n e : ℕ) → e < suc n + 1 → (e < n + 1) ⊎ (e ≡ n + 1)
last_or_before n e h = omega arith

place_of : (current pid : ℕ) → pid < pid_max → behind current (pid + (16 - current % 16)) ≡ pid
place_of current pid h = omega arith

search_ready :
    (n pid : ℕ) (ps : Processes)
    → ((d : ℕ) × (d < n) × (is_ready ps (behind pid (d + 1)) ≡ true) × PassedOver ps pid (d + 1))
      ⊎ PassedOver ps pid (n + 1)
search_ready zero pid ps = inr (λ e low high. absurd (omega arith))
search_ready (suc n) pid ps = elim (search_ready n pid ps) [
  | inl found ↦ let (d, lt, ready, over) = found in inl (d, omega arith, ready, over)
  | inr over ↦ elim (Bool-cases (is_ready ps (behind pid (n + 1)))) [
    | inl ready ↦ inl (n, omega arith, ready, over)
    | inr idle ↦ inr (λ e low high. elim (last_or_before n e high) [
      | inl before ↦ over e low before
      | inr last ↦ subst (λ x. is_ready ps (behind pid x) ≡ false) (sym last) idle
    ])
  ]
]

idle_all :
    (pid : ℕ) (ps : Processes)
    → PassedOver ps pid (pid_max + 1)
    → (e : ℕ) → 1 ≤ e
    → is_ready ps (behind pid e) ≡ false
idle_all pid ps over e low =
    let e' = (e + 15) % pid_max + 1 in
    let same : behind pid e' ≡ behind pid e = omega arith in
    subst (λ x. is_ready ps x ≡ false) same (over e' (omega arith) (omega arith))

-- With fuel for one look at each process, `schedule` decides. Either some process is runnable and
-- past its wake-up time, and it runs the first such process behind the current one in the order of
-- the table, round and round, and changes nothing else; or none is, and it spins, however long.
pub schedule_decides :
    (f : ℕ) (ps : Processes)
    → pid_max ≤ f
    → ((d : ℕ) × (1 ≤ d)
        × (d ≤ pid_max)
        × (is_ready ps (behind ps.current d) ≡ true)
        × PassedOver ps ps.current d
        × (schedule f ps
            ≡ some
                (record { ptable = ps.ptable; current = behind ps.current d; ticks = ps.ticks })))
      ⊎ (((pid : ℕ) → pid < pid_max → is_ready ps pid ≡ false) × (schedule f ps ≡ none))
unfolding schedule
schedule_decides f ps hf = elim (search_ready pid_max ps.current ps) [
  | inl found ↦
      let (d, lt, ready, over) = found in
      inl (
        d + 1,
        omega arith,
        omega arith,
        ready,
        over,
        schedule_from_picks f ps.current d ps (omega arith) ready over,
      )
  | inr over ↦
      let idle = idle_all ps.current ps over in
      inr (
        λ pid lt.
            subst (λ x. is_ready ps x ≡ false) (place_of ps.current pid lt)
              (idle (pid + (16 - ps.current % 16)) (omega arith)),
        schedule_from_idle f ps.current ps idle,
      )
]

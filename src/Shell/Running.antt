-- ===== src/Shell/Running.antt =====
-- `run_list` of pset5/sh61.cc. The system is the parameter `System`; the pointers to the current
-- conditional, pipeline and command are the rests of the lists. Of `command::run`, what the shell's
-- own process does is here, and the pipes are left to the system. A shell that forks goes on as the
-- parent or as the child, as `fork` answers. The loop recurs on fuel.
pub mod Sizes
pub mod Ending
pub mod Meaning
use cs61_f23_psets_tomkhe.Prelude.{
  ℕ, zero, suc, ◌+◌, ◌^◌, ◌-◌, ◌/◌, ◌%◌, Bool, true, false, not, ◌&&◌, ◌||◌, Option, none, some,
  List, [], ◌∷◌, ◌==◌, if◌then◌else◌, ◌⊎◌, inl, inr,
}
use cs61_f23_psets_tomkhe.Shell.Parser.{Command, Pipeline, Conditional}

-- The system calls, and the signal handler's flag.
pub record System : Type 1 where
  pub Os : Type 0
  pub interrupted : Os → Bool
  pub clear_interrupted : Os → Os
  pub fork : Os → ℕ × Os
  pub fork_exec : Command → ℕ → Os → ℕ × Os
  pub chdir : Command → Os → Os
  pub errno : Os → ℕ
  pub close_read_ends : Pipeline → Os → Os
  pub claim_foreground : ℕ → Os → Os
  pub waitpid : ℕ → Os → ℕ × ℕ × Os

-- A `pid_t` has 32 bits; a command that has no process has the pid -1.
abbrev pub no_pid : ℕ
no_pid = 2 ^ 32 - 1

-- How `run_list` ends: it returns, the child of a background conditional exits, or a null pointer
-- fails the assertion or is followed.
pub data Ran (Os : Type 0) : Type 0 where
  returned : Os → Ran Os
  exited : Os → Ran Os
  crashed : Ran Os
  out_of_fuel : Ran Os

-- `WIFEXITED(status) && WEXITSTATUS(status) == 0`
abbrev pub succeeded : ℕ → Bool
succeeded status = status % 128 == 0 && status / 256 % 256 == 0

abbrev pub first_commands : List Pipeline → List Command
first_commands [] = []
first_commands (p ∷ _) = p.commands

abbrev pub first_pipelines : List Conditional → List Pipeline
first_pipelines [] = []
first_pipelines (c ∷ _) = c.pipelines

abbrev pub no_words : Command → Bool
no_words c = elim c.args [ [] ↦ true | _ ∷ _ ↦ false ]

-- a pipeline ends at its last command, or in front of one without words
abbrev pub ends_pipeline : List Command → Bool
ends_pipeline [] = true
ends_pipeline (c ∷ _) = no_words c

-- The current conditional, pipeline and command, each with those behind it.
pub record Cursor : Type 0 where
  pub conditional : Conditional
  pub later_conditionals : List Conditional
  pub pipeline : Pipeline
  pub later_pipelines : List Pipeline
  pub command : Command
  pub later_commands : List Command

-- the three pointers, if none is null
unfoldable pub cursor : List Conditional → List Pipeline → List Command → Option Cursor
cursor (c ∷ cs) (p ∷ ps) (m ∷ ms) = some record {
  conditional = c;
  later_conditionals = cs;
  pipeline = p;
  later_pipelines = ps;
  command = m;
  later_commands = ms;
}
cursor _ _ _ = none

abbrev pub entry : List Conditional → Option Cursor
entry cs = cursor cs (first_pipelines cs) (first_commands (first_pipelines cs))

-- The other locals of `run_list`; `parent` is `p != 0`.
pub record Locals : Type 0 where
  pub run : Bool
  pub status : ℕ
  pub pgid : ℕ
  pub parent : Bool

-- How a round of the loop ends: with the lists for the next round, or with `run_list`.
pub data Round (Os : Type 0) : Type 0 where
  again : List Conditional → List Pipeline → List Command → Locals → Os → Round Os
  ended : Ran Os → Round Os

module _ (k : System) where
  -- what the shell does with a child's pid
  abbrev pub in_parent : ℕ → ℕ × k.Os → ℕ × ℕ × k.Os
  in_parent pgid (pid, os) = (pid, if pgid == 0 then pid else pgid, os)

  -- the pid that a command has after `command::run`, and the process group
  unfoldable pub run_command : Command → ℕ → k.Os → ℕ × ℕ × k.Os
  run_command c pgid os =
      if c.is_variable_def
      then (no_pid, pgid, os)
      else if c.is_cd
      then (no_pid, pgid, k.chdir c os)
      else (let (pid, os') = k.fork_exec c pgid os in (pid, if pgid == 0 then pid else pgid, os'))

  -- The loop that creates subshells, from the current conditional on: where it stops, and whether
  -- this is still the parent; or the return behind the last conditional.
  unfoldable pub subshells :
      Conditional
      → List Conditional
      → Option Cursor
      → Bool
      → k.Os
      → (Option Cursor × Bool × k.Os) ⊎ k.Os
  subshells c [] at parent os =
      if parent && c.is_background
      then (let (p, os') = k.fork os in if p == 0 then inl (at, false, os') else inr os')
      else inl (at, parent, os)
  subshells c (c' ∷ cs) at parent os = elim (parent && c.is_background) [
    | true ↦
        let (p, os') = k.fork os in
        elim (p == 0) [
          | true ↦ inl (at, false, os')
          | false ↦ subshells c' cs (entry (c' ∷ cs)) true os'
        ]
    | false ↦ inl (at, parent, os)
  ]

  abbrev pub stops : Cursor → k.Os → Bool
  stops at os = k.interrupted os && not at.conditional.is_background

  -- the wait for the last process of a pipeline: its status, or the end of `run_list`
  unfoldable pub wait_for : Cursor → ℕ → Locals → k.Os → (ℕ × k.Os) ⊎ k.Os
  wait_for at pid l os =
      if pid == no_pid
      then inl (l.status, os)
      else (let background = at.conditional.is_background in
          let (exited_pid, status, os') =
            k.waitpid pid (if background then os else k.claim_foreground l.pgid os) in
          let os'' = if background then os' else k.claim_foreground 0 os' in
          if not (exited_pid == 0) && not (exited_pid == pid) then inr os'' else inl (status, os''))

  -- the pipeline behind one that ended with `status`, or the next conditional
  unfoldable pub next_pipeline : Cursor → ℕ → Locals → k.Os → Round k.Os
  next_pipeline at status l os =
      let is_or = at.pipeline.next_is_or in
      let run = if succeeded status then not is_or else is_or in
      elim at.later_pipelines [
        | [] ↦
            let cs = at.later_conditionals in
            if not l.parent
            then ended (exited os)
            else again cs (first_pipelines cs) (first_commands (first_pipelines cs))
                (record { run = true; status = 0; pgid = l.pgid; parent = l.parent }) os
        | p ∷ ps ↦
            again (at.conditional ∷ at.later_conditionals) (p ∷ ps) p.commands
              (record { run = run; status = status; pgid = l.pgid; parent = l.parent }) os
      ]

  -- a round behind the command, which has the given pid
  unfoldable pub next_command : Cursor → ℕ → Locals → k.Os → Round k.Os
  next_command at pid l os =
      if not (ends_pipeline at.later_commands)
      then again (at.conditional ∷ at.later_conditionals) (at.pipeline ∷ at.later_pipelines)
          at.later_commands l os
      else elim (wait_for at pid l (k.close_read_ends at.pipeline os)) [
        | inr os' ↦ ended (returned os')
        | inl waited ↦ next_pipeline at waited.0 l waited.1
      ]

  -- a round behind the loop of the subshells
  unfoldable pub run_current : Cursor → Locals → k.Os → Round k.Os
  run_current at l os =
      if l.run && not (no_words at.command)
      then (if stops at os
          then ended (returned (k.clear_interrupted os))
          else (let (pid, pgid, os') = run_command at.command l.pgid os in
              let status =
                if at.command.is_cd then (if k.errno os' == 0 then 0 else 1) else l.status in
              if stops at os'
              then ended (returned (k.clear_interrupted os'))
              else next_command at pid
                  (record { run = l.run; status = status; pgid = pgid; parent = l.parent }) os'))
      else next_command at no_pid l os

  unfoldable pub round : Cursor → Locals → k.Os → Round k.Os
  round at l os =
      if stops at os
      then ended (returned (k.clear_interrupted os))
      else elim (subshells at.conditional at.later_conditionals (some at) l.parent os) [
        | inr os' ↦ ended (returned os')
        | inl (none, _, _) ↦ ended crashed
        | inl (some at', parent, os') ↦
            run_current at'
              (record { run = l.run; status = l.status; pgid = l.pgid; parent = parent }) os'
      ]

  unfoldable pub run_loop :
      ℕ → List Conditional → List Pipeline → List Command → Locals → k.Os → Ran k.Os
  run_loop zero cs ps ms l os = out_of_fuel
  run_loop (suc f) [] ps ms l os = returned os
  run_loop (suc f) (c ∷ cs) ps ms l os = elim (cursor (c ∷ cs) ps ms) [
    | none ↦ crashed
    | some at ↦ elim (round at l os) [
      | ended r ↦ r
      | again cs' ps' ms' l' os' ↦ run_loop f cs' ps' ms' l' os'
    ]
  ]

  unfoldable pub run_list : ℕ → List Conditional → k.Os → Ran k.Os
  run_list f cs os =
      run_loop f cs (first_pipelines cs) (first_commands (first_pipelines cs))
        (record { run = true; status = 0; pgid = 0; parent = true }) os

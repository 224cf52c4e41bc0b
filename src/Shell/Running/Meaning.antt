-- ===== src/Shell/Running/Meaning.antt =====
-- What a foreground list does, apart from the loop of `run_list` in pset5/sh61.cc: each pipeline in
-- turn, if the one in front of it allows, and each conditional in turn.
pub mod Rounds
pub mod Following
use cs61_f23_psets_tomkhe.Prelude.{
  ℕ, zero, suc, ◌≡◌, ◌≢◌, ◌⊎◌, inl, inr, Bool, true, false, not, ◌&&◌, List, [], ◌∷◌, ◌==◌,
  if◌then◌else◌,
}
use cs61_f23_psets_tomkhe.Shell.Parser.{Command, Pipeline, Conditional}
use cs61_f23_psets_tomkhe.Shell.Running.{
  System, Ran, returned, succeeded, no_words, no_pid, run_command, Locals,
}

-- commands that all have words
unfoldable pub HaveWords : List Command → Type 0
HaveWords [] = Unit {0}
HaveWords (c ∷ cs) = (no_words c ≡ false) × HaveWords cs

-- pipelines with at least one command each
unfoldable pub AreFilled : List Pipeline → Type 0
AreFilled [] = Unit {0}
AreFilled (p ∷ ps) = (p.commands ≢ []) × HaveWords p.commands × AreFilled ps

-- foreground conditionals with at least one pipeline each
unfoldable pub AreForeground : List Conditional → Type 0
AreForeground [] = Unit {0}
AreForeground (c ∷ cs) =
    (c.is_background ≡ false) × (c.pipelines ≢ []) × AreFilled c.pipelines × AreForeground cs

module _ (k : System) where
  -- the pid of a command that has run, and what it leaves
  abbrev pub Launched : Type 0
  Launched = ℕ × Locals × k.Os

  abbrev pub launch : Command → Locals → k.Os → Launched
  launch c l os =
      let (pid, pgid, os') = run_command k c l.pgid os in
      let status = if c.is_cd then (if k.errno os' == 0 then 0 else 1) else l.status in
      (pid, record { run = l.run; status = status; pgid = pgid; parent = l.parent }, os')

  -- the commands of a pipeline from left to right; the pid is that of the last one
  unfoldable pub launch_all : List Command → Launched → Launched
  launch_all [] before = before
  launch_all (c ∷ cs) (pid, l, os) = launch_all cs (launch c l os)

  abbrev pub launch_if : Bool → List Command → Locals → k.Os → Launched
  launch_if run cs l os = if run then launch_all cs (no_pid, l, os) else (no_pid, l, os)

  -- the shell waits for the last command in the background, and takes the terminal back
  unfoldable pub await : Launched → (ℕ × k.Os) ⊎ k.Os
  await (pid, l, os) =
      if pid == no_pid
      then inl (l.status, os)
      else (let (exited_pid, status, os') = k.waitpid pid (k.claim_foreground l.pgid os) in
          if not (exited_pid == 0) && not (exited_pid == pid)
          then inr (k.claim_foreground 0 os')
          else inl (status, k.claim_foreground 0 os'))

  abbrev pub await_pipeline : Pipeline → Launched → (ℕ × k.Os) ⊎ k.Os
  await_pipeline p (pid, l, os) = await (pid, l, k.close_read_ends p os)

  -- `&&` goes on after success, and `||` after failure
  abbrev pub goes_on : Pipeline → ℕ → Bool
  goes_on p status = if succeeded status then not p.next_is_or else p.next_is_or

  unfoldable pub after_launch :
      Pipeline → (Locals → k.Os → (ℕ × k.Os) ⊎ k.Os) → Launched → (ℕ × k.Os) ⊎ k.Os
  after_launch p rest (pid, l, os) = elim (await_pipeline p (pid, l, os)) [
    | inr os' ↦ inr os'
    | inl (status, os') ↦
        rest (record { run = goes_on p status; status = status; pgid = l.pgid; parent = true }) os'
  ]

  -- the pipelines of a conditional, from a process group on
  unfoldable pub run_pipelines : List Pipeline → Locals → k.Os → (ℕ × k.Os) ⊎ k.Os
  run_pipelines [] l os = inl (l.pgid, os)
  run_pipelines (p ∷ ps) l os = after_launch p (run_pipelines ps) (launch_if l.run p.commands l os)

  abbrev pub fresh : ℕ → Locals
  fresh pgid = record { run = true; status = 0; pgid = pgid; parent = true }

  unfoldable pub after_conditional : (ℕ → k.Os → Ran k.Os) → (ℕ × k.Os) ⊎ k.Os → Ran k.Os
  after_conditional rest (inr os) = returned os
  after_conditional rest (inl (pgid, os)) = rest pgid os

  unfoldable pub run_conditionals : List Conditional → ℕ → k.Os → Ran k.Os
  run_conditionals [] pgid os = returned os
  run_conditionals (c ∷ cs) pgid os =
      after_conditional (run_conditionals cs) (run_pipelines c.pipelines (fresh pgid) os)

  -- what is left of the list behind a pipeline whose commands have run
  abbrev pub behind : Pipeline → List Pipeline → List Conditional → Launched → Ran k.Os
  behind p ps cs before =
      after_conditional (run_conditionals cs) (after_launch p (run_pipelines ps) before)

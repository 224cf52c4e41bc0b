-- ===== src/Shell/Running/Meaning/Rounds.antt =====
-- The rounds of `run_list` in pset5/sh61.cc over a foreground list.
use cs61_f23_psets_tomkhe.Prelude.{
  ℕ, ◌≡◌, refl, inl, Bool, true, false, Option, some, List, [], ◌∷◌,
}
use cs61_f23_psets_tomkhe.Shell.Parser.{Command, Pipeline, Conditional}
use cs61_f23_psets_tomkhe.Shell.Running.{
  System, no_words, Cursor, Locals, again, subshells, stops, wait_for, next_command, run_current,
  round, no_pid,
}
use cs61_f23_psets_tomkhe.Shell.Running.Meaning.{launch, await}

module _ (k : System) where
  -- a command behind which there is another one of the pipeline
  pub next_command-goes_on :
      (c : Conditional) (cs : List Conditional) (p : Pipeline) (ps : List Pipeline) (m m' : Command)
      (ms : List Command) (pid : ℕ) (l : Locals) (os : k.Os)
      → no_words m' ≡ false
      → next_command k
          (record {
            conditional = c;
            later_conditionals = cs;
            pipeline = p;
            later_pipelines = ps;
            command = m;
            later_commands = m' ∷ ms;
          })
          pid
          l
          os
        ≡ again (c ∷ cs) (p ∷ ps) (m' ∷ ms) l os
  unfolding next_command
  next_command-goes_on c cs p ps m m' ms pid l os h = rw h refl

  pub wait_for-await :
      (at : Cursor) (pid : ℕ) (l : Locals) (os : k.Os)
      → at.conditional.is_background ≡ false
      → wait_for k at pid l os ≡ await k (pid, l, os)
  unfolding wait_for await
  wait_for-await at pid l os h = rw h refl

module _ (k : System) (quiet : (os : k.Os) → k.interrupted os ≡ false) where
  stops-quiet : (at : Cursor) (os : k.Os) → stops k at os ≡ false
  stops-quiet at os = rw (quiet os) refl

  subshells-foreground :
      (c : Conditional) (cs : List Conditional) (at : Option Cursor) (parent : Bool) (os : k.Os)
      → c.is_background ≡ false
      → subshells k c cs at parent os ≡ inl (at, parent, os)
  unfolding subshells
  subshells-foreground c [] at true os h = rw h refl
  subshells-foreground c [] at false os h = refl
  subshells-foreground c (c' ∷ cs) at true os h = rw h refl
  subshells-foreground c (c' ∷ cs) at false os h = refl

  pub round-foreground :
      (at : Cursor) (l : Locals) (os : k.Os)
      → at.conditional.is_background ≡ false
      → round k at l os ≡ run_current k at l os
  unfolding round
  round-foreground at l os h =
      rw
        (
          stops-quiet at os,
          subshells-foreground at.conditional at.later_conditionals (some at) l.parent os h,
        )
        refl

  pub run_current-skips :
      (at : Cursor) (l : Locals) (os : k.Os)
      → l.run ≡ false
      → run_current k at l os ≡ next_command k at no_pid l os
  unfolding run_current
  run_current-skips at l os h = rw h refl

  pub run_current-runs :
      (at : Cursor) (l : Locals) (os : k.Os)
      → l.run ≡ true
      → no_words at.command ≡ false
      → run_current k at l os
        ≡ next_command k at
            (launch k at.command l os).0
            (launch k at.command l os).1
            (launch k at.command l os).2
  unfolding run_current
  run_current-runs at l os h words = rw (h, words, stops-quiet at os, stops-quiet at _) refl

-- ===== src/Shell/Running/Meaning/Following.antt =====
-- `run_list` of pset5/sh61.cc against what a foreground list does.
use cs61_f23_psets_tomkhe.Prelude.{ℕ, ◌<◌, ◌≡◌, Bool, true, false, List, [], ◌∷◌}
use cs61_f23_psets_tomkhe.Shell.Parser.{Command, Pipeline, Conditional}
use cs61_f23_psets_tomkhe.Shell.Running.{System, Ran, Cursor, Locals, Round, again, ended, run_loop}
use cs61_f23_psets_tomkhe.Shell.Running.Sizes.{to_do}
use cs61_f23_psets_tomkhe.Shell.Running.Meaning.{
  HaveWords, AreFilled, AreForeground, launch_if, behind,
}

-- a pipeline's last command
abbrev at_last : Conditional → List Conditional → Pipeline → List Pipeline → Command → Cursor
at_last c cs p ps m = record {
  conditional = c;
  later_conditionals = cs;
  pipeline = p;
  later_pipelines = ps;
  command = m;
  later_commands = [];
}

abbrev at_more :
    Conditional
    → List Conditional
    → Pipeline
    → List Pipeline
    → Command
    → Command
    → List Command
    → Cursor
at_more c cs p ps m m' ms = record (at_last c cs p ps m) { later_commands = m' ∷ ms }

module _ (k : System) where
  abbrev locals : Bool → ℕ → ℕ → Locals
  locals run status pgid = record { run = run; status = status; pgid = pgid; parent = true }

  -- `run_loop` with some fuel does what is left
  Follows : ℕ → Type 0
  Follows f =
      (c : Conditional) (cs : List Conditional) (p : Pipeline) (ps : List Pipeline) (m : Command)
      (ms : List Command) (run : Bool) (status pgid : ℕ) (os : k.Os)
      → c.is_background ≡ false
      → HaveWords (m ∷ ms)
      → AreFilled ps
      → AreForeground cs
      → to_do (c ∷ cs) (p ∷ ps) (m ∷ ms) < f
      → run_loop k f (c ∷ cs) (p ∷ ps) (m ∷ ms) (locals run status pgid) os
        ≡ behind k p ps cs (launch_if k run (m ∷ ms) (locals run status pgid) os)

  -- the loop behind a round
  abbrev resume : ℕ → Round k.Os → Ran k.Os
  resume f r = elim r [ ended r ↦ r | again cs' ps' ms' l' os' ↦ run_loop k f cs' ps' ms' l' os' ]

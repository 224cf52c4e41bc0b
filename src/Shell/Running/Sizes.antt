-- ===== src/Shell/Running/Sizes.antt =====
-- The commands that the loop of `run_list` still has before it, in pset5/sh61.cc.
use cs61_f23_psets_tomkhe.Prelude.{
  ℕ, suc, ◌+◌, ◌≤◌, ◌≡◌, Option, none, some, List, [], ◌∷◌, arith, length,
}
use cs61_f23_psets_tomkhe.Shell.Parser.{Command, Pipeline, Conditional}
use cs61_f23_psets_tomkhe.Shell.Running.{first_commands, first_pipelines, Cursor, cursor, entry}

-- the commands of some pipelines, and of some conditionals
abbrev pub pipelines_size : List Pipeline → ℕ
pipelines_size [] = 0
pipelines_size (p ∷ ps) = length p.commands + pipelines_size ps

abbrev pub list_size : List Conditional → ℕ
list_size [] = 0
list_size (c ∷ cs) = pipelines_size c.pipelines + list_size cs

abbrev pub later_pipelines_size : List Pipeline → ℕ
later_pipelines_size [] = 0
later_pipelines_size (p ∷ ps) = pipelines_size ps

abbrev pub later_list_size : List Conditional → ℕ
later_list_size [] = 0
later_list_size (c ∷ cs) = list_size cs

-- the commands that a round may still reach
abbrev pub to_do : List Conditional → List Pipeline → List Command → ℕ
to_do cs ps ms = length ms + later_pipelines_size ps + later_list_size cs

abbrev pub cursor_size : Cursor → ℕ
cursor_size at =
    suc (length at.later_commands)
    + pipelines_size at.later_pipelines
    + list_size at.later_conditionals

pub to_do-entry :
    (cs : List Conditional)
    → to_do cs (first_pipelines cs) (first_commands (first_pipelines cs)) ≡ list_size cs
to_do-entry [] = omega arith
to_do-entry (c ∷ cs) = by_pipelines c.pipelines
  where
    by_pipelines :
        (ps : List Pipeline)
        → length (first_commands ps) + later_pipelines_size ps + list_size cs
          ≡ pipelines_size ps + list_size cs
    by_pipelines [] = omega arith
    by_pipelines (p ∷ ps) = omega arith

-- the commands from a cursor on, if there is one
unfoldable pub Reachable : ℕ → Option Cursor → Type 0
Reachable n none = Unit {0}
Reachable n (some at) = cursor_size at ≤ n

pub cursor-Reachable :
    (cs : List Conditional) (ps : List Pipeline) (ms : List Command) (n : ℕ)
    → to_do cs ps ms ≤ n
    → Reachable n (cursor cs ps ms)
unfolding cursor Reachable
cursor-Reachable [] ps ms n h = tt
cursor-Reachable (c ∷ cs) [] ms n h = tt
cursor-Reachable (c ∷ cs) (p ∷ ps) [] n h = tt
cursor-Reachable (c ∷ cs) (p ∷ ps) (m ∷ ms) n h = omega arith

pub entry-Reachable : (cs : List Conditional) (n : ℕ) → list_size cs ≤ n → Reachable n (entry cs)
entry-Reachable cs n h = cursor-Reachable cs _ _ n (let sizes = to_do-entry cs in omega arith)

-- ===== src/Shell/Running/Ending.antt =====
-- The loop of `run_list` ends.
use cs61_f23_psets_tomkhe.Prelude.{
  ℕ, zero, suc, ◌<◌, ◌≤◌, ◌≢◌, ◌⊎◌, inl, inr, Bool, true, false, not, ◌&&◌, Option, none, some,
  List, [], ◌∷◌, arith, ◌==◌, if◌then◌else◌,
}
use cs61_f23_psets_tomkhe.Shell.Parser.{Command, Pipeline, Conditional}
use cs61_f23_psets_tomkhe.Shell.Running.Sizes.{
  list_size, to_do, cursor_size, to_do-entry, Reachable, cursor-Reachable, entry-Reachable,
}
use cs61_f23_psets_tomkhe.Shell.Running.{
  System, returned, crashed, out_of_fuel, no_words, ends_pipeline, Cursor, cursor, entry, Locals,
  Round, again, ended, subshells, stops, wait_for, next_pipeline, next_command, run_current, round,
  run_loop, run_list, no_pid,
}

-- a round that goes on has fewer commands to do
Shrinks : {Os : Type 0} → ℕ → Round Os → Type 0
Shrinks n (ended r) = r ≢ out_of_fuel
Shrinks n (again cs ps ms l os) = to_do cs ps ms < n

Forward : {Os : Type 0} → ℕ → (Option Cursor × Bool × Os) ⊎ Os → Type 0
Forward n (inl (at, _, _)) = Reachable n at
Forward n (inr _) = Unit {0}

module _ (k : System) where
  Shrinks-if :
      (n : ℕ) (b : Bool) (x y : Round k.Os)
      → Shrinks n x
      → Shrinks n y
      → Shrinks n (if b then x else y)
  Shrinks-if n true x y p q = p
  Shrinks-if n false x y p q = q

  next_pipeline-Shrinks :
      (at : Cursor) (status : ℕ) (l : Locals) (os : k.Os)
      → Shrinks (cursor_size at) (next_pipeline k at status l os)
  unfolding next_pipeline Shrinks
  next_pipeline-Shrinks at status l os = ground arith

  next_command-Shrinks :
      (at : Cursor) (pid : ℕ) (l : Locals) (os : k.Os)
      → Shrinks (cursor_size at) (next_command k at pid l os)
  unfolding next_command Shrinks
  next_command-Shrinks at pid l os =
      Shrinks-if _ (not (ends_pipeline at.later_commands)) _ _ (omega arith)
        (waited (wait_for k at pid l (k.close_read_ends at.pipeline os)))
    where
      waited :
          (w : (ℕ × k.Os) ⊎ k.Os)
          → Shrinks (cursor_size at) (elim w [
            | inr os' ↦ ended (returned os')
            | inl waited ↦ next_pipeline k at waited.0 l waited.1
          ])
      waited (inl (status, os')) = next_pipeline-Shrinks at status l os'
      waited (inr os') = cc

  run_current-Shrinks :
      (at : Cursor) (l : Locals) (os : k.Os) → Shrinks (cursor_size at) (run_current k at l os)
  unfolding run_current Shrinks
  run_current-Shrinks at l os =
      Shrinks-if _ (l.run && not (no_words at.command)) _ _
        (Shrinks-if _ (stops k at os) _ _ (cc)
          (Shrinks-if _ (stops k at _) _ _ (cc) (next_command-Shrinks at _ _ _)))
        (next_command-Shrinks at no_pid l os)

  Shrinks-mono : {n m : ℕ} (r : Round k.Os) → n ≤ m → Shrinks n r → Shrinks m r
  unfolding Shrinks
  Shrinks-mono (ended r) h p = p
  Shrinks-mono (again cs ps ms l os) h p = omega arith

  -- the loop of the subshells only goes forward
  Forward-bool :
      (n : ℕ) (b : Bool) (x y : (Option Cursor × Bool × k.Os) ⊎ k.Os)
      → Forward n x
      → Forward n y
      → Forward n (elim b [ true ↦ x | false ↦ y ])
  Forward-bool n true x y p q = p
  Forward-bool n false x y p q = q

  Forward-if :
      (n : ℕ) (b : Bool) (x y : (Option Cursor × Bool × k.Os) ⊎ k.Os)
      → Forward n x
      → Forward n y
      → Forward n (if b then x else y)
  Forward-if n true x y p q = p
  Forward-if n false x y p q = q

  subshells-Forward :
      (c : Conditional) (cs : List Conditional) (start : Option Cursor) (parent : Bool) (os : k.Os)
      (n : ℕ)
      → Reachable n start
      → list_size cs ≤ n
      → Forward n (subshells k c cs start parent os)
  unfolding subshells Forward
  subshells-Forward c [] start parent os n h below =
      Forward-if n (parent && c.is_background) _ _
        (Forward-if n ((k.fork os).0 == 0) (inl (start, false, (k.fork os).1)) (inr (k.fork os).1) h
          tt)
        h
  subshells-Forward c (c' ∷ cs) start parent os n h below =
      Forward-bool n (parent && c.is_background) _ _
        (Forward-bool n ((k.fork os).0 == 0) (inl (start, false, (k.fork os).1)) _ h (
          subshells-Forward c' cs (entry (c' ∷ cs)) true (k.fork os).1 n
            (entry-Reachable (c' ∷ cs) n below) (omega arith)))
        h

  round-Shrinks :
      (at : Cursor) (l : Locals) (os : k.Os) → Shrinks (cursor_size at) (round k at l os)
  unfolding round Shrinks Forward Reachable
  round-Shrinks at l os = Shrinks-if _ (stops k at os) _ _ (cc) (
      behind (subshells k at.conditional at.later_conditionals (some at) l.parent os) (
        subshells-Forward at.conditional at.later_conditionals (some at) l.parent os
          (cursor_size at) (omega arith) (omega arith)))
    where
      behind :
          (s : (Option Cursor × Bool × k.Os) ⊎ k.Os)
          → Forward (cursor_size at) s
          → Shrinks (cursor_size at) (elim s [
            | inr os' ↦ ended (returned os')
            | inl (none, _, _) ↦ ended crashed
            | inl (some at', parent, os') ↦
                run_current k at'
                  (record { run = l.run; status = l.status; pgid = l.pgid; parent = parent })
                  os'
          ])
      behind (inr os') h = cc
      behind (inl (none, parent, os')) h = cc
      behind (inl (some at', parent, os')) h =
          Shrinks-mono (run_current k at' _ os') h (run_current-Shrinks at' _ os')

  run_loop-ends :
      (f : ℕ) (cs : List Conditional) (ps : List Pipeline) (ms : List Command) (l : Locals)
      (os : k.Os)
      → to_do cs ps ms < f
      → run_loop k f cs ps ms l os ≢ out_of_fuel
  unfolding run_loop Reachable Shrinks
  run_loop-ends zero cs ps ms l os h = omega arith
  run_loop-ends (suc f) [] ps ms l os h = cc
  run_loop-ends (suc f) (c ∷ cs) ps ms l os h =
      in_round (run_loop-ends f) (cursor (c ∷ cs) ps ms)
        (cursor-Reachable (c ∷ cs) ps ms f (omega arith))
    where
      behind :
          ((cs : List Conditional) (ps : List Pipeline) (ms : List Command) (l : Locals) (os : k.Os)
            → to_do cs ps ms < f
            → run_loop k f cs ps ms l os ≢ out_of_fuel)
          → (r : Round k.Os) → Shrinks f r
          → elim r [ ended r ↦ r | again cs' ps' ms' l' os' ↦ run_loop k f cs' ps' ms' l' os' ]
            ≢ out_of_fuel
      behind rest (ended r) s = s
      behind rest (again cs' ps' ms' l' os') s = rest cs' ps' ms' l' os' s

      in_round :
          ((cs : List Conditional) (ps : List Pipeline) (ms : List Command) (l : Locals) (os : k.Os)
            → to_do cs ps ms < f
            → run_loop k f cs ps ms l os ≢ out_of_fuel)
          → (o : Option Cursor) → Reachable f o
          → elim o [
            | none ↦ crashed
            | some at ↦ elim (round k at l os) [
              | ended r ↦ r
              | again cs' ps' ms' l' os' ↦ run_loop k f cs' ps' ms' l' os'
            ]
          ]
            ≢ out_of_fuel
      in_round rest none g = cc
      in_round rest (some at) g =
          behind rest (round k at l os) (Shrinks-mono (round k at l os) g (round-Shrinks at l os))

-- With fuel for every command of the list, and for the end, `run_list` comes to its end, whatever
-- the system answers: it returns, its process exits, or it crashes.
pub run_list-ends :
    (k : System) (f : ℕ) (cs : List Conditional) (os : k.Os)
    → list_size cs < f
    → run_list k f cs os ≢ out_of_fuel
unfolding run_list
run_list-ends k f cs os h =
    run_loop-ends k f cs _ _ _ os (let sizes = to_do-entry cs in omega arith)

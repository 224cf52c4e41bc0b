-- ===== src/M61/History.antt =====
-- A program's calls of the allocator of pset1/m61.cc, as a sequence.
use Prim.Native.String.{String}
use cs61_f23_psets_tomkhe.Prelude.{ℕ, ◌+◌, ◌==◌, if◌then◌else◌, ◌<◌, ◌≡◌, ◌⊎◌, List, [], ◌∷◌, some}
use cs61_f23_psets_tomkhe.OrderedMap.{find}
use cs61_f23_psets_tomkhe.M61.State.{Metadata, Heap, Outcome, returned, aborted, undefined, ptoi}
use cs61_f23_psets_tomkhe.M61.Malloc.{m61_malloc, m61_calloc}
use cs61_f23_psets_tomkhe.M61.Free.{m61_free}
use cs61_f23_psets_tomkhe.M61.Realloc.{m61_realloc}
use cs61_f23_psets_tomkhe.M61.Invariant.{IsWellFormed, EndsWellFormed}
use cs61_f23_psets_tomkhe.M61.Preserve.{
  m61_malloc-IsWellFormed, m61_calloc-IsWellFormed, m61_free-EndsWellFormed,
  m61_realloc-EndsWellFormed,
}

pub data Call : Type 0 where
  malloc : ℕ → Call
  calloc : ℕ → ℕ → Call
  free : ℕ → Call
  realloc : ℕ → ℕ → Call
  -- the program stores a byte, at any offset
  store : ℕ → ℕ → Call

abbrev finish : ℕ × Heap → Outcome (Unit {0})
finish (p, s) = returned tt s

abbrev drop_result : Outcome ℕ → Outcome (Unit {0})
drop_result (returned p s) = returned tt s
drop_result (aborted s) = aborted s
drop_result undefined = undefined

unfoldable pub step : String → ℕ → Call → Heap → Outcome (Unit {0})
step file line (malloc sz) s = finish (m61_malloc sz file line s)
step file line (calloc count sz) s = finish (m61_calloc count sz file line s)
step file line (free ptr) s = m61_free ptr file line s
step file line (realloc ptr sz) s = drop_result (m61_realloc ptr sz file line s)
step file line (store x value) s =
    returned tt (record s { mem = λ y. if y == x then value else s.mem y })

abbrev then_run : (Heap → Outcome (Unit {0})) → Outcome (Unit {0}) → Outcome (Unit {0})
then_run f (returned _ s) = f s
then_run f (aborted s) = aborted s
then_run f undefined = undefined

unfoldable pub run : String → ℕ → List Call → Heap → Outcome (Unit {0})
run file line [] s = returned tt s
run file line (c ∷ cs) s = then_run (run file (line + 1) cs) (step file line c s)

-- The call resizes no active block in place.
abbrev pub NotInPlace : Call → Heap → Type 0
NotInPlace (realloc ptr sz) s =
    (d : Metadata) → find (ptoi s ptr) s.allocated_blocks ≡ some d → (sz ≡ 0) ⊎ (d.sz < sz)
NotInPlace _ s = Unit {0}

abbrev AfterOutcome : (Heap → Type 0) → Outcome (Unit {0}) → Type 0
AfterOutcome P (returned _ s) = P s
AfterOutcome P _ = Unit {0}

-- No call of the run resizes an active block in place.
unfoldable pub NeverInPlace : String → ℕ → List Call → Heap → Type 0
NeverInPlace file line [] s = Unit {0}
NeverInPlace file line (c ∷ cs) s =
    NotInPlace c s × AfterOutcome (NeverInPlace file (line + 1) cs) (step file line c s)

step-EndsWellFormed :
    (file : String) (line : ℕ) (c : Call) (s : Heap)
    → IsWellFormed s
    → NotInPlace c s
    → EndsWellFormed (step file line c s)
unfolding step
step-EndsWellFormed file line (malloc sz) s v h = m61_malloc-IsWellFormed sz file line s v
step-EndsWellFormed file line (calloc count sz) s v h =
    m61_calloc-IsWellFormed count sz file line s v
step-EndsWellFormed file line (free ptr) s v h = m61_free-EndsWellFormed ptr file line s v
step-EndsWellFormed file line (realloc ptr sz) s v h =
    forget (m61_realloc ptr sz file line s) (m61_realloc-EndsWellFormed ptr sz file line s v h)
  where
    forget : (r : Outcome ℕ) → EndsWellFormed r → EndsWellFormed (drop_result r)
    forget (returned p t) e = e
    forget (aborted t) e = e
    forget undefined e = e
step-EndsWellFormed file line (store x value) s v h = v

pub run-EndsWellFormed :
    (file : String) (line : ℕ) (cs : List Call) (s : Heap)
    → IsWellFormed s
    → NeverInPlace file line cs s
    → EndsWellFormed (run file line cs s)
unfolding run NeverInPlace
run-EndsWellFormed file line [] s v h = v
run-EndsWellFormed file line (c ∷ cs) s v h =
    next (step file line c s) (step-EndsWellFormed file line c s v h.0) h.1
      (run-EndsWellFormed file (line + 1) cs)
  where
    next :
        (r : Outcome (Unit {0}))
        → EndsWellFormed r
        → AfterOutcome (NeverInPlace file (line + 1) cs) r
        → ((t : Heap)
            → IsWellFormed t
            → NeverInPlace file (line + 1) cs t
            → EndsWellFormed (run file (line + 1) cs t))
        → EndsWellFormed (then_run (run file (line + 1) cs) r)
    next (returned _ t) e k rest = rest t e k
    next (aborted t) e k rest = e
    next undefined e k rest = e

-- ===== src/M61/Reports.antt =====
-- `m61_calloc` and `m61_print_leak_report` of pset1/m61.cc.
use cs61_f23_psets_tomkhe.OrderedMap.All.{All}
use mathlib.Core.List.{append_assoc, mem-append_right, Mem, mem-cons_self}
use cs61_f23_psets_tomkhe.Prelude.{
  ◌++◌, ℕ, ◌+◌, ◌*◌, ◌%◌, ◌≤◌, ◌<◌, ◌≡◌, refl, sym, ◌∙◌, ◌≢◌, inl, inr, ◌||◌, List, [], ◌∷◌, map,
  arith, ltb, ◌==◌, ==_iff, ==-refl, Bool-cases, word, length,
}
use Prim.Native.String.{String}
use cs61_f23_psets_tomkhe.OrderedMap.Total.{total}
use cs61_f23_psets_tomkhe.M61.State.{size, Metadata, Heap, itop, ptoi}
use cs61_f23_psets_tomkhe.M61.Malloc.{clear_new, m61_malloc, m61_calloc}
use cs61_f23_psets_tomkhe.M61.Realloc.{Leak, m61_print_leak_report}
use cs61_f23_psets_tomkhe.M61.Invariant.{one, IsWellFormed}
use cs61_f23_psets_tomkhe.M61.Allocation.{Fresh, m61_malloc-Fresh, malloc_base}

small_product : (a b : ℕ) → a ≤ size → b ≤ size → a * b % word ≡ a * b
small_product a b h k = grind arith

abbrev pub AllZero : ℕ → ℕ → (ℕ → ℕ) → Type 0
AllZero n x mem = (i : ℕ) → i < n → mem (x + i) ≡ 0

abbrev Zeroed : ℕ → ℕ → Heap → ℕ × Heap → Type 0
Zeroed n line s r = Fresh n line r.0 s r.1 × AllZero n (ptoi s r.0) r.1.mem

clear_new-Zeroed :
    (n line : ℕ) (s : Heap) (r : ℕ × Heap)
    → r.1.base ≡ s.base
    → (r.0 ≢ 0 → Fresh n line r.0 s r.1)
    → (clear_new n r).0 ≢ 0
    → Zeroed n line s (clear_new n r)
unfolding clear_new
clear_new-Zeroed n line s (p, t) eb fresh ne = elim (Bool-cases (p == 0)) [
  | inl z ↦ absurd (rw z at ne ((==_iff p 0).0 z))
  | inr nz ↦
      let f = fresh (λ z. cc (==-refl 0, rw z at nz)) in
      rw nz (
        rw eb (
          record {
            in_buffer = f.in_buffer;
            aligned = f.aligned;
            recorded = f.recorded;
            apart = f.apart;
            others_kept = f.others_kept;
            contents_kept =
                λ k x d a lo hi. ground (arith, f.contents_kept k x d a lo hi, f.apart k d a);
          },
          λ i lt. ground arith,
        ))
]

calloc_small :
    (count sz : ℕ) (file : String) (line : ℕ) (s : Heap)
    → (m61_calloc count sz file line s).0 ≢ 0
    → m61_calloc count sz file line s ≡ clear_new (count * sz) (m61_malloc (count * sz) file line s)
unfolding m61_calloc
calloc_small count sz file line s ne = elim (Bool-cases (ltb size count || ltb size sz)) [
  | inl big ↦ absurd (ne (rw big))
  | inr small ↦
      let exact = small_product count sz (ground arith) (ground arith) in rw small (rw exact)
]

-- When `m61_calloc` returns a pointer other than null from a well-formed state, the product of
-- its arguments has not wrapped and is at most the buffer's size; the pointer is a fresh block of
-- that many bytes, as for `m61_malloc`; and all of them are zero.
pub m61_calloc-zeroed :
    (count sz : ℕ) (file : String) (line : ℕ) (s : Heap)
    → IsWellFormed s
    → (m61_calloc count sz file line s).0 ≢ 0
    → (count * sz ≤ size)
      × Fresh
          (count * sz)
          line
          (m61_calloc count sz file line s).0
          s
          (m61_calloc count sz file line s).1
      × AllZero
          (count * sz)
          (ptoi s (m61_calloc count sz file line s).0)
          (m61_calloc count sz file line s).1.mem
m61_calloc-zeroed count sz file line s v ne =
    let same = calloc_small count sz file line s ne in
    let zeroed =
      clear_new-Zeroed (count * sz) line s (m61_malloc (count * sz) file line s)
        (malloc_base (count * sz) file line s) (m61_malloc-Fresh (count * sz) file line s v)
        (rw same at ne) in
    rw same (omega (arith, zeroed.0.in_buffer), zeroed.0, zeroed.1)

abbrev leak_line : Heap → ℕ × Metadata → Leak
leak_line s (k, d) = record {
  file = s.curr_file;
  line = d.line_allocated;
  address = itop s k;
  bytes = d.sz;
}

length-total : (s : Heap) (m : List (ℕ × Metadata)) → length (map (leak_line s) m) ≡ total one m
unfolding total
length-total s [] = refl
length-total s (e ∷ m) = omega (arith, length-total s m)

leaks_listed :
    (s : Heap) (m : List (ℕ × Metadata)) (more : List Leak)
    → All (λ k d. Mem (leak_line s (k, d)) (more ++ map (leak_line s) m)) m
leaks_listed s [] more = tt
leaks_listed s ((k, d) ∷ m) more =
    let rest = leaks_listed s m (more ++ (leak_line s (k, d) ∷ [])) in
    (
      mem-append_right more mem-cons_self,
      rw (append_assoc more (leak_line s (k, d) ∷ []) (map (leak_line s) m)) at rest,
    )

-- From a well-formed state the leak report has one line for each active block that the counter
-- `nactive` counts, and every active block has a line with its address, size and line number.
pub leak_report_complete :
    (s : Heap)
    → IsWellFormed s
    → (length (m61_print_leak_report s) ≡ s.stats.nactive)
      × All
          (λ k d.
            Mem
              (record {
                file = s.curr_file;
                line = d.line_allocated;
                address = itop s k;
                bytes = d.sz;
              })
              (m61_print_leak_report s))
          s.allocated_blocks
unfolding m61_print_leak_report
leak_report_complete s v =
    (length-total s s.allocated_blocks ∙ sym v.nactive_is, leaks_listed s s.allocated_blocks [])

-- ===== src/WeensyOs/Kernel/Pages/Finding.antt =====
-- What `kalloc` finds, and what it leaves.
use mathlib.Core.Path.{subst}
use cs61_f23_psets_tomkhe.Prelude.{
  ℕ, zero, suc, ◌+◌, ◌*◌, ◌%◌, ◌<◌, ◌≤◌, ◌≡◌, ◌≢◌, refl, sym, ap, ◌∙◌, ◌⊎◌, inl, inr, true, false,
  ◌&&◌, ltb, leb, ◌==◌, if◌then◌else◌, arith, Bool-cases,
}
use cs61_f23_psets_tomkhe.WeensyOs.Memory.Copying.{memset-filled}
use cs61_f23_psets_tomkhe.WeensyOs.Kernel.Pages.{
  page_size, npages, Physical, reserved_physical_address, allocatable_physical_address, is_free,
  set_refcount, fill_page, kalloc_from, kalloc,
}

-- the page `p` has gone from free to one reference, its bytes are 0xCC, and nothing else has changed
pub record Taken (st st' : Physical) (p : ℕ) : Type 0 where
  pub counted : (q : ℕ) → st'.refcount q ≡ (if q == p then 1 else st.refcount q)
  pub filled :
      (a : ℕ)
      → st'.memory a
        ≡ (if leb (p * page_size) a && ltb a (p * page_size + page_size) then 0xCC else st.memory a)

-- the first free page from `pageno` on has been taken; or there is none, and nothing has happened
Looked : ℕ → ℕ → Physical → ℕ × Physical → Type 0
Looked kernel_end pageno st r =
    ((p : ℕ) × (pageno ≤ p)
      × (p < npages)
      × (is_free kernel_end st p ≡ true)
      × ((q : ℕ) → pageno ≤ q → q < p → is_free kernel_end st q ≡ false)
      × (r.0 ≡ p * page_size)
      × Taken st r.1 p)
    ⊎ (((q : ℕ) → pageno ≤ q → q < npages → is_free kernel_end st q ≡ false) × (r ≡ (0, st)))

taken :
    (kernel_end p : ℕ) (st : Physical)
    → is_free kernel_end st p ≡ true
    → Taken st (fill_page (p * page_size) 0xCC (set_refcount p (st.refcount p + 1) st)) p
unfolding fill_page set_refcount is_free
taken kernel_end p st h = record {
  counted = λ q. ground arith;
  filled = λ a. memset-filled (p * page_size) 0xCC page_size st.memory a;
}

first_or_later : (p x : ℕ) → p ≤ x → (p ≡ x) ⊎ (p + 1 ≤ x)
first_or_later p x h = omega arith

kalloc_none : (kernel_end n : ℕ) (st : Physical) → kalloc_from kernel_end zero n st ≡ (0, st)
unfolding kalloc_from
kalloc_none kernel_end n st = refl

-- a page in use in front changes nothing for the search behind it
later :
    (kernel_end p : ℕ) (st : Physical)
    → is_free kernel_end st p ≡ false
    → (r : ℕ × Physical) → Looked kernel_end (p + 1) st r
    → Looked kernel_end p st r
unfolding Looked
later kernel_end p st used r (inl (q, le, lt, free, below, at, got)) = inl (
  q,
  omega arith,
  lt,
  free,
  λ x xle xlt. elim (first_or_later p x xle) [
    | inl same ↦ subst (λ y. is_free kernel_end st y ≡ false) same used
    | inr more ↦ below x more xlt
  ],
  at,
  got,
)
later kernel_end p st used r (inr (none_free, same_state)) = inr (
  λ x xle xlt. elim (first_or_later p x xle) [
    | inl same ↦ subst (λ y. is_free kernel_end st y ≡ false) same used
    | inr more ↦ none_free x more xlt
  ],
  same_state,
)

round_found :
    (kernel_end tries p : ℕ) (st : Physical)
    → is_free kernel_end st p ≡ true
    → kalloc_from kernel_end (suc tries) p st
      ≡ (p * page_size, fill_page (p * page_size) 0xCC (set_refcount p (st.refcount p + 1) st))
unfolding kalloc_from
round_found kernel_end tries p st h = rw (kalloc_from, h) refl

round_next :
    (kernel_end tries p : ℕ) (st : Physical)
    → is_free kernel_end st p ≡ false
    → kalloc_from kernel_end (suc tries) p st ≡ kalloc_from kernel_end tries ((p + 1) % npages) st
unfolding kalloc_from
round_next kernel_end tries p st h = rw (kalloc_from, h) refl

kalloc_from-Looked :
    (kernel_end tries p n : ℕ) (st : Physical)
    → p + tries ≡ npages
    → n ≡ p % npages
    → Looked kernel_end p st (kalloc_from kernel_end tries n st)
unfolding Looked
kalloc_from-Looked kernel_end zero p n st h e =
    inr (λ q le lt. absurd (omega arith), kalloc_none kernel_end n st)
kalloc_from-Looked kernel_end (suc tries) p n st h e =
    let here : n ≡ p = omega arith in
    elim (Bool-cases (is_free kernel_end st p)) [
      | inl free ↦
          subst (Looked kernel_end p st)
            (sym (
              ap (λ k. kalloc_from kernel_end (suc tries) k st) here
              ∙ round_found kernel_end tries p st free))
            (inl (
              p,
              omega arith,
              omega arith,
              free,
              λ q le lt. absurd (omega arith),
              refl,
              taken kernel_end p st free,
            ))
      | inr used ↦
          subst (Looked kernel_end p st)
            (sym (
              ap (λ k. kalloc_from kernel_end (suc tries) k st) here
              ∙ round_next kernel_end tries p st used))
            (later kernel_end p st used _ (
              kalloc_from-Looked kernel_end tries (p + 1) ((p + 1) % npages) st (omega arith) refl))
    ]

kalloc_large :
    (kernel_end sz : ℕ) (st : Physical)
    → ltb page_size sz ≡ true
    → kalloc kernel_end sz st ≡ (0, st)
unfolding kalloc
kalloc_large kernel_end sz st h = rw (kalloc, h) refl

kalloc_small :
    (kernel_end sz : ℕ) (st : Physical)
    → ltb page_size sz ≡ false
    → kalloc kernel_end sz st ≡ kalloc_from kernel_end npages 0 st
unfolding kalloc
kalloc_small kernel_end sz st h = rw (kalloc, h) refl

is_free-nonzero : (kernel_end p : ℕ) (st : Physical) → is_free kernel_end st p ≡ true → p ≢ 0
unfolding is_free allocatable_physical_address reserved_physical_address
is_free-nonzero kernel_end p st h = ground arith

-- what a call has done, by its result
abbrev pub Allocates : ℕ → ℕ → Physical → ℕ × Physical → Type 0
Allocates kernel_end sz st (pa, st') =
    ((p : ℕ) × (sz ≤ page_size)
      × (p < npages)
      × (is_free kernel_end st p ≡ true)
      × ((q : ℕ) → q < p → is_free kernel_end st q ≡ false)
      × (pa ≡ p * page_size)
      × (pa ≢ 0)
      × Taken st st' p)
    ⊎ (((page_size < sz) ⊎ ((q : ℕ) → q < npages → is_free kernel_end st q ≡ false))
        × (pa ≡ 0)
        × (st' ≡ st))

allocates :
    (kernel_end sz : ℕ) (st : Physical) (r : ℕ × Physical)
    → sz ≤ page_size
    → Looked kernel_end 0 st r
    → Allocates kernel_end sz st r
unfolding Looked
allocates kernel_end sz st r small (inl (p, le, lt, free, below, at, got)) = inl (
  p,
  small,
  lt,
  free,
  λ q hq. below q (omega arith) hq,
  at,
  omega (arith, is_free-nonzero kernel_end p st free),
  got,
)
allocates kernel_end sz st r small (inr (none_free, e)) = inr (
  inr (λ q hq. none_free q (omega arith) hq),
  ap (λ (x : ℕ × Physical). x.0) e,
  ap (λ (x : ℕ × Physical). x.1) e,
)

-- `kalloc` of at most a page takes the first page that is free and may be allocated: the page goes
-- to one reference, all of its bytes become 0xCC, its address, not null, is returned, and no other
-- count or byte changes. When no page is free, or more than a page is asked for, it returns null and
-- changes nothing.
pub kalloc-Allocates :
    (kernel_end sz : ℕ) (st : Physical) → Allocates kernel_end sz st (kalloc kernel_end sz st)
kalloc-Allocates kernel_end sz st = elim (Bool-cases (ltb page_size sz)) [
  | inl large ↦
      subst (Allocates kernel_end sz st) (sym (kalloc_large kernel_end sz st large))
        (inr (inl (ground arith), refl, refl))
  | inr small ↦ subst (Allocates kernel_end sz st) (sym (kalloc_small kernel_end sz st small)) (
      allocates kernel_end sz st _ (ground arith)
        (kalloc_from-Looked kernel_end npages 0 0 st (omega arith) (omega arith)))
]

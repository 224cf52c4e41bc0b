-- ===== src/WeensyOs/Kernel/Pages/Owners.antt =====
-- Who holds which page, over any sequence of allocations, shares and frees.
use mathlib.Core.Path.{subst}
use cs61_f23_psets_tomkhe.Prelude.{
  choose_false, ℕ, ◌+◌, ◌-◌, ◌*◌, ◌/◌, ◌%◌, ◌<◌, ◌≡◌, ◌≢◌, refl, sym, ◌∙◌, ◌⊎◌, inl, inr, Bool,
  true, false, not, ◌||◌, Option, some, leb, ◌==◌, if◌then◌else◌, arith, List, [], ◌∷◌,
}
use cs61_f23_psets_tomkhe.WeensyOs.Memory.{Memory}
use cs61_f23_psets_tomkhe.WeensyOs.Kernel.Pages.{
  page_size, npages, Physical, reserved_physical_address, allocatable_physical_address, is_free,
  set_refcount, fill_page, kalloc, kfree,
}
use cs61_f23_psets_tomkhe.WeensyOs.Kernel.Pages.Finding.{Taken, Allocates, kalloc-Allocates}

-- how many references a list of held pages has to a page
abbrev pub count : ℕ → List ℕ → ℕ
count p [] = 0
count p (q ∷ held) = (if p == q then 1 else 0) + count p held

-- the list without one reference to a page
abbrev pub remove : ℕ → List ℕ → List ℕ
remove p [] = []
remove p (q ∷ held) = if p == q then held else q ∷ remove p held

-- The states that calls reach from the kernel's start, with the references held: a page that
-- `kalloc` returned, one more reference to a held page, as `fork` takes them, or one less by
-- `kfree`. Memory may be written at any time.
pub data Reaches (kernel_end : ℕ) : Physical → List ℕ → Type 0 where
  start : (m : Memory) → Reaches kernel_end (record { refcount = λ _. 0; memory = m }) []
  allocate :
      {st st' : Physical} {held : List ℕ} (sz pa : ℕ)
      → Reaches kernel_end st held
      → kalloc kernel_end sz st ≡ (pa, st')
      → pa ≢ 0
      → Reaches kernel_end st' (pa / page_size ∷ held)
  share :
      {st : Physical} {held : List ℕ} (p : ℕ)
      → Reaches kernel_end st held
      → 0 < count p held
      → count p held < 255
      → Reaches kernel_end (set_refcount p (st.refcount p + 1) st) (p ∷ held)
  free :
      {st st' : Physical} {held : List ℕ} (p : ℕ)
      → Reaches kernel_end st held
      → 0 < count p held
      → kfree (p * page_size) st ≡ some st'
      → Reaches kernel_end st' (remove p held)
  write :
      {st : Physical} {held : List ℕ} (m : Memory)
      → Reaches kernel_end st held
      → Reaches kernel_end (record { refcount = st.refcount; memory = m }) held

-- each count is the number of references, it fits its 8 bits, and a held page may be allocated
pub record Counts (kernel_end : ℕ) (st : Physical) (held : List ℕ) : Type 0 where
  pub exact : (p : ℕ) → st.refcount p ≡ count p held
  pub bounded : (p : ℕ) → count p held < 256
  pub allowed :
      (p : ℕ)
      → 0 < count p held
      → (p < npages) × (allocatable_physical_address kernel_end (p * page_size) ≡ true)

count-remove :
    (p q : ℕ) (held : List ℕ)
    → 0 < count p held
    → count q (remove p held) ≡ count q held - (if q == p then 1 else 0)
count-remove p q [] h = ground arith
count-remove p q (r ∷ held) h = ground (arith, count-remove p q held)

-- the state after a page has lost a reference
freed : ℕ → ℕ → Physical → Physical
freed kptr p st =
    let st' = set_refcount p (st.refcount p - 1) st in
    if st'.refcount p == 0 then fill_page kptr 0 st' else st'

kfree_at :
    (kptr p : ℕ) (st : Physical)
    → kptr / page_size ≡ p
    → kptr ≢ 0
    → kptr % page_size ≡ 0
    → p < npages
    → 0 < st.refcount p
    → kfree kptr st ≡ some (freed kptr p st)
unfolding kfree freed
kfree_at kptr p st e h0 hm hn hc =
    subst (λ (x : ℕ). x < npages → 0 < st.refcount x → kfree kptr st ≡ some (freed kptr x st)) e
      (λ hn' hc'.
        choose_false (kptr == 0 || not (kptr % page_size == 0)) _ _ (ground arith)
        ∙ choose_false (leb npages (kptr / page_size) || st.refcount (kptr / page_size) == 0) _ _
            (ground arith))
      hn hc

==-cases : (q p : ℕ) → (q ≡ p) ⊎ (q ≢ p)
==-cases q p = omega arith

some-injective : {x y : Physical} → ◌≡◌ {A = Option Physical} (some x) (some y) → x ≡ y
some-injective h = cc

same_counts :
    (b : Bool) (x y : Physical) (q : ℕ)
    → x.refcount q ≡ y.refcount q
    → (if b then x else y).refcount q ≡ y.refcount q
same_counts true x y q h = h
same_counts false x y q h = refl

freed_count :
    (kptr p q : ℕ) (st : Physical)
    → 0 < st.refcount p
    → st.refcount p < 256
    → (freed kptr p st).refcount q ≡ st.refcount q - (if q == p then 1 else 0)
unfolding freed set_refcount fill_page
freed_count kptr p q st hc hb =
    let st' = set_refcount p (st.refcount p - 1) st in
    same_counts (st'.refcount p == 0) (fill_page kptr 0 st') st' q refl ∙ ground arith

free_page :
    (kernel_end p : ℕ) (st : Physical)
    → is_free kernel_end st p ≡ true
    → (st.refcount p ≡ 0) × (allocatable_physical_address kernel_end (p * page_size) ≡ true)
unfolding is_free
free_page kernel_end p st h = ground arith

allocatable-nonzero :
    (kernel_end p : ℕ) → allocatable_physical_address kernel_end (p * page_size) ≡ true → 0 < p
unfolding allocatable_physical_address reserved_physical_address
allocatable-nonzero kernel_end p h = ground arith

-- what a call of `kalloc` that does not fail returns
granted :
    (kernel_end sz pa : ℕ) (st st' : Physical)
    → kalloc kernel_end sz st ≡ (pa, st')
    → pa ≢ 0
    → (p : ℕ) × (pa / page_size ≡ p)
      × (p < npages)
      × (is_free kernel_end st p ≡ true)
      × Taken st st' p
granted kernel_end sz pa st st' e h =
    elim (subst (Allocates kernel_end sz st) e (kalloc-Allocates kernel_end sz st)) [
      | inl got ↦
          let (p, small, lt, idle, first, at, nonnull, taken) = got in
          (p, omega arith, lt, idle, taken)
      | inr failed ↦ absurd (h failed.1)
    ]

allocate-Counts :
    (kernel_end p : ℕ) (st st' : Physical) (held : List ℕ)
    → Counts kernel_end st held
    → p < npages
    → is_free kernel_end st p ≡ true
    → Taken st st' p
    → Counts kernel_end st' (p ∷ held)
allocate-Counts kernel_end p st st' held c lt idle taken =
    let (unused, allowed) = free_page kernel_end p st idle in
    record {
      exact = λ q. ground (arith, taken.counted q, c.exact q, c.exact p);
      bounded = λ q. ground (arith, c.bounded q, c.exact p);
      allowed = λ q hq. elim (==-cases q p) [
        | inl same ↦
            subst
              (λ x. (x < npages) × (allocatable_physical_address kernel_end (x * page_size) ≡ true))
              (sym same) (lt, allowed)
        | inr other ↦ c.allowed q (ground arith)
      ];
    }

share-Counts :
    (kernel_end p : ℕ) (st : Physical) (held : List ℕ)
    → Counts kernel_end st held
    → 0 < count p held
    → count p held < 255
    → Counts kernel_end (set_refcount p (st.refcount p + 1) st) (p ∷ held)
unfolding set_refcount
share-Counts kernel_end p st held c h lt = record {
  exact = λ q. ground (arith, c.exact q, c.exact p);
  bounded = λ q. ground (arith, c.bounded q);
  allowed = λ q hq. elim (==-cases q p) [
    | inl same ↦
        subst (λ x. (x < npages) × (allocatable_physical_address kernel_end (x * page_size) ≡ true))
          (sym same) (c.allowed p h)
    | inr other ↦ c.allowed q (ground arith)
  ];
}

-- a held page can be freed
kfree_held :
    (kernel_end p : ℕ) (st : Physical) (held : List ℕ)
    → Counts kernel_end st held
    → 0 < count p held
    → kfree (p * page_size) st ≡ some (freed (p * page_size) p st)
kfree_held kernel_end p st held c h =
    let (lt, allowed) = c.allowed p h in
    let nonzero = allocatable-nonzero kernel_end p allowed in
    kfree_at (p * page_size) p st (omega arith) (omega arith) (omega arith) lt
      (omega (arith, c.exact p))

free-Counts :
    (kernel_end p : ℕ) (st : Physical) (held : List ℕ)
    → Counts kernel_end st held
    → 0 < count p held
    → Counts kernel_end (freed (p * page_size) p st) (remove p held)
free-Counts kernel_end p st held c h =
    let counted = λ (q : ℕ).
      freed_count (p * page_size) p q st (omega (arith, c.exact p))
        (omega (arith, c.exact p, c.bounded p)) in
    record {
      exact = λ q. ground (arith, counted q, c.exact q, count-remove p q held h);
      bounded = λ q. ground (arith, c.bounded q, count-remove p q held h);
      allowed = λ q hq. c.allowed q (ground (arith, count-remove p q held h));
    }

pub Reaches-Counts :
    (kernel_end : ℕ) {st : Physical} {held : List ℕ}
    → Reaches kernel_end st held
    → Counts kernel_end st held
Reaches-Counts kernel_end (start m) = record {
  exact = λ p. refl;
  bounded = λ p. omega arith;
  allowed = λ p h. absurd (omega arith);
}
Reaches-Counts kernel_end (allocate {st} {st'} {held} sz pa r e h) =
    let (p, at, lt, idle, taken) = granted kernel_end sz pa st st' e h in
    subst (λ x. Counts kernel_end st' (x ∷ held)) (sym at)
      (allocate-Counts kernel_end p st st' held (Reaches-Counts kernel_end r) lt idle taken)
Reaches-Counts kernel_end (share {st} {held} p r h lt) =
    share-Counts kernel_end p st held (Reaches-Counts kernel_end r) h lt
Reaches-Counts kernel_end (free {st} {st'} {held} p r h e) =
    let c = Reaches-Counts kernel_end r in
    subst (λ x. Counts kernel_end x (remove p held))
      (some-injective (sym (kfree_held kernel_end p st held c h) ∙ e))
      (free-Counts kernel_end p st held c h)
Reaches-Counts kernel_end (write {st} {held} m r) =
    let c = Reaches-Counts kernel_end r in
    record { exact = c.exact; bounded = c.bounded; allowed = c.allowed }

-- In every state that calls reach from the kernel's start, `kalloc` fails, or the page that it
-- returns is one that nobody holds and that may be allocated.
pub kalloc-Unheld :
    (kernel_end sz : ℕ) {st : Physical} {held : List ℕ}
    → Reaches kernel_end st held
    → let pa = (kalloc kernel_end sz st).0 in
      (pa ≡ 0)
      ⊎ ((count (pa / page_size) held ≡ 0)
          × (pa % page_size ≡ 0)
          × (allocatable_physical_address kernel_end pa ≡ true))
kalloc-Unheld kernel_end sz {st} {held} r = elim (kalloc-Allocates kernel_end sz st) [
  | inl got ↦
      let (p, small, lt, idle, first, at, nonnull, taken) = got in
      let (unused, allowed) = free_page kernel_end p st idle in
      inr (
        subst (λ x. count x held ≡ 0) (omega arith)
            (sym ((Reaches-Counts kernel_end r).exact p) ∙ unused),
        omega arith,
        subst (λ x. allocatable_physical_address kernel_end x ≡ true) (sym at) allowed,
      )
  | inr failed ↦ inl failed.1
]

-- In every such state a page that is held can be freed: no assertion of `kfree` fails, and the state
-- that it leaves is one that calls reach, with one reference less.
pub kfree-Reaches :
    (kernel_end p : ℕ) {st : Physical} {held : List ℕ}
    → Reaches kernel_end st held
    → 0 < count p held
    → (st' : Physical) × (kfree (p * page_size) st ≡ some st')
      × Reaches kernel_end st' (remove p held)
kfree-Reaches kernel_end p {st} {held} r h =
    let done = kfree_held kernel_end p st held (Reaches-Counts kernel_end r) h in
    (freed (p * page_size) p st, done, free p r h done)

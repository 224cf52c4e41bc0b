-- ===== src/WeensyOs/Kernel/Pages.antt =====
-- `kalloc` and `kfree` of pset3/kernel.cc, and what they use of pset3/k-hardware.cc. The end of the
-- kernel's code and data, which the linker sets, is the parameter `kernel_end`. The reference
-- counts, which have 8 bits, and the bytes of physical memory are functions.
pub mod Finding
pub mod Owners
use cs61_f23_psets_tomkhe.Prelude.{
  ℕ, zero, suc, ◌+◌, ◌-◌, ◌*◌, ◌/◌, ◌%◌, Bool, true, false, not, ◌&&◌, ◌||◌, Option, none, some,
  ltb, leb, ◌==◌, if◌then◌else◌,
}
use cs61_f23_psets_tomkhe.WeensyOs.Memory.{Memory, store, memset}

-- `PAGESIZE` and `NPAGES`
abbrev pub page_size : ℕ
page_size = 4096

abbrev pub npages : ℕ
npages = 512

-- `physpages`, and the memory
pub record Physical : Type 0 where
  pub refcount : ℕ → ℕ
  pub memory : Memory

unfoldable pub reserved_physical_address : ℕ → Bool
reserved_physical_address pa = ltb pa page_size || leb 0xA0000 pa && ltb pa 0x100000

abbrev pub round_up : ℕ → ℕ → ℕ
round_up x m = let y = x + m - 1 in y - y % m

unfoldable pub allocatable_physical_address : ℕ → ℕ → Bool
allocatable_physical_address kernel_end pa =
    not (reserved_physical_address pa)
    && (ltb pa 0x40000 || leb (round_up kernel_end page_size) pa)
    && (ltb pa (0x80000 - page_size) || leb 0x80000 pa)
    && ltb pa 0x200000

-- a page that `kalloc` may take
unfoldable pub is_free : ℕ → Physical → ℕ → Bool
is_free kernel_end st pageno =
    allocatable_physical_address kernel_end (pageno * page_size) && st.refcount pageno == 0

-- `++` and `--` on a reference count
unfoldable pub set_refcount : ℕ → ℕ → Physical → Physical
set_refcount pageno n st = record {
  refcount = store pageno (n % 256) st.refcount;
  memory = st.memory;
}

unfoldable pub fill_page : ℕ → ℕ → Physical → Physical
fill_page pa c st = record { refcount = st.refcount; memory = memset pa c page_size st.memory }

-- the loop of `kalloc`, with `tries` pages left to look at
unfoldable pub kalloc_from : ℕ → ℕ → ℕ → Physical → ℕ × Physical
kalloc_from kernel_end zero pageno st = (0, st)
kalloc_from kernel_end (suc tries) pageno st =
    let pa = pageno * page_size in
    elim (is_free kernel_end st pageno) [
      | true ↦ (pa, fill_page pa 0xCC (set_refcount pageno (st.refcount pageno + 1) st))
      | false ↦ kalloc_from kernel_end tries ((pageno + 1) % npages) st
    ]

-- The address of the page, or 0, and the state.
unfoldable pub kalloc : ℕ → ℕ → Physical → ℕ × Physical
kalloc kernel_end sz st = elim (ltb page_size sz) [
  | true ↦ (0, st)
  | false ↦ kalloc_from kernel_end npages 0 st
]

-- `none` is a failed assertion, or a page past the array.
unfoldable pub kfree : ℕ → Physical → Option Physical
kfree kptr st =
    let pageno = kptr / page_size in
    if kptr == 0 || not (kptr % page_size == 0)
    then some st
    else if leb npages pageno || st.refcount pageno == 0
    then none
    else (let st' = set_refcount pageno (st.refcount pageno - 1) st in
        some (if st'.refcount pageno == 0 then fill_page kptr 0 st' else st'))

unfoldable pub kalloc_pagetable : ℕ → Physical → ℕ × Physical
kalloc_pagetable kernel_end st =
    let (pt, st') = kalloc kernel_end page_size st in
    (pt, if pt == 0 then st' else fill_page pt 0 st')

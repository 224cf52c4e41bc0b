-- ===== src/Io61/Cache.antt =====
-- The cache of pset4/io61.cc on the writing side: `io61_writec`, `io61_write` and `io61_flush`.
-- The system calls are a parameter. Characters and bytes are numbers; `cbuf` is a function.
pub mod Bytes
pub mod Flushing
pub mod Delivery
pub mod Ending
pub mod Writing
pub mod Sending
pub mod Characters
pub mod Finishing
use cs61_f23_psets_tomkhe.Prelude.{
  ℕ, zero, suc, ◌+◌, ◌-◌, ◌%◌, min, Option, none, some, Bool, true, false, not, ◌&&◌, ◌||◌, List,
  [], ◌∷◌, ltb, leb, ◌==◌, if◌then◌else◌,
}

abbrev pub cbufsz : ℕ
cbufsz = 8192

pub data Mode : Type 0 where
  read_only write_only read_write : Mode

pub record Cached : Type 0 where
  pub mode : Mode
  pub seekable : Bool
  pub cbuf : ℕ → ℕ
  pub tag : ℕ
  pub pos_tag : ℕ
  pub end_tag : ℕ
  pub map_failed : Bool
  pub dirty : Bool
  pub positioned : Bool

-- What `write` and `pwrite` return: a number of bytes, -1 with `EINTR` or `EINVAL`, or -1 with
-- another error.
pub data WriteResult : Type 0 where
  wrote : ℕ → WriteResult
  interrupted write_error : WriteResult

-- The system calls on the file, over the state of the system. `lseek` says whether it succeeds.
pub record Kernel : Type 1 where
  pub Os : Type 0
  pub write : Os → List ℕ → WriteResult × Os
  pub pwrite : Os → List ℕ → ℕ → WriteResult × Os
  pub lseek : Os → ℕ → Bool × Os

-- A call returns, fails an assertion, or has used up its fuel.
pub data Result {ℓ} (Os A : Type ℓ) : Type ℓ where
  returns : A → Cached → Os → Result Os A
  asserts unfinished : Result Os A

-- The `n` bytes from `a` on.
unfoldable pub slice : (ℕ → ℕ) → ℕ → ℕ → List ℕ
slice b a zero = []
slice b a (suc n) = b a ∷ slice b (a + 1) n

-- `memcpy(&to[x], &from[y], n)`
abbrev pub copy_in : ℕ → (ℕ → ℕ) → ℕ → ℕ → (ℕ → ℕ) → ℕ → ℕ
copy_in x from y n to i = if leb x i && ltb i (x + n) then from (y + (i - x)) else to i

abbrev pub is_write_only : Mode → Bool
is_write_only write_only = true
is_write_only _ = false

abbrev pub io61_check_assertions : Cached → Bool
io61_check_assertions f =
    leb f.tag f.pos_tag
    && leb f.pos_tag f.end_tag
    && (not f.map_failed || leb (f.end_tag - f.pos_tag) cbufsz)
    && (not (is_write_only f.mode) || f.pos_tag == f.end_tag)

abbrev pub emptied : Cached → Cached
emptied f = record f { dirty = false; tag = f.end_tag; pos_tag = f.end_tag }

module _ (k : Kernel) where
  -- the loop, from `flush_tag` on
  unfoldable pub io61_flush_dirty : ℕ → ℕ → Cached → k.Os → Result k.Os Bool
  io61_flush_dirty zero flush_tag f os = unfinished
  io61_flush_dirty (suc fuel) flush_tag f os = elim (flush_tag == f.end_tag) [
    | true ↦ returns true (emptied f) os
    | false ↦
        let (answer, after) =
          k.write os (slice f.cbuf (flush_tag - f.tag) (f.end_tag - flush_tag)) in
        elim answer [
          | wrote n ↦ io61_flush_dirty fuel (flush_tag + n) f after
          | interrupted ↦ io61_flush_dirty fuel flush_tag f after
          | write_error ↦ returns false f after
        ]
  ]

  unfoldable pub io61_flush_dirty_positioned : ℕ → ℕ → Cached → k.Os → Result k.Os Bool
  io61_flush_dirty_positioned zero flush_tag f os = unfinished
  io61_flush_dirty_positioned (suc fuel) flush_tag f os = elim (flush_tag == f.end_tag) [
    | true ↦ returns true (record f { dirty = false }) os
    | false ↦
        let (answer, after) =
          k.pwrite os (slice f.cbuf (flush_tag - f.tag) (f.end_tag - flush_tag)) flush_tag in
        elim answer [
          | wrote n ↦ io61_flush_dirty_positioned fuel (flush_tag + n) f after
          | interrupted ↦ io61_flush_dirty_positioned fuel flush_tag f after
          | write_error ↦ returns false f after
        ]
  ]

  unfoldable pub io61_flush_clean : Cached → k.Os → Result k.Os Bool
  io61_flush_clean f os =
      if not f.positioned && f.seekable
      then (let (ok, after) = k.lseek os f.pos_tag in
          elim ok [
            | true ↦ returns true (record f { tag = f.pos_tag; end_tag = f.pos_tag }) after
            | false ↦ returns false f after
          ])
      else returns true f os

  unfoldable pub io61_flush : ℕ → Cached → k.Os → Result k.Os Bool
  io61_flush fuel f os =
      if f.dirty && f.positioned
      then io61_flush_dirty_positioned fuel f.tag f os
      else if f.dirty
      then io61_flush_dirty fuel f.tag f os
      else io61_flush_clean f os

  abbrev pub is_full : Cached → Bool
  is_full f = f.end_tag == f.tag + cbufsz

  -- `n` bytes of `buf` from `from` on, into the cache
  abbrev pub put : (ℕ → ℕ) → ℕ → ℕ → Cached → Cached
  put buf from n f = record f {
    cbuf = copy_in (f.pos_tag - f.tag) buf from n f.cbuf;
    pos_tag = f.pos_tag + n;
    end_tag = f.end_tag + n;
    dirty = true;
  }

  -- the rest of `io61_writec`, behind the flush
  unfoldable pub put_byte : ℕ → Result k.Os Bool → Result k.Os Bool
  put_byte c (returns true f os) =
      let g = put (λ i. c) 0 1 f in if io61_check_assertions g then returns true g os else asserts
  put_byte c (returns false f os) = returns false f os
  put_byte c asserts = asserts
  put_byte c unfinished = unfinished

  -- the flush at the start of `io61_writec` and of each round of `io61_write`
  unfoldable pub make_room : ℕ → Cached → k.Os → Result k.Os Bool
  make_room fuel f os = if is_full f then io61_flush fuel f os else returns true f os

  unfoldable pub io61_writec : ℕ → ℕ → Cached → k.Os → Result k.Os Bool
  io61_writec fuel c f os =
      if io61_check_assertions f && not f.positioned
      then put_byte (c % 256) (make_room fuel f os)
      else asserts

  -- The loop of `io61_write`, at `nwritten` of `sz` bytes; `rounds` bounds it.
  unfoldable pub write_loop : ℕ → ℕ → (ℕ → ℕ) → ℕ → ℕ → Cached → k.Os → Result k.Os ℕ
  write_loop fuel zero buf sz nwritten f os = unfinished
  write_loop fuel (suc rounds) buf sz nwritten f os = elim (ltb nwritten sz) [
    | false ↦ returns nwritten f os
    | true ↦ elim (make_room fuel f os) [
      | asserts ↦ asserts
      | unfinished ↦ unfinished
      | returns ok g after ↦ elim ok [
        | false ↦ returns nwritten g after
        | true ↦
            let n = min (cbufsz + g.tag - g.pos_tag) (sz - nwritten) in
            elim (n == 0) [
              | true ↦ returns nwritten g after
              | false ↦ write_loop fuel rounds buf sz (nwritten + n) (put buf nwritten n g) after
            ]
      ]
    ]
  ]

  -- `none` is -1
  unfoldable pub written : ℕ → Result k.Os ℕ → Result k.Os (Option ℕ)
  written sz (returns n f os) = returns (if not (n == 0) || sz == 0 then some n else none) f os
  written sz asserts = asserts
  written sz unfinished = unfinished

  unfoldable pub io61_write : ℕ → (ℕ → ℕ) → ℕ → Cached → k.Os → Result k.Os (Option ℕ)
  io61_write fuel buf sz f os =
      if io61_check_assertions f && not f.positioned
      then written sz (write_loop fuel (sz + 1) buf sz 0 f os)
      else asserts

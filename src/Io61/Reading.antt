-- ===== src/Io61/Reading.antt =====
-- The cache of pset4/io61.cc on the reading side, for files that cannot be mapped: `io61_fill` and
-- `io61_read_cache`. The system call is a parameter; the destination is the list of the bytes copied.
pub mod Filling
pub mod Stream
pub mod Finishing
pub mod OneByte
use cs61_f23_psets_tomkhe.Prelude.{
  ℕ, zero, suc, ◌+◌, ◌-◌, min, Option, none, some, Bool, true, false, not, ◌&&◌, ◌||◌, List, [],
  ◌++◌, ltb, ◌==◌, if◌then◌else◌, length, get_or,
}
use cs61_f23_psets_tomkhe.Io61.Cache.{
  cbufsz, Cached, Result, returns, asserts, unfinished, slice, copy_in, io61_check_assertions,
}

-- What `read` returns: some bytes, -1 with `EINTR` or `EAGAIN`, or -1 with another error.
pub data ReadResult : Type 0 where
  got : List ℕ → ReadResult
  try_again read_error : ReadResult

pub record Source : Type 1 where
  pub Os : Type 0
  pub read : Os → ℕ → ReadResult × Os
  pub errno : Os → ℕ

-- the cache emptied, at the logical position of its end
abbrev pub next_slot : Cached → Cached
next_slot f = record f { tag = f.end_tag; pos_tag = f.end_tag }

abbrev pub filled : List ℕ → Cached → Cached
filled bytes f = record f {
  cbuf = copy_in 0 (λ i. get_or bytes i 0) 0 (length bytes) f.cbuf;
  end_tag = f.end_tag + length bytes;
}

-- the bytes of the cache that are not read yet
abbrev pub unread : Cached → List ℕ
unread f = slice f.cbuf (f.pos_tag - f.tag) (f.end_tag - f.pos_tag)

module _ (k : Source) where
  -- the loop of `io61_fill`
  unfoldable pub fill_loop : ℕ → Cached → k.Os → Result k.Os Bool
  fill_loop zero f os = unfinished
  fill_loop (suc fuel) f os =
      let (answer, after) = k.read os cbufsz in
      elim answer [
        | got bytes ↦ returns true (filled bytes f) after
        | try_again ↦ fill_loop fuel f after
        | read_error ↦ returns false f after
      ]

  unfoldable pub io61_fill : ℕ → Cached → k.Os → Result k.Os Bool
  io61_fill fuel f os = fill_loop fuel (next_slot f) os

  -- the refill at the start of a round
  unfoldable pub refill : ℕ → Cached → k.Os → Result k.Os Bool
  refill fuel f os = if f.pos_tag == f.end_tag then io61_fill fuel f os else returns true f os

  abbrev pub taken : Cached → ℕ → ℕ → ℕ
  taken g sz nread = min (g.end_tag - g.pos_tag) (sz - nread)

  -- The loop, with the bytes copied so far; `rounds` bounds it.
  unfoldable pub read_loop : ℕ → ℕ → ℕ → ℕ → List ℕ → Cached → k.Os → Result k.Os (List ℕ)
  read_loop fuel zero sz nread buf f os = unfinished
  read_loop fuel (suc rounds) sz nread buf f os = elim (ltb nread sz) [
    | false ↦ returns buf f os
    | true ↦ elim (refill fuel f os) [
      | asserts ↦ asserts
      | unfinished ↦ unfinished
      | returns ok g after ↦ elim (ok && not (g.pos_tag == g.end_tag)) [
        | false ↦ returns buf g after
        | true ↦
            let n = taken g sz nread in
            read_loop fuel rounds sz (nread + n) (buf ++ slice g.cbuf (g.pos_tag - g.tag) n)
              (record g { pos_tag = g.pos_tag + n }) after
      ]
    ]
  ]

  -- `none` is -1, which any old value of `errno` can give.
  unfoldable pub read_result : ℕ → Result k.Os (List ℕ) → Result k.Os (Option (List ℕ))
  read_result sz (returns buf f os) =
      returns (if not (length buf == 0) || sz == 0 || k.errno os == 0 then some buf else none) f os
  read_result sz asserts = asserts
  read_result sz unfinished = unfinished

  unfoldable pub io61_read_cache : ℕ → ℕ → Cached → k.Os → Result k.Os (Option (List ℕ))
  io61_read_cache fuel sz f os =
      if io61_check_assertions f
      then read_result sz (read_loop fuel (sz + 1) sz 0 [] f os)
      else asserts

  -- `io61_readc` behind the refill; `none` is -1.
  unfoldable pub take_char : Result k.Os Bool → Result k.Os (Option ℕ)
  take_char (returns ok g after) =
      if ok && not (g.pos_tag == g.end_tag)
      then (let h = record g { pos_tag = g.pos_tag + 1 } in
          if io61_check_assertions h
          then returns (some (g.cbuf (g.pos_tag - g.tag))) h after
          else asserts)
      else returns none g after
  take_char asserts = asserts
  take_char unfinished = unfinished

  unfoldable pub io61_readc : ℕ → Cached → k.Os → Result k.Os (Option ℕ)
  io61_readc fuel f os = if io61_check_assertions f then take_char (refill fuel f os) else asserts

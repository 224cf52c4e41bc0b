-- ===== src/Io61/Reading/OneByte.antt =====
-- `io61_readc` of pset4/io61.cc, on a file that cannot be mapped, against `io61_read_cache`.
use cs61_f23_psets_tomkhe.Prelude.{
  ℕ, zero, suc, ◌+◌, ◌-◌, ◌<◌, ◌≡◌, refl, sym, ap, ◌∙◌, Bool, true, false, not, ◌&&◌, inl, inr,
  Option, none, some, List, [], ◌∷◌, arith, ◌==◌, ==_iff, if◌then◌else◌, Bool-cases, choose_true,
  choose_false,
}
use cs61_f23_psets_tomkhe.Io61.Cache.{
  cbufsz, Cached, is_write_only, Result, returns, asserts, unfinished, slice, io61_check_assertions,
}
use cs61_f23_psets_tomkhe.Io61.Reading.{
  ReadResult, got, try_again, read_error, Source, filled, next_slot, fill_loop, io61_fill, refill,
  taken, read_loop, read_result, io61_read_cache, take_char, io61_readc,
}
use cs61_f23_psets_tomkhe.Io61.Reading.Filling.{IsStream, IsReader, refill-Fills}
use cs61_f23_psets_tomkhe.Io61.Cache.Writing.{elim_true, elim_false}
use cs61_f23_psets_tomkhe.Io61.Reading.Stream.{read_round, after_refill}

abbrev first : Option (List ℕ) → Option ℕ
first (some (c ∷ cs)) = some c
first _ = none

-- the character that a read of one byte has given, if any
unfoldable pub as_char : {Os : Type 0} → Result Os (Option (List ℕ)) → Result Os (Option ℕ)
as_char (returns read f os) = returns (first read) f os
as_char asserts = asserts
as_char unfinished = unfinished

first_nothing : (b : Bool) → first (if b then some [] else none) ≡ none
first_nothing true = refl
first_nothing false = refl

if_as_char :
    {Os : Type 0} (b : Bool) (x : Result Os (Option ℕ)) (y : Result Os (Option (List ℕ)))
    → x ≡ as_char y
    → (if b then x else asserts) ≡ as_char (if b then y else asserts)
unfolding as_char
if_as_char true x y e = e
if_as_char false x y e = refl

module _ (k : Source) where
  -- a result whose file is still not write-only
  Readable : Result k.Os Bool → Type 0
  Readable (returns ok g after) = is_write_only g.mode ≡ false
  Readable asserts = Unit {0}
  Readable unfinished = Unit {0}

  fill_loop-Readable :
      (fuel : ℕ) (f : Cached) (os : k.Os)
      → is_write_only f.mode ≡ false
      → Readable (fill_loop k fuel f os)
  unfolding fill_loop Readable
  fill_loop-Readable zero f os h = tt
  fill_loop-Readable (suc fuel) f os h =
      answered (λ o. fill_loop-Readable fuel f o h) (k.read os cbufsz)
    where
      answered :
          ((o : k.Os) → Readable (fill_loop k fuel f o))
          → (r : ReadResult × k.Os)
          → Readable (elim r.0 [
            | got bytes ↦ returns true (filled bytes f) r.1
            | try_again ↦ fill_loop k fuel f r.1
            | read_error ↦ returns false f r.1
          ])
      answered rest (got bytes, after) = h
      answered rest (try_again, after) = rest after
      answered rest (read_error, after) = h

  refill-Readable :
      (fuel : ℕ) (f : Cached) (os : k.Os)
      → is_write_only f.mode ≡ false
      → Readable (refill k fuel f os)
  unfolding refill io61_fill Readable
  refill-Readable fuel f os h = by_case (f.pos_tag == f.end_tag)
    where
      by_case :
          (b : Bool) → Readable (if b then fill_loop k fuel (next_slot f) os else returns true f os)
      by_case true = fill_loop-Readable fuel (next_slot f) os h
      by_case false = h

  some_byte :
      (g : Cached) (ok : Bool)
      → IsReader g
      → (ok && not (g.pos_tag == g.end_tag)) ≡ true
      → g.pos_tag < g.end_tag
  some_byte g true w h = ground (arith, ==_iff g.pos_tag g.end_tag, w.pos_le)
  some_byte g false w h = cc

  asserts_next :
      (g : Cached)
      → IsReader g
      → g.pos_tag < g.end_tag
      → is_write_only g.mode ≡ false
      → io61_check_assertions (record g { pos_tag = g.pos_tag + 1 }) ≡ true
  asserts_next g w h m = ground (arith, w.tag_le, w.pos_le, w.fits)

  copied_one :
      (fuel : ℕ) (g : Cached) (after : k.Os)
      → g.pos_tag < g.end_tag
      → as_char (
          read_result k 1 (
            read_loop k fuel 1 1
              (0 + taken k g 1 0)
              (slice g.cbuf (g.pos_tag - g.tag) (taken k g 1 0))
              (record g { pos_tag = g.pos_tag + taken k g 1 0 })
              after))
        ≡ returns (some (g.cbuf (g.pos_tag - g.tag))) (record g { pos_tag = g.pos_tag + 1 }) after
  unfolding as_char read_result read_loop slice
  copied_one fuel g after h = let one : taken k g 1 0 ≡ 1 = ground arith in rw one refl

  taken_one :
      (s : IsStream k) (fuel : ℕ) (f : Cached) (os : k.Os)
      → IsReader f
      → (r : Result k.Os Bool) → refill k fuel f os ≡ r
      → Readable r
      → take_char k r ≡ as_char (read_result k 1 (after_refill k fuel 1 1 0 [] r))
  unfolding take_char as_char read_result Readable
  taken_one s fuel f os w asserts e m = refl
  taken_one s fuel f os w unfinished e m = refl
  taken_one s fuel f os w (returns ok g after) e m =
      elim (Bool-cases (ok && not (g.pos_tag == g.end_tag))) [
        | inl left ↦
            let reader = (refill-Fills k s fuel f g os after ok w e).0 in
            let below = some_byte g ok reader left in
            choose_true (ok && not (g.pos_tag == g.end_tag)) _ _ left
            ∙ choose_true (io61_check_assertions (record g { pos_tag = g.pos_tag + 1 })) _ _
                (asserts_next g reader below m)
            ∙ sym (
                ap (λ x. as_char (read_result k 1 x))
                  (elim_true (ok && not (g.pos_tag == g.end_tag)) _ _ left)
                ∙ copied_one fuel g after below)
        | inr done ↦
            choose_false (ok && not (g.pos_tag == g.end_tag)) _ _ done
            ∙ sym (
                ap (λ x. as_char (read_result k 1 x))
                  (elim_false (ok && not (g.pos_tag == g.end_tag)) _ _ done)
                ∙ ap (λ o. returns o g after) (first_nothing (k.errno after == 0)))
      ]

-- On a readable file that cannot be mapped, whose `read` is that of a stream, `io61_readc` is
-- `io61_read_cache` of one byte: it gives the byte, or -1 if there is none, and it leaves the same
-- cache and the same system, or fails the same assertion.
pub io61_readc-io61_read_cache :
    (k : Source) (s : IsStream k) (fuel : ℕ) (f : Cached) (os : k.Os)
    → IsReader f
    → is_write_only f.mode ≡ false
    → io61_readc k fuel f os ≡ as_char (io61_read_cache k fuel 1 f os)
unfolding io61_readc io61_read_cache
io61_readc-io61_read_cache k s fuel f os w m =
    if_as_char (io61_check_assertions f) (take_char k (refill k fuel f os))
      (read_result k 1 (read_loop k fuel (1 + 1) 1 0 [] f os))
      (rw (read_round k fuel 1 1 0 [] f os refl)
        (taken_one k s fuel f os w (refill k fuel f os) refl (refill-Readable k fuel f os m)))

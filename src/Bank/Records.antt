-- ===== src/Bank/Records.antt =====
-- `ftx_acct::parse` and `ftx_acct::unparse` of pset6/ftxhelpers.cc, on a record as the list of its
-- bytes. `std::to_chars` and `std::from_chars` in base 10 are the text of a `long` and its reading.
pub mod RoundTrip
use mathlib.Core.Option
use cs61_f23_psets_tomkhe.Prelude.{
  ℕ, zero, suc, ◌+◌, ◌-◌, ◌^◌, Bool, true, false, not, Option, none, some, List, [], ◌∷◌, ◌++◌, ltb,
  leb, ◌==◌, if◌then◌else◌, length, take, drop, min, ℤ, pos, negsuc, sub_ℕ, ◌⊎◌, inl, inr,
}
use cs61_f23_psets_tomkhe.WeensyOs.Numbers.{starts_with}
use cs61_f23_psets_tomkhe.WeensyOs.Numbers.Scanning.{exact}
use cs61_f23_psets_tomkhe.WeensyOs.Printing.Directives.{long_text}

-- the layout of `ftx_db`
abbrev pub asize : ℕ
asize = 16

abbrev pub balance_offset : ℕ
balance_offset = 8

abbrev pub balance_size : ℕ
balance_size = 7

-- `errno` of a failed call
pub data Errno : Type 0 where
  einval erange : Errno

-- how `parse` ends: with the name and the balance that were requested, or with -1
pub data Record : Type 0 where
  parsed : List ℕ → ℤ → Record
  failed : Errno → Record

-- the loop that stores the name, with room for `room` bytes
unfoldable pub name_of : ℕ → List ℕ → List ℕ
name_of zero buf = []
name_of (suc room) [] = []
name_of (suc room) (c ∷ buf) = if c == b' ' then [] else c ∷ name_of room buf

unfoldable pub skip_blanks : List ℕ → List ℕ
skip_blanks [] = []
skip_blanks (c ∷ buf) = if c == b' ' then skip_blanks buf else c ∷ buf

-- what `std::from_chars` finds: the number, or its error
unfoldable pub long_from_chars : List ℕ → Errno ⊎ ℤ
long_from_chars s =
    let negative = starts_with b'-' s in
    let t = if negative then drop 1 s else s in
    let (rest, v) = exact 10 t 0 in
    if length rest == length t
    then inl einval
    else if ltb (if negative then 2 ^ 63 else 2 ^ 63 - 1) v
    then inl erange
    else inr (if negative then sub_ℕ 0 v else pos v)

-- `parse` of the `len` bytes of `buf`, with a buffer of `namesz` bytes for the name, not 0
unfoldable pub parse : List ℕ → ℕ → Record
parse buf namesz =
    let after_blanks = skip_blanks (drop balance_offset buf) in
    let number = if starts_with b'+' after_blanks then drop 1 after_blanks else after_blanks in
    if not (length buf == asize) then failed einval else elim (long_from_chars number) [
      | inl e ↦ failed e
      | inr balance ↦ parsed (name_of (min (namesz - 1) asize) buf) balance
    ]

abbrev pub blanks : ℕ → List ℕ
blanks zero = []
blanks (suc n) = b' ' ∷ blanks n

-- The bytes that `unparse` points to; `none` is the error, when the balance has no room.
unfoldable pub unparse : ℤ → Option (List ℕ)
unparse balance =
    let digits = long_text balance in
    if ltb balance_size (length digits)
    then none
    else some (drop (length digits) (blanks balance_size ++ (digits ++ (10 ∷ []))))

-- the record after `write` has stored the bytes at the balance
abbrev pub put_balance : List ℕ → List ℕ → List ℕ
put_balance buf bytes = take balance_offset buf ++ bytes

-- ===== src/WeensyOs/Numbers/Scanning.antt =====
-- `from_chars` against a reading of the digits with no bound.
use native.Mathlib.Nat.{le-div_iff_mul-le}
use cs61_f23_psets_tomkhe.Prelude.{
  ℕ, zero, suc, ◌+◌, ◌-◌, ◌*◌, ◌/◌, ◌<◌, ◌≤◌, ◌≡◌, ◌⊎◌, inl, inr, true, false, none, some, List, [],
  ◌∷◌, arith, ltb, leb, ◌==◌, if◌then◌else◌, length, word, Bool-cases, Option-cases,
}
use cs61_f23_psets_tomkhe.WeensyOs.Numbers.{
  e_inval, e_range, ok, FromCharsResult, digit, scan, scanned, from_chars,
}

-- the digits at the start of the text, behind the number `x`: the rest, and the number
abbrev pub exact : ℕ → List ℕ → ℕ → List ℕ × ℕ
exact base [] x = ([], x)
exact base (c ∷ s) x = elim (digit base c) [
  | none ↦ (c ∷ s, x)
  | some d ↦ exact base s (x * base + d)
]

pub digit-lt : (base c d : ℕ) → base ≤ 36 → digit base c ≡ some d → d < 36
unfolding digit
digit-lt base c d hb h = ground arith

-- the overflow test is exact
test_exact :
    (base x d : ℕ) → 0 < base → d < 36 → ltb ((word - 1 - d) / base) x ≡ leb word (x * base + d)
test_exact base x d hb hd =
    ground (arith, le-div_iff_mul-le {k = base} {x = x} {y = word - 1 - d} hb)

le_grown : (base x d : ℕ) → 0 < base → x ≤ x * base + d
le_grown zero x d h = elim h [ ]
le_grown (suc base) x d h = grind arith

pub le-exact : (base : ℕ) (s : List ℕ) (x : ℕ) → 0 < base → x ≤ (exact base s x).1
le-exact base [] x h = omega arith
le-exact base (c ∷ s) x h = elim (Option-cases (digit base c)) [
  | inl e ↦ ground arith
  | inr p ↦ let (d, e) = p in ground (arith, le_grown base x d h, le-exact base s (x * base + d) h)
]

-- once a digit has overflowed, the loop only looks for the end of the digits
scan_overflowed :
    (base : ℕ) (s : List ℕ) (x y : ℕ)
    → ((scan base s x true).0 ≡ (exact base s y).0) × ((scan base s x true).2 ≡ true)
unfolding scan
scan_overflowed base [] x y = ground arith
scan_overflowed base (c ∷ s) x y = elim (Option-cases (digit base c)) [
  | inl e ↦ ground arith
  | inr p ↦
      let (d, e) = p in
      ground (
        arith,
        scan_overflowed base s x (y * base + d),
        scan_overflowed base s (x * base + d) (y * base + d),
      )
]

-- what the loop ends with, from the number `x` on
Scans : ℕ → List ℕ → ℕ → Type 0
Scans base s x =
    let (rest, v) = exact base s x in
    ((v < word) × (scan base s x false ≡ (rest, v, false)))
    ⊎ ((word ≤ v) × ((scan base s x false).0 ≡ rest) × ((scan base s x false).2 ≡ true))

scan-Scans : (base : ℕ) (s : List ℕ) (x : ℕ) → 0 < base → base ≤ 36 → x < word → Scans base s x
unfolding scan Scans
scan-Scans base [] x hb hb' hx = ground arith
scan-Scans base (c ∷ s) x hb hb' hx = elim (Option-cases (digit base c)) [
  | inl e ↦ ground arith
  | inr p ↦
      let (d, e) = p in
      elim (Bool-cases (leb word (x * base + d))) [
        | inl over ↦ ground (
          arith,
          test_exact base x d hb (digit-lt base c d hb' e),
          scan_overflowed base s x (x * base + d),
          le-exact base s (x * base + d) hb,
        )
        | inr fits ↦ ground (
          arith,
          test_exact base x d hb (digit-lt base c d hb' e),
          scan-Scans base s (x * base + d) hb hb' (ground arith),
        )
      ]
]

-- what a reading with no bound says that `from_chars` returns
abbrev pub decided : List ℕ → List ℕ × ℕ → FromCharsResult ℕ
decided first (rest, v) =
    if length rest == length first
    then record { ptr = rest; ec = e_inval; value = none }
    else if leb word v
    then record { ptr = rest; ec = e_range; value = none }
    else record { ptr = rest; ec = ok; value = some v }

-- In a base from 1 to 36, `from_chars` reads the longest row of bytes at the start of the text that
-- it takes for digits. It fails with `E_INVAL` if there is none, and with `E_RANGE` if the number
-- that they spell is 2^64 or more, without setting `value`; otherwise `value` is that number. In
-- every case it points behind the digits.
pub from_chars-decided :
    (base : ℕ) (s : List ℕ) → 0 < base → base ≤ 36 → from_chars s base ≡ decided s (exact base s 0)
unfolding from_chars scanned Scans
from_chars-decided base s hb hb' = ground (arith, scan-Scans base s 0 hb hb' (omega arith))

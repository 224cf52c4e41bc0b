-- ===== src/WeensyOs/Numbers/Clamping.antt =====
-- `strtol` and `strtoul` at numbers of any size.
use cs61_f23_psets_tomkhe.Prelude.{
  ℕ, ◌+◌, ◌-◌, ◌*◌, ◌^◌, ◌<◌, ◌≤◌, ◌≡◌, ◌≢◌, refl, ◌⊎◌, inl, inr, Bool, true, false, none, some,
  List, [], ◌∷◌, arith, leb, ◌==◌, if◌then◌else◌, length, word, Option-cases, ℤ, pos, sub_ℕ, min,
}
use cs61_f23_psets_tomkhe.WeensyOs.Numbers.{
  e_inval, e_range, ok, digit, number_head, strtol, strtoul, strtol_value, strtoul_value,
  strtol_fix_base, neg_word, read_x, end_of, is_range,
}
use cs61_f23_psets_tomkhe.WeensyOs.Numbers.Scanning.{exact, decided, from_chars-decided}

strtol_fix_base_bounds :
    (t : List ℕ) (base : ℕ)
    → base ≤ 36
    → (0 < (strtol_fix_base t base).1) × ((strtol_fix_base t base).1 ≤ 36)
unfolding strtol_fix_base
strtol_fix_base_bounds t base h = ground arith

number_head_bounds :
    (s : List ℕ) (base : ℕ)
    → base ≤ 36
    → (0 < (number_head s base).2) × ((number_head s base).2 ≤ 36)
unfolding number_head
number_head_bounds s base h = strtol_fix_base_bounds _ base h

-- the number with its sign, brought to the nearest `long`
abbrev pub clamped : Bool → ℕ → ℤ
clamped negative v = if negative then sub_ℕ 0 (min v (2 ^ 63)) else pos (min v (2 ^ 63 - 1))

-- what `strtoul` makes of it: past `unsigned long` the largest one, and then the sign
abbrev pub wrapped : Bool → ℕ → ℕ
wrapped negative v =
    let x = if leb word v then word - 1 else v in if negative then neg_word x else x

abbrev pub end_behind : List ℕ → List ℕ → List ℕ → List ℕ
end_behind s t rest = if length rest == length t then s else rest

no_digits : (base : ℕ) (t : List ℕ) (x : ℕ) → length (exact base t x).0 ≤ length t
no_digits base [] x = omega arith
no_digits base (c ∷ t) x = elim (Option-cases (digit base c)) [
  | inl e ↦ ground arith
  | inr p ↦ let (d, e) = p in ground (arith, no_digits base t (x * base + d))
]

pub unread :
    (base : ℕ) (t : List ℕ) (x : ℕ) → length (exact base t x).0 ≡ length t → (exact base t x).1 ≡ x
unread base [] x h = refl
unread base (c ∷ t) x h = elim (Option-cases (digit base c)) [
  | inl e ↦ ground arith
  | inr p ↦ let (d, e) = p in ground (arith, no_digits base t (x * base + d))
]

strtol_value-clamped :
    (negative : Bool) (v : ℕ) → v < word → strtol_value negative false v ≡ clamped negative v
unfolding strtol_value
strtol_value-clamped true v h = ground arith
strtol_value-clamped false v h = ground arith

strtol_value-over :
    (negative : Bool) (v : ℕ) → word ≤ v → strtol_value negative true 0 ≡ clamped negative v
unfolding strtol_value
strtol_value-over true v h = ground arith
strtol_value-over false v h = ground arith

-- what a reading of the digits leaves: none, too many, or a number
Readings : List ℕ → List ℕ → ℕ → Type 0
Readings t rest v =
    let r = decided t (rest, v) in
    ((length rest ≡ length t) × (v ≡ 0) × (r ≡ record { ptr = rest; ec = e_inval; value = none }))
    ⊎ ((length rest ≢ length t)
        × (word ≤ v)
        × (r ≡ record { ptr = rest; ec = e_range; value = none }))
    ⊎ ((length rest ≢ length t) × (v < word) × (r ≡ record { ptr = rest; ec = ok; value = some v }))

decided-Readings : (t rest : List ℕ) (v : ℕ) → (length rest ≡ length t → v ≡ 0) → Readings t rest v
unfolding Readings
decided-Readings t rest v h = ground arith

value_of_Readings :
    (s t rest : List ℕ) (v : ℕ) (negative : Bool)
    → Readings t rest v
    → let r = decided t (rest, v) in
      (strtol_value negative (is_range r.ec) (read_x r) ≡ clamped negative v)
      × (strtoul_value negative (is_range r.ec) (read_x r) ≡ wrapped negative v)
      × (end_of s r ≡ end_behind s t rest)
unfolding Readings strtoul_value
value_of_Readings s t rest v negative (inl (e, z, d)) =
    ground (arith, strtol_value-clamped negative v)
value_of_Readings s t rest v negative (inr (inl (ne, over, d))) =
    ground (arith, strtol_value-over negative v over)
value_of_Readings s t rest v negative (inr (inr (ne, fits, d))) =
    ground (arith, strtol_value-clamped negative v fits)

pub strtol-clamped :
    (s : List ℕ) (base : ℕ)
    → base ≤ 36
    → let (negative, t, b) = number_head s base in
      let (rest, v) = exact b t 0 in strtol s base ≡ (clamped negative v, end_behind s t rest)
unfolding strtol
strtol-clamped s base h =
    let (negative, t, b) = number_head s base in
    let (hb, hb') = number_head_bounds s base h in
    let (rest, v) = exact b t 0 in
    let (value, _, end) =
      value_of_Readings s t rest v negative (decided-Readings t rest v (unread b t 0)) in
    rw (from_chars-decided b t hb hb') (λ i. (value i, end i))

-- The same for `strtoul`: a number of 2^64 or more becomes the largest `unsigned long`, and a minus
-- sign then takes the result from 2^64, so that a negative number out of range gives 1.
pub strtoul-wrapped :
    (s : List ℕ) (base : ℕ)
    → base ≤ 36
    → let (negative, t, b) = number_head s base in
      let (rest, v) = exact b t 0 in strtoul s base ≡ (wrapped negative v, end_behind s t rest)
unfolding strtoul
strtoul-wrapped s base h =
    let (negative, t, b) = number_head s base in
    let (hb, hb') = number_head_bounds s base h in
    let (rest, v) = exact b t 0 in
    let (_, value, end) =
      value_of_Readings s t rest v negative (decided-Readings t rest v (unread b t 0)) in
    rw (from_chars-decided b t hb hb') (λ i. (value i, end i))

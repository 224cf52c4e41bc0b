-- ===== src/Io61/Cache/Bytes.antt =====
-- Runs of bytes in the buffers of pset4/io61.cc.
use cs61_f23_psets_tomkhe.Prelude.{
  ℕ, zero, suc, ◌+◌, ◌-◌, ◌≤◌, ◌<◌, ◌≡◌, refl, ap, ◌∙◌, ◌∷◌, ◌++◌, arith, length, take,
}
use cs61_f23_psets_tomkhe.Io61.Cache.{slice, copy_in}

pub length-slice : (b : ℕ → ℕ) (a n : ℕ) → length (slice b a n) ≡ n
unfolding slice
length-slice b a zero = refl
length-slice b a (suc n) = omega (arith, length-slice b (a + 1) n)

pub slice-append : (b : ℕ → ℕ) (a m n : ℕ) → slice b a (m + n) ≡ slice b a m ++ slice b (a + m) n
unfolding slice
slice-append b a zero n =
    let left : 0 + n ≡ n = omega arith in
    let right : a + 0 ≡ a = omega arith in rw (left, right) refl
slice-append b a (suc m) n =
    let left : suc m + n ≡ suc (m + n) = omega arith in
    let right : a + suc m ≡ a + 1 + m = omega arith in
    rw (left, right) (ap (◌∷◌ (b a)) (slice-append b (a + 1) m n))

pub slice-ext :
    (b d : ℕ → ℕ) (x y n : ℕ)
    → ((i : ℕ) → i < n → b (x + i) ≡ d (y + i))
    → slice b x n ≡ slice d y n
unfolding slice
slice-ext b d x y zero h = refl
slice-ext b d x y (suc n) h =
    let here : b x ≡ d y = at_start (h 0 (omega arith)) in
    rw here (ap (◌∷◌ (d y)) (slice-ext b d (x + 1) (y + 1) n rest))
  where
    at_start : b (x + 0) ≡ d (y + 0) → b x ≡ d y
    at_start e =
        let l : x + 0 ≡ x = omega arith in let r : y + 0 ≡ y = omega arith in rw (l, r) at e

    rest : (i : ℕ) → i < n → b (x + 1 + i) ≡ d (y + 1 + i)
    rest i lt =
        let l : x + 1 + i ≡ x + suc i = omega arith in
        let r : y + 1 + i ≡ y + suc i = omega arith in rw (l, r) (h (suc i) (omega arith))

-- Bytes copied behind the first `x` follow them.
pub slice-copy_in :
    (x : ℕ) (from : ℕ → ℕ) (y n : ℕ) (to : ℕ → ℕ)
    → slice (copy_in x from y n to) 0 (x + n) ≡ slice to 0 x ++ slice from y n
slice-copy_in x from y n to =
    slice-append (copy_in x from y n to) 0 x n
    ∙ ap (λ l. l ++ slice (copy_in x from y n to) (0 + x) n)
        (slice-ext (copy_in x from y n to) to 0 0 x (λ i lt. ground arith))
    ∙ ap (λ l. slice to 0 x ++ l) (slice-ext (copy_in x from y n to) from (0 + x) y n copied)
  where
    copied : (i : ℕ) → i < n → copy_in x from y n to (0 + x + i) ≡ from (y + i)
    copied i lt =
        let e : 0 + x + i - x ≡ i = omega arith in ground (arith, ap (λ u. from (y + u)) e)

pub take-slice : (b : ℕ → ℕ) (a m n : ℕ) → n ≤ m → take n (slice b a m) ≡ slice b a n
unfolding slice
take-slice b a m zero le = refl
take-slice b a zero (suc n) le = absurd (omega arith)
take-slice b a (suc m) (suc n) le = ap (◌∷◌ (b a)) (take-slice b (a + 1) m n (omega arith))

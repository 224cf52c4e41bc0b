-- ===== src/WeensyOs/Strings/Searching.antt =====
-- `strstr` against a search that looks at each suffix in turn.
use cs61_f23_psets_tomkhe.Prelude.{
  ℕ, zero, suc, ◌+◌, ◌-◌, ◌<◌, ◌≤◌, ◌≡◌, ◌≢◌, refl, ◌∙◌, Bool, true, false, ◌&&◌, some, List, [],
  ◌∷◌, arith, ◌==◌, if◌then◌else◌, length, Bool-cases, inl, inr,
}
use cs61_f23_psets_tomkhe.WeensyOs.Memory.{Memory}
use cs61_f23_psets_tomkhe.WeensyOs.Strings.{strstr, strstr_from}
use cs61_f23_psets_tomkhe.WeensyOs.Strings.Spelling.{Spells}

abbrev pub is_prefix : List ℕ → List ℕ → Bool
is_prefix [] h = true
is_prefix (c ∷ n) [] = false
is_prefix (c ∷ n) (d ∷ h) = d == c && is_prefix n h

-- the address of the first place where `n` begins in the text `h` at `p`, or 0
abbrev pub first_at : ℕ → List ℕ → List ℕ → ℕ
first_at p n [] = if is_prefix n [] then p else 0
first_at p n (c ∷ h) = if is_prefix n (c ∷ h) then p else first_at (p + 1) n h

hit :
    (f : ℕ) (m : Memory) (hs ns i j p q : ℕ) (h n : List ℕ)
    → p ≡ hs + i + j
    → q ≡ ns + j
    → m (hs + i) ≢ 0
    → Spells m p h
    → Spells m q n
    → is_prefix n h ≡ true
    → length n < f
    → strstr_from f m hs ns i j ≡ some (hs + i)
unfolding strstr_from
hit zero m hs ns i j p q h n ep eq start sh sn found hf = ground arith
hit (suc f) m hs ns i j p q h [] ep eq start sh sn found hf = ground arith
hit (suc f) m hs ns i j p q [] (c ∷ n) ep eq start sh sn found hf = cc
hit (suc f) m hs ns i j p q (d ∷ h) (c ∷ n) ep eq start (hd, hdn, sh) (hc, hcn, sn) found hf =
    ground (
      arith,
      hit f m hs ns i (j + 1) (p + 1) (q + 1) h n (omega arith) (omega arith) start sh sn
          (ground arith) (omega arith),
    )

missed_round :
    (g f : ℕ) (m : Memory) (hs ns i j : ℕ)
    → g ≡ 1 + f
    → m (hs + i) ≢ 0
    → m (ns + j) ≢ 0
    → m (hs + i + j) ≢ m (ns + j)
    → strstr_from g m hs ns i j ≡ strstr_from f m hs ns (i + 1) 0
unfolding strstr_from
missed_round zero f m hs ns i j e a b c = ground arith
missed_round (suc g) f m hs ns i j e a b c = ground arith

matched_round :
    (g f : ℕ) (m : Memory) (hs ns i j : ℕ)
    → g ≡ 1 + f
    → m (hs + i) ≢ 0
    → m (ns + j) ≢ 0
    → m (hs + i + j) ≡ m (ns + j)
    → strstr_from g m hs ns i j ≡ strstr_from f m hs ns i (j + 1)
unfolding strstr_from
matched_round zero f m hs ns i j e a b c = ground arith
matched_round (suc g) f m hs ns i j e a b c = ground arith

-- `k` rounds end at the next candidate
abbrev Skips : Memory → ℕ → ℕ → ℕ → ℕ → ℕ → Type 0
Skips m hs ns i j k =
    (f g : ℕ) → g ≡ k + f → strstr_from g m hs ns i j ≡ strstr_from f m hs ns (i + 1) 0

miss :
    (m : Memory) (hs ns i j p q : ℕ) (h n : List ℕ)
    → p ≡ hs + i + j
    → q ≡ ns + j
    → m (hs + i) ≢ 0
    → Spells m p h
    → Spells m q n
    → is_prefix n h ≡ false
    → (k : ℕ) × (k ≤ length n) × Skips m hs ns i j k
miss m hs ns i j p q h [] ep eq start sh sn lost = cc
miss m hs ns i j p q [] (c ∷ n) ep eq start sh (hc, hcn, sn) lost =
    (1, omega arith, λ f g e. missed_round g f m hs ns i j e start (ground arith) (ground arith))
miss m hs ns i j p q (d ∷ h) (c ∷ n) ep eq start (hd, hdn, sh) (hc, hcn, sn) lost =
    elim (Bool-cases (d == c)) [
      | inr differ ↦ (
        1,
        omega arith,
        λ f g e. missed_round g f m hs ns i j e start (ground arith) (ground arith),
      )
      | inl same ↦
          let (k, le, skips) =
            miss m hs ns i (j + 1) (p + 1) (q + 1) h n (omega arith) (omega arith) start sh sn
              (ground arith) in
          (
            suc k,
            omega arith,
            λ f g e.
                matched_round g (k + f) m hs ns i j (omega arith) start (ground arith)
                  (ground arith)
                ∙ skips f (k + f) refl,
          )
    ]

-- as many rounds as `strstr` can make: each candidate is matched with at most all of `n`
abbrev pub rounds : List ℕ → List ℕ → ℕ
rounds [] n = suc (length n)
rounds (d ∷ h) n = suc (length n) + rounds h n

Found : ℕ → Memory → ℕ → ℕ → ℕ → ℕ → List ℕ → List ℕ → Type 0
Found f m hs ns i p h n = strstr_from f m hs ns i 0 ≡ some (first_at p n h)

candidate :
    (f : ℕ) (m : Memory) (hs ns i p d : ℕ) (h n : List ℕ)
    → p ≡ hs + i
    → Spells m p (d ∷ h)
    → Spells m ns n
    → rounds (d ∷ h) n ≤ f
    → ((f' : ℕ) → rounds h n ≤ f' → Found f' m hs ns (i + 1) (p + 1) h n)
    → Found f m hs ns i p (d ∷ h) n
unfolding Found
candidate f m hs ns i p d h n ep (hd, hdn, sh) sn hf later =
    elim (Bool-cases (is_prefix n (d ∷ h))) [
      | inl found ↦ ground (
        arith,
        hit f m hs ns i 0 p ns (d ∷ h) n (omega arith) (omega arith) (ground arith) (hd, hdn, sh) sn
            found (omega arith),
      )
      | inr lost ↦
          let (k, le, skips) =
            miss m hs ns i 0 p ns (d ∷ h) n (omega arith) (omega arith) (ground arith) (hd, hdn, sh)
              sn lost in
          ground (arith, skips (f - k) f (omega arith), later (f - k) (omega arith))
    ]

-- with the rounds that remain, the loop finds the first place from the candidate `i` on
searched :
    (f : ℕ) (m : Memory) (hs ns i p : ℕ) (h n : List ℕ)
    → p ≡ hs + i
    → Spells m p h
    → Spells m ns n
    → rounds h n ≤ f
    → Found f m hs ns i p h n
unfolding Found strstr_from
searched zero m hs ns i p [] n ep sh sn hf = ground arith
searched (suc f) m hs ns i p [] [] ep sh sn hf = ground arith
searched (suc f) m hs ns i p [] (c ∷ n) ep sh (hc, hcn, sn) hf = ground arith
searched f m hs ns i p (d ∷ h) n ep sh sn hf =
    candidate f m hs ns i p d h n ep sh sn hf
      λ f' hf'. searched f' m hs ns (i + 1) (p + 1) h n (omega arith) sh.2 sn hf'

-- `strstr` ends, and returns the first place in the text `h` at which `n` begins, or null if there
-- is none, with fuel for as many rounds as candidates times the bytes of `n` and one.
pub strstr-first_at :
    (f : ℕ) (m : Memory) (hs ns : ℕ) (h n : List ℕ)
    → Spells m hs h
    → Spells m ns n
    → rounds h n ≤ f
    → strstr f m hs ns ≡ some (first_at hs n h)
unfolding strstr Found
strstr-first_at f m hs ns h n sh sn hf = searched f m hs ns 0 hs h n (omega arith) sh sn hf

-- ===== src/WeensyOs/Strings/Comparing.antt =====
-- The four comparisons of strings against the order of the texts.
use cs61_f23_psets_tomkhe.Prelude.{
  ℕ, zero, suc, ◌+◌, ◌<◌, ◌≡◌, refl, some, List, [], ◌∷◌, map, arith, ◌==◌, if◌then◌else◌, length,
  take, ℤ, sub_ℕ,
}
use cs61_f23_psets_tomkhe.WeensyOs.Memory.{Memory}
use cs61_f23_psets_tomkhe.WeensyOs.Strings.{
  three_way, tolower, strcmp, strncmp, strcasecmp, strncasecmp,
}
use cs61_f23_psets_tomkhe.WeensyOs.Strings.Spelling.{Spells}

-- The order of a dictionary: the first byte that differs decides, and a beginning comes first.
abbrev pub order : List ℕ → List ℕ → ℤ
order [] [] = sub_ℕ 0 0
order [] (b ∷ y) = sub_ℕ 0 1
order (a ∷ x) [] = sub_ℕ 1 0
order (a ∷ x) (b ∷ y) = if a == b then order x y else three_way a b

strcmp-order :
    (f : ℕ) (m : Memory) (a b : ℕ) (x y : List ℕ)
    → Spells m a x
    → Spells m b y
    → length x < f
    → strcmp f m a b ≡ some (order x y)
unfolding strcmp
strcmp-order zero m a b x y hx hy hf = ground arith
strcmp-order (suc f) m a b [] [] hx hy hf = ground arith
strcmp-order (suc f) m a b [] (d ∷ y) hx (hd, hn, hy) hf = ground arith
strcmp-order (suc f) m a b (c ∷ x) [] (hc, hn, hx) hy hf = ground arith
strcmp-order (suc f) m a b (c ∷ x) (d ∷ y) (hc, hnc, hx) (hd, hnd, hy) hf =
    ground (arith, strcmp-order f m (a + 1) (b + 1) x y hx hy (omega arith))

strncmp-order :
    (m : Memory) (a b n : ℕ) (x y : List ℕ)
    → Spells m a x
    → Spells m b y
    → strncmp m a b n ≡ order (take n x) (take n y)
unfolding strncmp
strncmp-order m a b zero x y hx hy = ground arith
strncmp-order m a b (suc n) [] [] hx hy = ground arith
strncmp-order m a b (suc n) [] (d ∷ y) hx (hd, hn, hy) = ground arith
strncmp-order m a b (suc n) (c ∷ x) [] (hc, hn, hx) hy = ground arith
strncmp-order m a b (suc n) (c ∷ x) (d ∷ y) (hc, hnc, hx) (hd, hnd, hy) =
    ground (arith, strncmp-order m (a + 1) (b + 1) n x y hx hy)

abbrev pub lowered : Memory → Memory
lowered m a = tolower (m a)

tolower_end : (c : ℕ) → tolower c ≡ 0 → c ≡ 0
unfolding tolower
tolower_end c h = ground arith

lowered-Spells :
    (m : Memory) (s : ℕ) (t : List ℕ) → Spells m s t → Spells (lowered m) s (map tolower t)
unfolding tolower
lowered-Spells m s [] h = ground arith
lowered-Spells m s (c ∷ t) (hc, hn, h) =
    (ground arith, λ e. hn (tolower_end c e), lowered-Spells m (s + 1) t h)

-- Ignoring case is comparing a memory whose letters are all small.
strcasecmp-strcmp : (f : ℕ) (m : Memory) (a b : ℕ) → strcasecmp f m a b ≡ strcmp f (lowered m) a b
unfolding strcasecmp strcmp
strcasecmp-strcmp zero m a b = refl
strcasecmp-strcmp (suc f) m a b = grind (arith, strcasecmp-strcmp f m (a + 1) (b + 1))

strncasecmp-strncmp : (m : Memory) (a b n : ℕ) → strncasecmp m a b n ≡ strncmp (lowered m) a b n
unfolding strncasecmp strncmp
strncasecmp-strncmp m a b zero = refl
strncasecmp-strncmp m a b (suc n) = grind (arith, strncasecmp-strncmp m (a + 1) (b + 1) n)

length-map : (x : List ℕ) → length (map tolower x) ≡ length x
length-map [] = refl
length-map (c ∷ x) = omega (arith, length-map x)

-- All four comparisons answer with the order of the texts: of the whole texts, of the texts cut to
-- `n` bytes, and, ignoring case, of the texts in small letters. Those that no length bounds end if
-- they have more fuel than the first text has bytes.
pub comparisons_agree :
    (f : ℕ) (m : Memory) (a b n : ℕ) (x y : List ℕ)
    → Spells m a x
    → Spells m b y
    → length x < f
    → (strcmp f m a b ≡ some (order x y))
      × (strncmp m a b n ≡ order (take n x) (take n y))
      × (strcasecmp f m a b ≡ some (order (map tolower x) (map tolower y)))
      × (strncasecmp m a b n ≡ order (take n (map tolower x)) (take n (map tolower y)))
comparisons_agree f m a b n x y hx hy hf =
    let hx' = lowered-Spells m a x hx in
    let hy' = lowered-Spells m b y hy in
    (
      strcmp-order f m a b x y hx hy hf,
      strncmp-order m a b n x y hx hy,
      rw (strcasecmp-strcmp f m a b)
          (strcmp-order f (lowered m) a b _ _ hx' hy' (omega (arith, length-map x))),
      rw (strncasecmp-strncmp m a b n) (strncmp-order (lowered m) a b n _ _ hx' hy'),
    )

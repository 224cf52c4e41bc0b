-- ===== src/WeensyOs/Strings/Spelling.antt =====
-- Memory that spells a text, and what the string functions measure and copy.
use cs61_f23_psets_tomkhe.Prelude.{
  ℕ, zero, suc, ◌+◌, ◌-◌, ◌<◌, ◌≤◌, ◌≡◌, ◌≢◌, ◌⊎◌, some, List, [], ◌∷◌, arith, ltb, if◌then◌else◌,
  length, take, min,
}
use cs61_f23_psets_tomkhe.WeensyOs.Memory.{Memory, store, memcpy}
use cs61_f23_psets_tomkhe.WeensyOs.Memory.Copying.{memcpy-moved}
use cs61_f23_psets_tomkhe.WeensyOs.Strings.{strlen, strlen_from, strnlen, strnlen_from, strlcpy}

-- The bytes at `s` are the text, and then the terminator.
abbrev pub Spells : Memory → ℕ → List ℕ → Type 0
Spells m s [] = m s ≡ 0
Spells m s (c ∷ t) = (m s ≡ c) × (c ≢ 0) × Spells m (s + 1) t

strlen_from-length :
    (f : ℕ) (m : Memory) (s n : ℕ) (t : List ℕ)
    → Spells m s t
    → length t < f
    → strlen_from f m s n ≡ some (n + length t)
unfolding strlen_from
strlen_from-length zero m s n t h hf = ground arith
strlen_from-length (suc f) m s n [] h hf = ground arith
strlen_from-length (suc f) m s n (c ∷ t) (hc, hn, h) hf =
    ground (arith, strlen_from-length f m (s + 1) (n + 1) t h (omega arith))

pub strlen-length :
    (f : ℕ) (m : Memory) (s : ℕ) (t : List ℕ)
    → Spells m s t
    → length t < f
    → strlen f m s ≡ some (length t)
unfolding strlen
strlen-length f m s t h hf = ground (arith, strlen_from-length f m s 0 t h hf)

strnlen_from-min :
    (m : Memory) (s n left : ℕ) (t : List ℕ)
    → Spells m s t
    → strnlen_from m s n left ≡ n + min left (length t)
unfolding strnlen_from
strnlen_from-min m s n zero t h = ground arith
strnlen_from-min m s n (suc left) [] h = ground arith
strnlen_from-min m s n (suc left) (c ∷ t) (hc, hn, h) =
    ground (arith, strnlen_from-min m (s + 1) (n + 1) left t h)

pub strnlen-min :
    (m : Memory) (s maxlen : ℕ) (t : List ℕ)
    → Spells m s t
    → strnlen m s maxlen ≡ min maxlen (length t)
unfolding strnlen
strnlen-min m s maxlen t h = omega (arith, strnlen_from-min m s 0 maxlen t h)

-- A copy of the first bytes of a text, with a terminator behind them, spells its beginning.
pub copied-Spells :
    (m m' : Memory) (s d n : ℕ) (t : List ℕ)
    → Spells m s t
    → ((i : ℕ) → i < min n (length t) → m' (d + i) ≡ m (s + i))
    → m' (d + min n (length t)) ≡ 0
    → Spells m' d (take n t)
copied-Spells m m' s d zero t h same end = ground arith
copied-Spells m m' s d (suc n) [] h same end = ground arith
copied-Spells m m' s d (suc n) (c ∷ t) (hc, hn, h) same end = (
  ground (arith, same 0 (omega arith)),
  hn,
  copied-Spells m m' (s + 1) (d + 1) n t h (λ i hi. ground (arith, same (i + 1) (omega arith)))
      (ground arith),
)

abbrev copied_length : ℕ → ℕ → ℕ
copied_length maxlen n = if ltb (maxlen - 1) n then maxlen - 1 else n

-- `strlcpy` into a buffer of `maxlen` bytes, not 0, that does not begin inside the text of the
-- source: it returns the source's length; the buffer spells the source, cut to `maxlen - 1` bytes;
-- and no byte outside the buffer changes.
pub strlcpy-Spells :
    (f d s maxlen : ℕ) (m : Memory) (t : List ℕ)
    → Spells m s t
    → length t < f
    → 0 < maxlen
    → (d ≤ s) ⊎ (s + length t ≤ d)
    → (m' : Memory) × (strlcpy f d s maxlen m ≡ some (length t, m'))
      × Spells m' d (take (maxlen - 1) t)
      × ((a : ℕ) → (a < d) ⊎ (d + maxlen ≤ a) → m' a ≡ m a)
unfolding strlcpy
strlcpy-Spells f d s maxlen m t h hf hm apart =
    let k = copied_length maxlen (length t) in
    let apart' : (d ≤ s) ⊎ (s + k ≤ d) = ground arith in
    let m' : Memory = store (d + k) 0 (memcpy d s k m) in
    (
      m',
      ground (arith, strlen-length f m s t h hf),
      copied-Spells m m' s d (maxlen - 1) t h
          (λ i hi. ground (arith, memcpy-moved d s k m apart' (d + i))) (ground arith),
      λ a ha. ground (arith, memcpy-moved d s k m apart' a),
    )

-- ===== src/WeensyOs/Memory/Copying.antt =====
-- What `memcpy`, `memmove` and `memset` leave at every address.
use cs61_f23_psets_tomkhe.Prelude.{
  ℕ, zero, suc, ◌+◌, ◌-◌, ◌%◌, ◌≤◌, ◌⊎◌, ◌&&◌, leb, ltb, if◌then◌else◌, ◌≡◌, refl, ap, ◌∙◌, arith,
}
use cs61_f23_psets_tomkhe.WeensyOs.Memory.{
  Memory, store, memcpy, copy_down, copy_up, memmove, memset,
}

-- the byte at `a` after the `n` bytes at `s` have gone to `d`
abbrev pub moved : ℕ → ℕ → ℕ → Memory → ℕ → ℕ
moved d s n m a = if leb d a && ltb a (d + n) then m (s + (a - d)) else m a

pub copy_up-moved :
    (d s n : ℕ) (m : Memory) → (d ≤ s) ⊎ (s + n ≤ d) → (a : ℕ) → copy_up d s n m a ≡ moved d s n m a
unfolding copy_up
copy_up-moved d s zero m h a = ground arith
copy_up-moved d s (suc n) m h a =
    ground (arith, copy_up-moved (d + 1) (s + 1) n (store d (m s) m) (omega arith) a)

pub copy_down-moved :
    (d s n : ℕ) (m : Memory) → s ≤ d → (a : ℕ) → copy_down (d + n) (s + n) n m a ≡ moved d s n m a
unfolding copy_down
copy_down-moved d s zero m h a = ground arith
copy_down-moved d s (suc n) m h a =
    ground (arith, copy_down-moved d s n (store (d + n) (m (s + n)) m) h a)

-- Whatever the two areas share, `memmove` puts the bytes that stood at the source at the target,
-- and leaves every other byte as it was.
pub memmove-moved : (d s n : ℕ) (m : Memory) (a : ℕ) → memmove d s n m a ≡ moved d s n m a
unfolding memmove
memmove-moved d s n m a = ground (arith, copy_down-moved d s n m _ a, copy_up-moved d s n m _ a)

pub memcpy-copy_up : (d s n : ℕ) (m : Memory) → memcpy d s n m ≡ copy_up d s n m
unfolding memcpy copy_up
memcpy-copy_up d s zero m = refl
memcpy-copy_up d s (suc n) m = memcpy-copy_up (d + 1) (s + 1) n (store d (m s) m)

pub memcpy-moved :
    (d s n : ℕ) (m : Memory) → (d ≤ s) ⊎ (s + n ≤ d) → (a : ℕ) → memcpy d s n m a ≡ moved d s n m a
memcpy-moved d s n m h a =
    ap (λ (r : Memory). r a) (memcpy-copy_up d s n m) ∙ copy_up-moved d s n m h a

pub memset-filled :
    (p c n : ℕ) (m : Memory) (a : ℕ)
    → memset p c n m a ≡ (if leb p a && ltb a (p + n) then c % 256 else m a)
unfolding memset
memset-filled p c zero m a = ground arith
memset-filled p c (suc n) m a = ground (arith, memset-filled (p + 1) c n (store p (c % 256) m) a)

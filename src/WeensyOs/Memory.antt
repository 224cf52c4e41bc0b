-- ===== src/WeensyOs/Memory.antt =====
-- The functions on raw memory of pset3/lib.cc. A memory gives the byte at each address; a loop
-- over `n` bytes is structural recursion on `n`.
pub mod Copying
use cs61_f23_psets_tomkhe.Prelude.{
  ℕ, zero, suc, ◌+◌, ◌-◌, ◌%◌, ◌≤◌, ◌&&◌, Option, none, some, ltb, ◌==◌, if◌then◌else◌,
}

abbrev pub Memory : Type 0
Memory = ℕ → ℕ

abbrev pub store : ℕ → ℕ → Memory → Memory
store p c m a = if a == p then c else m a

unfoldable pub memcpy : ℕ → ℕ → ℕ → Memory → Memory
memcpy d s zero m = m
memcpy d s (suc n) m = memcpy (d + 1) (s + 1) n (store d (m s) m)

-- the loop of `memmove` that walks down, with `s` and `d` behind the bytes
unfoldable pub copy_down : ℕ → ℕ → ℕ → Memory → Memory
copy_down d s zero m = m
copy_down d s (suc n) m = copy_down (d - 1) (s - 1) n (store (d - 1) (m (s - 1)) m)

-- the loop of `memmove` that walks up
unfoldable pub copy_up : ℕ → ℕ → ℕ → Memory → Memory
copy_up d s zero m = m
copy_up d s (suc n) m = copy_up (d + 1) (s + 1) n (store d (m s) m)

unfoldable pub memmove : ℕ → ℕ → ℕ → Memory → Memory
memmove d s n m =
    if ltb s d && ltb d (s + n) then copy_down (d + n) (s + n) n m else copy_up d s n m

unfoldable pub memset : ℕ → ℕ → ℕ → Memory → Memory
memset p c zero m = m
memset p c (suc n) m = memset (p + 1) c n (store p (c % 256) m)

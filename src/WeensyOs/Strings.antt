-- ===== src/WeensyOs/Strings.antt =====
-- The functions on C strings of pset3/lib.cc, with `isspace` and `tolower` of pset3/lib.hh. A loop
-- that only a terminator stops recurs on fuel, and `none` is a loop that is out of it. The null
-- pointer is 0. A `char` is a byte from 0 to 255.
pub mod Spelling
pub mod Comparing
pub mod Searching
use mathlib.Core.Option
use cs61_f23_psets_tomkhe.Prelude.{
  ℕ, zero, suc, ◌+◌, ◌-◌, ◌%◌, ◌^◌, Bool, true, false, ◌&&◌, ◌||◌, not, Option, none, some, ltb,
  leb, ◌==◌, if◌then◌else◌, ℤ, sub_ℕ,
}
use cs61_f23_psets_tomkhe.WeensyOs.Memory.{Memory, store, memcpy, memset}

abbrev pub flag : Bool → ℕ
flag b = if b then 1 else 0

-- `(a > b) - (a < b)`
abbrev pub three_way : ℕ → ℕ → ℤ
three_way a b = sub_ℕ (flag (ltb b a)) (flag (ltb a b))

unfoldable pub memcmp : Memory → ℕ → ℕ → ℕ → ℤ
memcmp m a b zero = sub_ℕ 0 0
memcmp m a b (suc n) =
    if not (m a == m b) then three_way (m a) (m b) else memcmp m (a + 1) (b + 1) n

unfoldable pub memchr : Memory → ℕ → ℕ → ℕ → ℕ
memchr m s c zero = 0
memchr m s c (suc n) = if m s == c % 256 then s else memchr m (s + 1) c n

-- the loop of `strlen`, from `s` on with the count `n`
unfoldable pub strlen_from : ℕ → Memory → ℕ → ℕ → Option ℕ
strlen_from zero m s n = none
strlen_from (suc f) m s n =
    let rest = strlen_from f m (s + 1) (n + 1) in if m s == 0 then some n else rest

unfoldable pub strlen : ℕ → Memory → ℕ → Option ℕ
strlen f m s = strlen_from f m s 0

unfoldable pub strnlen_from : Memory → ℕ → ℕ → ℕ → ℕ
strnlen_from m s n zero = n
strnlen_from m s n (suc left) = if m s == 0 then n else strnlen_from m (s + 1) (n + 1) left

unfoldable pub strnlen : Memory → ℕ → ℕ → ℕ
strnlen m s maxlen = strnlen_from m s 0 maxlen

-- The pointer returned is the one given; the result is the memory.
unfoldable pub strcpy : ℕ → ℕ → ℕ → Memory → Option Memory
strcpy zero d s m = none
strcpy (suc f) d s m =
    let m' = store d (m s) m in
    let rest = strcpy f (d + 1) (s + 1) m' in if m' d == 0 then some m' else rest

unfoldable pub strncpy : ℕ → ℕ → ℕ → Memory → Memory
strncpy d s zero m = m
strncpy d s (suc n) m =
    if m s == 0 then memset d 0 (suc n) m else strncpy (d + 1) (s + 1) n (store d (m s) m)

unfoldable pub strlcpy : ℕ → ℕ → ℕ → ℕ → Memory → Option (ℕ × Memory)
strlcpy f d s maxlen m =
    Option.map
      (λ n.
        let nn = if ltb (maxlen - 1) n then maxlen - 1 else n in
        (n, if maxlen == 0 then m else store (d + nn) 0 (memcpy d s nn m)))
      (strlen f m s)

unfoldable pub strcmp : ℕ → Memory → ℕ → ℕ → Option ℤ
strcmp zero m a b = none
strcmp (suc f) m a b =
    let rest = strcmp f m (a + 1) (b + 1) in
    if m a == 0 || m b == 0 || not (m a == m b) then some (three_way (m a) (m b)) else rest

unfoldable pub strncmp : Memory → ℕ → ℕ → ℕ → ℤ
strncmp m a b zero = three_way 0 0
strncmp m a b (suc n) =
    if m a == 0 || m b == 0 || not (m a == m b)
    then three_way (m a) (m b)
    else strncmp m (a + 1) (b + 1) n

abbrev pub isspace : ℕ → Bool
isspace c = leb 9 c && leb c 13 || c == 32

abbrev pub isupper : ℕ → Bool
isupper c = ltb ((c + 2 ^ 32 - b'A') % 2 ^ 32) 26

unfoldable pub tolower : ℕ → ℕ
tolower c = if isupper c then c + b'a' - b'A' else c

unfoldable pub strcasecmp : ℕ → Memory → ℕ → ℕ → Option ℤ
strcasecmp zero m a b = none
strcasecmp (suc f) m a b =
    let ac = tolower (m a) in
    let bc = tolower (m b) in
    let rest = strcasecmp f m (a + 1) (b + 1) in
    if ac == 0 || bc == 0 || not (ac == bc) then some (three_way ac bc) else rest

unfoldable pub strncasecmp : Memory → ℕ → ℕ → ℕ → ℤ
strncasecmp m a b zero = three_way 0 0
strncasecmp m a b (suc n) =
    let ac = tolower (m a) in
    let bc = tolower (m b) in
    if ac == 0 || bc == 0 || not (ac == bc)
    then three_way ac bc
    else strncasecmp m (a + 1) (b + 1) n

unfoldable pub strchr : ℕ → Memory → ℕ → ℕ → Option ℕ
strchr zero m s c = none
strchr (suc f) m s c =
    let rest = strchr f m (s + 1) c in
    if not (m s == 0) && not (m s == c % 256) then rest else some (if m s == c % 256 then s else 0)

-- the loop of `strstr`, at the candidate `i` with `j` bytes matched
unfoldable pub strstr_from : ℕ → Memory → ℕ → ℕ → ℕ → ℕ → Option ℕ
strstr_from zero m hs ns i j = none
strstr_from (suc f) m hs ns i j = elim (not (m (hs + i) == 0) && not (m (ns + j) == 0)) [
  | true ↦ elim (m (hs + i + j) == m (ns + j)) [
    | true ↦ strstr_from f m hs ns i (j + 1)
    | false ↦ strstr_from f m hs ns (i + 1) 0
  ]
  | false ↦ some (if m (ns + j) == 0 then hs + i else 0)
]

unfoldable pub strstr : ℕ → Memory → ℕ → ℕ → Option ℕ
strstr f m hs ns = strstr_from f m hs ns 0 0

-- ===== src/Shell/Lexer/Unquote.antt =====
-- `str()` of pset5/helpers.cc on the words that `update` reads: it never runs past the end of its
-- token, and it takes quotes and backslashes away.
use cs61_f23_psets_tomkhe.Prelude.{
  ℕ, zero, suc, ◌+◌, ◌-◌, ◌≤◌, ◌≡◌, ◌≢◌, Bool, true, false, not, Option, none, some, List, [], ◌∷◌,
  arith, ◌==◌, if◌then◌else◌, drop,
}
use mathlib.Core.Option
use cs61_f23_psets_tomkhe.Shell.Lexer.{
  CString, skip_spaces, skip_comment, count_digits, goes_on, opens_quote, escapes, read_word,
  classify, update, unquote, str,
}
use cs61_f23_psets_tomkhe.Shell.Lexer.Progress.{read_word_bounds}

-- One round of both loops, on the outcomes of their tests.
round :
    (goes opens closes escaped : Bool) (len n : ℕ) (quoted : Bool) (ro rc re rr : ℕ × Bool)
    (uo uc ue ur : Option (List ℕ))
    → (if not goes
        then (len, quoted)
        else if opens
        then ro
        else if closes
        then rc
        else if escaped
        then re
        else rr).0
      ≡ len + suc n
    → (ro.0 ≡ len + 1 + n → uo ≢ none)
    → (rc.0 ≡ len + 1 + n → uc ≢ none)
    → (re.0 ≡ len + suc n → ue ≢ none)
    → (rr.0 ≡ len + 1 + n → ur ≢ none)
    → (if opens then uo else if closes then uc else if escaped then ue else ur) ≢ none
round goes opens closes escaped len n quoted ro rc re rr uo uc ue ur e fo fc fe fr = ground arith

map-ne-none : (d : ℕ) (o : Option (List ℕ)) → o ≢ none → Option.map (◌∷◌ d) o ≢ none
map-ne-none d none h = h
map-ne-none d (some w) h = λ e. cc

-- The word that the loop of `update` measures is one that the loop of `str` reads to its end.
read_word-unquote :
    (s : CString) (len q n : ℕ) (quoted : Bool)
    → (read_word len quoted q s).0 ≡ len + n
    → unquote q n s ≢ none
unfolding read_word unquote
read_word-unquote [] len q zero quoted e = λ z. cc
read_word-unquote [] len q (suc n) quoted e = absurd (omega arith)
read_word-unquote (c ∷ []) len q zero quoted e = λ z. cc
read_word-unquote (c ∷ []) len q (suc zero) quoted e = ground arith
read_word-unquote (c ∷ []) len q (suc (suc n)) quoted e = absurd (ground arith)
read_word-unquote (c ∷ d ∷ s) len q zero quoted e = λ z. cc
read_word-unquote (c ∷ d ∷ s) len q (suc zero) quoted e =
    round (goes_on q c) (opens_quote q c) (c == q) (escapes q c) len 0 quoted _ _ _ _ (some [])
      (some []) none (some (c ∷ [])) e (λ _ z. cc) (λ _ z. cc)
      (λ h. absurd (omega (arith, read_word_bounds (len + 2) true q s))) (λ _ z. cc)
read_word-unquote (c ∷ d ∷ s) len q (suc (suc n)) quoted e =
    round (goes_on q c) (opens_quote q c) (c == q) (escapes q c) len (suc n) quoted _ _ _ _ _ _ _ _
      e (read_word-unquote (d ∷ s) (len + 1) c (suc n) true)
      (read_word-unquote (d ∷ s) (len + 1) 0 (suc n) quoted)
      (λ h. map-ne-none d _ (read_word-unquote s (len + 2) q n true (omega arith)))
      (λ h. map-ne-none c _ (read_word-unquote (d ∷ s) (len + 1) q (suc n) quoted h))

-- Leading digits are plain bytes to `str`.
digits-unquote :
    (n : ℕ) (s : CString) (k m : ℕ)
    → n ≤ count_digits s
    → m ≡ n + k
    → unquote 0 k (drop n s) ≢ none
    → unquote 0 m s ≢ none
unfolding unquote count_digits
digits-unquote zero s k m h e u = let same : m ≡ k = omega arith in rw same u
digits-unquote (suc n) [] k m h e u = absurd (omega arith)
digits-unquote (suc n) (c ∷ s) k zero h e u = absurd (omega arith)
digits-unquote (suc n) (c ∷ []) k (suc m) h e u =
    ground (arith, map-ne-none c (unquote 0 m []), digits-unquote n [] k m)
digits-unquote (suc n) (c ∷ d ∷ s) k (suc zero) h e u = ground arith
digits-unquote (suc n) (c ∷ d ∷ s) k (suc (suc m)) h e u =
    ground (arith, map-ne-none c (unquote 0 (suc m) (d ∷ s)), digits-unquote n (d ∷ s) k (suc m))

word-unquote :
    (n : ℕ) (s : CString)
    → n ≤ count_digits s
    → unquote 0 (read_word n false 0 (drop n s)).0 s ≢ none
word-unquote n s h =
    let bounds = read_word_bounds n false 0 (drop n s) in
    let split : (read_word n false 0 (drop n s)).0 ≡ n + ((read_word n false 0 (drop n s)).0 - n) =
      omega arith in
    digits-unquote n s ((read_word n false 0 (drop n s)).0 - n) _ h split
      (read_word-unquote (drop n s) n 0 _ false split)

-- `str()` of every token that `update` reads returns: it never steps over the token's end, where
-- its loop's test could not stop it.
pub str-update : (s : CString) → str (update s) ≢ none
unfolding str update classify
str-update s = ground (
  arith,
  word-unquote (count_digits (skip_comment (skip_spaces s))) (skip_comment (skip_spaces s))
      (omega arith),
)

-- ===== src/Shell/Lexer/Words.antt =====
-- Words with quotes and backslashes in the command lines of pset5/helpers.cc.
use cs61_f23_psets_tomkhe.Prelude.{
  ℕ, zero, suc, ◌+◌, ◌*◌, ◌<◌, ◌≡◌, refl, ◌∙◌, ◌≢◌, Bool, true, false, not, ◌||◌, some, List, [],
  ◌∷◌, ◌++◌, arith, ◌==◌, length, drop,
}
use cs61_f23_psets_tomkhe.Shell.Lexer.{
  CString, isspace, isshellspecial, normal, skip_spaces, skip_comment, count_digits, read_word,
  classify, update, unquote, str,
}
use cs61_f23_psets_tomkhe.Shell.Lexer.Progress.{IsCString}

-- `'w'`
abbrev pub single_quoted : List ℕ → CString
single_quoted w = b'\'' ∷ (w ++ b'\'' ∷ [])

-- a backslash in front of every byte
abbrev pub backslashed : List ℕ → CString
backslashed [] = []
backslashed (c ∷ w) = b'\\' ∷ c ∷ backslashed w

-- bytes that stand for themselves in single quotes
abbrev pub IsQuotable : List ℕ → Type 0
IsQuotable [] = Unit {0}
IsQuotable (c ∷ w) = (0 < c) × (c ≢ b'\'') × IsQuotable w

-- A word ends here.
abbrev pub EndsWord : CString → Type 0
EndsWord [] = Unit {0}
EndsWord (c ∷ s) = (isspace c || isshellspecial c) ≡ true

read_word-end :
    (len : ℕ) (quoted : Bool) (rest : CString)
    → EndsWord rest
    → read_word len quoted 0 rest ≡ (len, quoted)
unfolding read_word
read_word-end len quoted [] h = refl
read_word-end len quoted (c ∷ []) h = ground arith
read_word-end len quoted (c ∷ d ∷ s) h = ground arith

read_word-in_quote :
    (w : List ℕ) (len m : ℕ) (rest : CString)
    → IsQuotable w
    → EndsWord rest
    → m ≡ len + length w + 1
    → read_word len true b'\'' (w ++ b'\'' ∷ rest) ≡ (m, true)
unfolding read_word
read_word-in_quote [] len m [] h e q = ground arith
read_word-in_quote [] len m (r ∷ rest) h e q =
    ground (arith, read_word-end (len + 1) true (r ∷ rest) e)
read_word-in_quote (c ∷ []) len m rest h e q =
    ground (arith, read_word-in_quote [] (len + 1) m rest tt e)
read_word-in_quote (c ∷ d ∷ w) len m rest h e q =
    ground (arith, read_word-in_quote (d ∷ w) (len + 1) m rest h.2 e)

unquote-in_quote :
    (w : List ℕ) (rest : CString)
    → IsQuotable w
    → unquote b'\'' (suc (length w)) (w ++ b'\'' ∷ rest) ≡ some w
unfolding unquote
unquote-in_quote [] [] h = refl
unquote-in_quote [] (r ∷ rest) h = refl
unquote-in_quote (c ∷ []) rest h = ground (arith, unquote-in_quote [] rest tt)
unquote-in_quote (c ∷ d ∷ w) rest h = ground (arith, unquote-in_quote (d ∷ w) rest h.2)

read_word-open : (x : CString) → read_word 0 false 0 (b'\'' ∷ x) ≡ read_word 1 true b'\'' x
unfolding read_word isshellspecial
read_word-open [] = refl
read_word-open (d ∷ x) = refl

unquote-open : (n : ℕ) (x : CString) → unquote 0 (suc n) (b'\'' ∷ x) ≡ unquote b'\'' n x
unfolding unquote
unquote-open n [] = refl
unquote-open zero (d ∷ x) = refl
unquote-open (suc n) (d ∷ x) = refl

drop-quoted : (w : List ℕ) (rest : CString) → drop (suc (length w)) (w ++ b'\'' ∷ rest) ≡ rest
drop-quoted [] rest = refl
drop-quoted (c ∷ w) rest = drop-quoted w rest

-- The token at the start of `s` is a word whose `str()` is `w`, and `rest` follows it.
pub record IsWord (w : List ℕ) (rest s : CString) : Type 0 where
  pub is_normal : (update s).type ≡ normal
  pub str_is : str (update s) ≡ some w
  pub rest_is : drop (update s).len (update s).s ≡ rest

-- Any bytes but the terminator and the single quote, between single quotes and in front of a
-- space, a special byte or the end of the line, are one word, with just these bytes.
pub single_quoted-IsWord :
    (w : List ℕ) (rest : CString)
    → IsQuotable w
    → EndsWord rest
    → IsWord w rest (b'\'' ∷ (w ++ b'\'' ∷ rest))
unfolding update skip_spaces skip_comment count_digits classify isshellspecial str
single_quoted-IsWord w rest h e =
    let word =
      read_word-open (w ++ b'\'' ∷ rest)
      ∙ read_word-in_quote w 1 (suc (suc (length w))) rest h e (omega arith) in
    record {
      is_normal = refl;
      str_is =
          rw word (unquote-open (suc (length w)) (w ++ b'\'' ∷ rest) ∙ unquote-in_quote w rest h);
      rest_is = rw word (drop-quoted w rest);
    }

read_word-backslashed :
    (w : List ℕ) (len m : ℕ) (quoted : Bool) (rest : CString)
    → EndsWord rest
    → m ≡ len + 2 * length w
    → read_word len quoted 0 (backslashed w ++ rest) ≡ (m, quoted || not (length w == 0))
unfolding read_word isshellspecial
read_word-backslashed [] len m quoted rest e q = ground (arith, read_word-end len quoted rest e)
read_word-backslashed (c ∷ w) len m quoted rest e q =
    ground (arith, read_word-backslashed w (len + 2) m true rest e)

unquote-backslashed :
    (w : List ℕ) (m : ℕ) (rest : CString)
    → m ≡ 2 * length w
    → unquote 0 m (backslashed w ++ rest) ≡ some w
unfolding unquote
unquote-backslashed [] m rest q = let z : m ≡ 0 = omega arith in rw z
unquote-backslashed (c ∷ w) zero rest q = absurd (omega arith)
unquote-backslashed (c ∷ w) (suc zero) rest q = absurd (omega arith)
unquote-backslashed (c ∷ w) (suc (suc m)) rest q = rw (unquote-backslashed w m rest (omega arith))

drop-backslashed :
    (w : List ℕ) (m : ℕ) (rest : CString) → m ≡ 2 * length w → drop m (backslashed w ++ rest) ≡ rest
drop-backslashed [] m rest q = let z : m ≡ 0 = omega arith in rw z
drop-backslashed (c ∷ w) zero rest q = absurd (omega arith)
drop-backslashed (c ∷ w) (suc zero) rest q = absurd (omega arith)
drop-backslashed (c ∷ w) (suc (suc m)) rest q = drop-backslashed w m rest (omega arith)

-- A word of at least one byte, none the terminator, with a backslash in front of each of its bytes and a space, a
-- special byte or the end of the line behind it, is read as these bytes.
pub backslashed-IsWord :
    (c : ℕ) (w : List ℕ) (rest : CString)
    → IsCString (c ∷ w)
    → EndsWord rest
    → IsWord (c ∷ w) rest (backslashed (c ∷ w) ++ rest)
unfolding update skip_spaces skip_comment count_digits classify isshellspecial str
backslashed-IsWord c w rest h e =
    let word = read_word-backslashed (c ∷ w) 0 (2 * length (c ∷ w)) false rest e (omega arith) in
    record {
      is_normal = refl;
      str_is = rw word (ground (arith, unquote-backslashed (c ∷ w) (2 * length (c ∷ w)) rest refl));
      rest_is = rw word (drop-backslashed (c ∷ w) (2 * length (c ∷ w)) rest refl);
    }

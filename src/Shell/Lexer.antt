-- ===== src/Shell/Lexer.antt =====
-- `shell_parser` and `shell_token_iterator` of pset5/helpers.cc and pset5/sh61.hh. A C string is the
-- list of its bytes before the terminator, and a pointer into it the rest of that list; a read at
-- the terminator gives 0.
pub mod Progress
pub mod Unquote
pub mod Words
use mathlib.Core.Option
use cs61_f23_psets_tomkhe.Prelude.{
  ℕ, zero, suc, ◌+◌, ◌-◌, Bool, true, false, not, ◌&&◌, ◌||◌, Option, none, some, List, [], ◌∷◌,
  map, ltb, leb, ◌==◌, if◌then◌else◌, take, drop, get_or, ◌≡◌,
}

abbrev pub CString : Type 0
CString = List ℕ

abbrev pub at : CString → ℕ → ℕ
at s i = get_or s i 0

abbrev pub isspace : ℕ → Bool
isspace c = c == 32 || leb 9 c && leb c 13

abbrev pub isdigit : ℕ → Bool
isdigit c = leb b'0' c && leb c b'9'

unfoldable pub isshellspecial : ℕ → Bool
isshellspecial c =
    c == b'<'
    || c == b'>'
    || c == b'&'
    || c == b'|'
    || c == b';'
    || c == b'('
    || c == b')'
    || c == b'#'
    || c == b'$'
    || c == b'='
    || c == b'{'
    || c == b'}'

-- The `TYPE_` constants.
pub data TokenType : Type 0 where
  normal redirect_op sequence background pipe and or lparen rparen : TokenType
  variable equal def default lbrace rbrace other : TokenType

-- The iterator: `_s`, `_type`, `_quoted` and `_len`.
pub record Token : Type 0 where
  pub s : CString
  pub type : TokenType
  pub quoted : Bool
  pub len : ℕ

unfoldable pub skip_spaces : CString → CString
skip_spaces [] = []
skip_spaces (c ∷ s) = if isspace c then skip_spaces s else c ∷ s

-- the jump to the end of the line at a comment
unfoldable pub skip_comment : CString → CString
skip_comment [] = []
skip_comment (c ∷ s) = if c == b'#' then [] else c ∷ s

unfoldable pub count_digits : CString → ℕ
count_digits [] = 0
count_digits (c ∷ s) = if isdigit c then suc (count_digits s) else 0

-- The tests in the loop over an ordinary word. `curquote` is 0 outside quotes.
abbrev pub goes_on : ℕ → ℕ → Bool
goes_on curquote c = not (curquote == 0) || not (isspace c) && not (isshellspecial c)

abbrev pub opens_quote : ℕ → ℕ → Bool
opens_quote curquote c = (c == b'"' || c == b'\'') && curquote == 0

abbrev pub escapes : ℕ → ℕ → Bool
escapes curquote c = c == b'\\' && not (curquote == b'\'')

-- The loop: from the rest of the string, `_len` and `_quoted`. A backslash in front of the
-- terminator escapes nothing.
unfoldable pub read_word : ℕ → Bool → ℕ → CString → ℕ × Bool
read_word len quoted curquote [] = (len, quoted)
read_word len quoted curquote (c ∷ []) =
    if not (goes_on curquote c)
    then (len, quoted)
    else if opens_quote curquote c
    then (len + 1, true)
    else (len + 1, quoted)
read_word len quoted curquote (c ∷ d ∷ s) =
    let opened = read_word (len + 1) true c (d ∷ s) in
    let closed = read_word (len + 1) quoted 0 (d ∷ s) in
    let escaped = read_word (len + 2) true curquote s in
    let rest = read_word (len + 1) quoted curquote (d ∷ s) in
    if not (goes_on curquote c)
    then (len, quoted)
    else if opens_quote curquote c
    then opened
    else if c == curquote
    then closed
    else if escapes curquote c
    then escaped
    else rest

abbrev token : CString → ℕ → TokenType → Token
token s len type = record { s = s; type = type; quoted = false; len = len }

-- the length of a redirection operator whose `<` or `>` stands at `digits`
unfoldable pub redirect_length : ℕ → CString → ℕ
redirect_length digits s =
    if at s (digits + 1) == b'>'
    then digits + 2
    else digits + 1 + count_digits (drop (digits + 1) s)

unfoldable pub one_char_type : ℕ → TokenType
one_char_type c =
    if c == b';'
    then sequence
    else if c == b'&'
    then background
    else if c == b'|'
    then pipe
    else if c == b'('
    then lparen
    else if c == b')'
    then rparen
    else if c == b'$'
    then variable
    else if c == b'='
    then equal
    else if c == b'{'
    then lbrace
    else if c == b'}'
    then rbrace
    else other

abbrev word_token : CString → ℕ × Bool → Token
word_token s (len, quoted) = record { s = s; type = normal; quoted = quoted; len = len }

-- the ladder of tests, after `digits` leading digits
unfoldable pub classify : ℕ → CString → Token
classify digits s =
    if at s digits == b'<' || at s digits == b'>'
    then token s (redirect_length digits s) redirect_op
    else if digits == 0 && (at s 0 == b'&' || at s 0 == b'|') && at s 1 == at s 0
    then token s 2 (if at s 0 == b'&' then and else or)
    else if digits == 0 && at s 0 == b':' && (at s 1 == b'=' || at s 1 == b'-')
    then token s 2 (if at s 1 == b'=' then def else default)
    else if digits == 0 && isshellspecial (at s 0)
    then token s 1 (one_char_type (at s 0))
    else if digits == 0 && at s 0 == 0
    then token s 0 sequence
    else word_token s (read_word digits false 0 (drop digits s))

unfoldable pub update : CString → Token
update s = let rest = skip_comment (skip_spaces s) in classify (count_digits rest) rest

-- `shell_parser`'s constructor skips as `update` does; `begin()` is the first token, and `++it`
-- the next one.
abbrev pub begin : CString → Token
begin s = update (skip_comment (skip_spaces s))

abbrev pub next : Token → Token
next t = update (drop t.len t.s)

-- `it != parser.end()`: the end iterator stands at the terminator
abbrev pub at_end : Token → Bool
at_end t = elim t.s [ [] ↦ true | _ ↦ false ]

-- The loop of `str()` over a quoted token, `n` bytes before its end. `none` is a step past the
-- end, from where `pos != _len` never becomes false.
unfoldable pub unquote : ℕ → ℕ → CString → Option (List ℕ)
unquote curquote zero s = some []
unquote curquote (suc n) [] = none
unquote curquote (suc n) (c ∷ []) =
    let closed = unquote 0 n [] in
    let rest = Option.map (◌∷◌ c) (unquote curquote n []) in
    if opens_quote curquote c then unquote c n [] else if c == curquote then closed else rest
unquote curquote (suc zero) (c ∷ d ∷ s) =
    if opens_quote curquote c
    then some []
    else if c == curquote
    then some []
    else if escapes curquote c
    then none
    else some (c ∷ [])
unquote curquote (suc (suc n)) (c ∷ d ∷ s) =
    let opened = unquote c (suc n) (d ∷ s) in
    let closed = unquote 0 (suc n) (d ∷ s) in
    let escaped = Option.map (◌∷◌ d) (unquote curquote n s) in
    let rest = Option.map (◌∷◌ c) (unquote curquote (suc n) (d ∷ s)) in
    if opens_quote curquote c
    then opened
    else if c == curquote
    then closed
    else if escapes curquote c
    then escaped
    else rest

unfoldable pub str : Token → Option (List ℕ)
str t = if t.quoted then unquote 0 t.len t.s else some (take t.len t.s)

-- The tokens before the end, as the loop of `parse_line` meets them; `none` if the fuel runs out.
unfoldable pub tokens : ℕ → Token → Option (List Token)
tokens zero t = none
tokens (suc fuel) t =
    let rest = Option.map (◌∷◌ t) (tokens fuel (next t)) in if at_end t then some [] else rest

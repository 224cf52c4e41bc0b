-- ===== src/Shell/Parser/Vars.antt =====
-- Variables and `cd` in the parser of pset5/sh61.cc.
use cs61_f23_psets_tomkhe.Prelude.{
  ℕ, ◌≡◌, refl, sym, inl, inr, true, false, Option, none, some, List, [], ◌∷◌, ◌++◌, map, arith,
  Option-cases,
}
use mathlib.Core.List.{append-nil}
use cs61_f23_psets_tomkhe.Shell.Lexer.{variable, equal}
use cs61_f23_psets_tomkhe.Shell.Parser.{
  Text, same_text, Command, Conditional, new_command, Lexeme, find_var, insert_var, back, isalpha,
  substitute, add_word, step, Parsed, parse, parse_line,
}
use cs61_f23_psets_tomkhe.Shell.Parser.Print.{word, operator, cd, mentions_cd, redirect_tokens}
use cs61_f23_psets_tomkhe.Shell.Parser.RoundTrip.{parse_line-list_tokens}

abbrev pub assignment : Text → Text → List Lexeme
assignment name value = word name ∷ operator equal (b'=' ∷ []) ∷ word value ∷ []

abbrev pub use_of : Text → List Lexeme
use_of name = operator variable (b'$' ∷ []) ∷ word name ∷ []

same_text_refl : (w : Text) → same_text w w ≡ true
unfolding same_text
same_text_refl [] = refl
same_text_refl (c ∷ w) = ground (arith, same_text_refl w)

-- The value that is there, or else the new one.
abbrev pub kept_or : Text → Option Text → Text
kept_or value none = value
kept_or value (some old) = old

parse_assignment :
    (name value : Text) (var : List (Text × Text))
    → (q : Parsed) × (parse_line (assignment name value) var ≡ some q)
      × (q.var ≡ insert_var name value var)
unfolding parse_line parse step add_word
parse_assignment name value var = (_, refl, refl)

find_var-other :
    (name value other : Text) (var : List (Text × Text))
    → same_text name other ≡ false
    → find_var other (insert_var name value var) ≡ find_var other var
unfolding find_var insert_var
find_var-other name value other var h = ground (arith, h)

insert_var_same :
    (name value old : Text) (var : List (Text × Text))
    → find_var name var ≡ some old
    → insert_var name value var ≡ var
unfolding insert_var
insert_var_same name value old var e = rw (e, insert_var) refl

find_var-kept :
    (name value : Text) (var : List (Text × Text))
    → find_var name (insert_var name value var) ≡ some (kept_or value (find_var name var))
find_var-kept name value var = elim (Option-cases (find_var name var)) [
  | inl e ↦ unfold insert_var find_var in ground (arith, same_text_refl name)
  | inr (old, e) ↦ rw (insert_var_same name value old var e) (rw e refl)
]

-- After the line `name=value`, the variable has that value only if it had none before: a variable
-- that has a value keeps it. Every other variable is as it was.
pub assignment_once :
    (name value other : Text) (var : List (Text × Text))
    → same_text name other ≡ false
    → (q : Parsed) × (parse_line (assignment name value) var ≡ some q)
      × (find_var name q.var ≡ some (kept_or value (find_var name var)))
      × (find_var other q.var ≡ find_var other var)
assignment_once name value other var h =
    let (q, e, v) = parse_assignment name value var in
    (q, e, rw v (find_var-kept name value var), rw v (find_var-other name value other var h))

abbrev pub value_or_empty : Option Text → Text
value_or_empty none = []
value_or_empty (some v) = v

abbrev pub one_command : Command → List Conditional
one_command c =
    record {
      pipelines = record { commands = c ∷ []; next_is_or = false } ∷ [];
      is_background = false;
    }
    ∷ []

-- A name ends in a letter, or it is not substituted whole.
abbrev pub EndsInLetter : Text → Type 0
EndsInLetter name = (c : ℕ) × (back name ≡ some c) × (isalpha c ≡ true)

-- In a line `$name`, a name that ends in a letter is replaced by the variable's value, or by
-- nothing if it has none; the line is one command with that word, and changes no variable.
pub use_is_value :
    (name : Text) (var : List (Text × Text))
    → EndsInLetter name
    → same_text name cd ≡ false
    → parse_line (use_of name) var
      ≡ some (record {
        list = one_command (record new_command { args = value_or_empty (find_var name var) ∷ [] });
        var = var;
      })
unfolding parse_line parse step add_word substitute
use_is_value name var (c, e, h) n = ground (arith, n, e, h)

mentions_cd-append : (ws us : List Text) → mentions_cd (ws ++ cd ∷ us) ≡ true
mentions_cd-append [] us = rw (same_text_refl cd) refl
mentions_cd-append (w ∷ ws) us = ground (arith, mentions_cd-append ws us)

-- A command is marked as a `cd` as soon as one of its words is `cd`, wherever it stands: a line of
-- words with `cd` among them gives one command with these words, so marked.
pub cd_anywhere :
    (ws us : List Text) (var : List (Text × Text))
    → parse_line (map word (ws ++ cd ∷ us)) var
      ≡ some (record {
        list = one_command (record new_command { args = ws ++ cd ∷ us; is_cd = true });
        var = var;
      })
unfolding redirect_tokens
cd_anywhere ws us var =
    let c : Command = record new_command { args = ws ++ cd ∷ us; is_cd = true } in
    rw (← append-nil (map word (ws ++ cd ∷ us))) (
      parse_line-list_tokens (one_command c) var (
        (
          record {
            cd_is = sym (mentions_cd-append ws us);
            no_definition = refl;
            stdout_named = refl;
            stderr_named = refl;
          },
          refl,
        ),
        refl,
      ))

-- ===== src/Shell/Parser.antt =====
-- `parse_line` of pset5/sh61.cc, with the structures that it builds. The linked lists of commands,
-- pipelines and conditionals are lists here: the parser keeps the finished part of each of the
-- three that it is at, and its current command. `var` outlives the line, so it is an argument.
-- `none` is undefined behaviour: `back()` or `pop_back()` on an empty value.
pub mod Vars
pub mod Print
pub mod Leads
pub mod RoundTrip
use mathlib.Core.Option
use cs61_f23_psets_tomkhe.Prelude.{
  ℕ, zero, suc, Bool, true, false, not, ◌&&◌, ◌||◌, Option, none, some, List, [], ◌∷◌, ◌++◌, leb,
  ◌==◌, if◌then◌else◌,
}
use cs61_f23_psets_tomkhe.Shell.Lexer.{
  TokenType, normal, redirect_op, sequence, background, pipe, and, or, lparen, rparen, variable,
  equal, def, default, lbrace, rbrace, other,
}

abbrev pub Text : Type 0
Text = List ℕ

unfoldable pub same_text : Text → Text → Bool
same_text [] [] = true
same_text (x ∷ xs) (y ∷ ys) = x == y && same_text xs ys
same_text _ _ = false

-- the flags that a redirection's file is opened with
pub data OpenMode : Type 0 where
  truncate append : OpenMode

pub record Command : Type 0 where
  pub args : List Text
  pub is_cd : Bool
  pub is_variable_def : Bool
  pub stdin_file : Text
  pub stdout_file : Text
  pub stderr_file : Text
  pub stdout_mode : OpenMode
  pub stderr_mode : OpenMode

pub record Pipeline : Type 0 where
  pub commands : List Command
  pub next_is_or : Bool

pub record Conditional : Type 0 where
  pub pipelines : List Pipeline
  pub is_background : Bool

abbrev pub new_command : Command
new_command = record {
  args = [];
  is_cd = false;
  is_variable_def = false;
  stdin_file = [];
  stdout_file = [];
  stderr_file = [];
  stdout_mode = truncate;
  stderr_mode = truncate;
}

-- A token as `type()` and `str()` give it.
pub record Lexeme : Type 0 where
  pub type : TokenType
  pub text : Text

pub record Parser : Type 0 where
  pub conditionals : List Conditional
  pub pipelines : List Pipeline
  pub commands : List Command
  pub command : Command
  pub is_variable : Bool
  pub prev_word : Text
  pub var : List (Text × Text)

abbrev pub start : List (Text × Text) → Parser
start var = record {
  conditionals = [];
  pipelines = [];
  commands = [];
  command = new_command;
  is_variable = false;
  prev_word = [];
  var = var;
}

abbrev pub this_pipeline : Bool → Parser → List Pipeline
this_pipeline is_or p =
    p.pipelines ++ (record { commands = p.commands ++ (p.command ∷ []); next_is_or = is_or } ∷ [])

abbrev pub this_conditional : Bool → Parser → List Conditional
this_conditional bg p =
    p.conditionals ++ (record { pipelines = this_pipeline false p; is_background = bg } ∷ [])

abbrev pub new_conditional : Bool → Parser → Parser
new_conditional bg p = record p {
  conditionals = this_conditional bg p;
  pipelines = [];
  commands = [];
  command = new_command;
}

abbrev pub new_pipeline : Bool → Parser → Parser
new_pipeline is_or p = record p {
  pipelines = this_pipeline is_or p;
  commands = [];
  command = new_command;
}

abbrev pub next_command : Parser → Parser
next_command p = record p { commands = p.commands ++ (p.command ∷ []); command = new_command }

-- `std::map` with string keys: `find`, and `insert`, which keeps a value that is there
unfoldable pub find_var : Text → List (Text × Text) → Option Text
find_var k [] = none
find_var k ((j, v) ∷ m) = if same_text j k then some v else find_var k m

unfoldable pub insert_var : Text → Text → List (Text × Text) → List (Text × Text)
insert_var k v m = elim (find_var k m) [ some w ↦ m | none ↦ (k, v) ∷ m ]

-- `vector::pop_back`
unfoldable pub pop_back {ℓ} : {A : Type ℓ} → List A → Option (List A)
pop_back [] = none
pop_back (x ∷ []) = some []
pop_back (x ∷ y ∷ xs) = Option.map (◌∷◌ x) (pop_back (y ∷ xs))

-- `string::back`
unfoldable pub back : Text → Option ℕ
back [] = none
back (c ∷ []) = some c
back (c ∷ d ∷ w) = back (d ∷ w)

abbrev pub isalpha : ℕ → Bool
isalpha c = leb b'a' c && leb c b'z' || leb b'A' c && leb c b'Z'

abbrev pub push_arg : Text → Command → Command
push_arg w c = record c { args = c.args ++ (w ∷ []) }

abbrev value_of : Option Text → Text
value_of none = []
value_of (some v) = v

-- the value of the variable that `$` and a word name, and the byte behind its name
unfoldable pub substitute : Text → List (Text × Text) → Option Text
substitute w var = elim (back w) [
  | none ↦ none
  | some c ↦
      if isalpha c
      then some (value_of (find_var w var))
      else Option.map (λ name. value_of (find_var name var) ++ (c ∷ [])) (pop_back w)
]

abbrev mark_cd : Text → Command → Command
mark_cd w c = if same_text w (b'c' ∷ b'd' ∷ []) then record c { is_cd = true } else c

-- `default:`, an ordinary word
unfoldable pub add_word : Text → Parser → Option Parser
add_word w p =
    if p.is_variable
    then Option.map
        (λ value. record p {
          command = push_arg value (mark_cd w p.command);
          is_variable = false;
          prev_word = value;
        })
        (substitute w p.var)
    else some (record p { command = push_arg w (mark_cd w p.command); prev_word = w })

-- The operator and the file behind it.
unfoldable pub redirect : Text → Text → Command → Command
redirect op file c =
    if same_text op (b'<' ∷ [])
    then record c { stdin_file = file }
    else if same_text op (b'>' ∷ [])
    then record c { stdout_file = file }
    else if same_text op (b'>' ∷ b'>' ∷ [])
    then record c { stdout_file = file; stdout_mode = append }
    else if same_text op (b'2' ∷ b'>' ∷ b'>' ∷ [])
    then record c { stderr_file = file; stderr_mode = append }
    else record c { stderr_file = file }

-- The word behind `}` is joined to the one before it.
unfoldable pub join_word : Text → Parser → Option Parser
join_word w p =
    Option.map
      (λ args. record p {
        command = record (p.command) { args = args ++ ((p.prev_word ++ w) ∷ []) };
        prev_word = p.prev_word ++ w;
      })
      (pop_back p.command.args)

-- A round of the loop's `switch`: the state, and whether it has stepped to the next token, whose
-- text is `following`; the text of the end is empty.
unfoldable pub step : TokenType → Text → Option Text → Parser → Option (Parser × Bool)
step lbrace text following p = some (p, false)
step rbrace text none p = some (p, false)
step rbrace text (some w) p = Option.map (λ q. (q, true)) (join_word w p)
step variable text following p = some (record p { is_variable = true }, false)
step equal text following p = some (
  record p {
    var = insert_var p.prev_word (value_of following) p.var;
    command = record (p.command) { is_variable_def = true };
  },
  true,
)
step background text following p = some (new_conditional true p, false)
step sequence text following p = some (new_conditional false p, false)
step and text following p = some (new_pipeline false p, false)
step or text following p = some (new_pipeline true p, false)
step pipe text following p = some (next_command p, false)
step redirect_op text following p =
    some (record p { command = redirect text (value_of following) p.command }, true)
step _ text following p = Option.map (λ q. (q, false)) (add_word text p)

-- What the line gives: the list of conditionals and the variables.
pub record Parsed : Type 0 where
  pub list : List Conditional
  pub var : List (Text × Text)

abbrev pub finish : Parser → Parsed
finish p = record { list = this_conditional false p; var = p.var }

unfoldable pub parse : List Lexeme → Parser → Option Parsed
parse [] p = some (finish p)
parse (t ∷ []) p = Option.map (λ (q, stepped). finish q) (step t.type t.text none p)
parse (t ∷ u ∷ ts) p = elim (step t.type t.text (some u.text) p) [
  | none ↦ none
  | some (q, stepped) ↦ elim stepped [ true ↦ parse ts q | false ↦ parse (u ∷ ts) q ]
]

unfoldable pub parse_line : List Lexeme → List (Text × Text) → Option Parsed
parse_line ts var = parse ts (start var)

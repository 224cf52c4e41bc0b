-- ===== src/Shell/Parser/Print.antt =====
-- Command lists written as tokens, for the parser of pset5/sh61.cc.
use cs61_f23_psets_tomkhe.Prelude.{◌≡◌, Bool, true, false, ◌||◌, List, [], ◌∷◌, ◌++◌, map}
use cs61_f23_psets_tomkhe.Shell.Lexer.{
  TokenType, normal, redirect_op, sequence, background, pipe, and, or,
}
use cs61_f23_psets_tomkhe.Shell.Parser.{
  Text, same_text, OpenMode, truncate, append, Command, Pipeline, Conditional, Lexeme,
}

abbrev pub word : Text → Lexeme
word w = record { type = normal; text = w }

abbrev pub operator : TokenType → Text → Lexeme
operator type text = record { type = type; text = text }

abbrev pub cd : Text
cd = b'c' ∷ b'd' ∷ []

abbrev pub mentions_cd : List Text → Bool
mentions_cd [] = false
mentions_cd (w ∷ ws) = same_text w cd || mentions_cd ws

-- An operator and its file, or nothing for no file.
unfoldable pub redirect_tokens : Text → Text → List Lexeme
redirect_tokens op [] = []
redirect_tokens op (c ∷ file) = operator redirect_op op ∷ word (c ∷ file) ∷ []

abbrev pub stdout_op : OpenMode → Text
stdout_op truncate = b'>' ∷ []
stdout_op append = b'>' ∷ b'>' ∷ []

abbrev pub stderr_op : OpenMode → Text
stderr_op truncate = b'2' ∷ b'>' ∷ []
stderr_op append = b'2' ∷ b'>' ∷ b'>' ∷ []

abbrev pub command_tokens : Command → List Lexeme
command_tokens c =
    map word c.args
    ++ (redirect_tokens (b'<' ∷ []) c.stdin_file
        ++ (redirect_tokens (stdout_op c.stdout_mode) c.stdout_file
            ++ redirect_tokens (stderr_op c.stderr_mode) c.stderr_file))

abbrev pub pipeline_tokens : List Command → List Lexeme
pipeline_tokens [] = []
pipeline_tokens (c ∷ []) = command_tokens c
pipeline_tokens (c ∷ d ∷ cs) =
    command_tokens c ++ operator pipe (b'|' ∷ []) ∷ pipeline_tokens (d ∷ cs)

abbrev pub conditional_op : Bool → Lexeme
conditional_op true = operator or (b'|' ∷ b'|' ∷ [])
conditional_op false = operator and (b'&' ∷ b'&' ∷ [])

abbrev pub conditional_tokens : List Pipeline → List Lexeme
conditional_tokens [] = []
conditional_tokens (p ∷ []) = pipeline_tokens p.commands
conditional_tokens (p ∷ q ∷ ps) =
    pipeline_tokens p.commands ++ conditional_op p.next_is_or ∷ conditional_tokens (q ∷ ps)

abbrev pub list_op : Bool → Lexeme
list_op true = operator background (b'&' ∷ [])
list_op false = operator sequence (b';' ∷ [])

abbrev pub list_tokens : List Conditional → List Lexeme
list_tokens [] = []
list_tokens (c ∷ []) = conditional_tokens c.pipelines
list_tokens (c ∷ d ∷ cs) =
    conditional_tokens c.pipelines ++ list_op c.is_background ∷ list_tokens (d ∷ cs)

-- A file that is not named has the mode of a new command.
abbrev pub HasMode : Text → OpenMode → Type 0
HasMode [] m = m ≡ truncate
HasMode (c ∷ file) m = Unit {0}

-- A command with no assignment, that is a `cd` if one of its words is.
pub record IsPlain (c : Command) : Type 0 where
  pub cd_is : c.is_cd ≡ mentions_cd c.args
  pub no_definition : c.is_variable_def ≡ false
  pub stdout_named : HasMode c.stdout_file c.stdout_mode
  pub stderr_named : HasMode c.stderr_file c.stderr_mode

-- What the token forms can say: lists are not empty, the last pipeline of a conditional is
-- followed by no operator, and the last conditional does not run in the background.
abbrev pub ArePlain : List Command → Type 0
ArePlain [] = ⊥
ArePlain (c ∷ []) = IsPlain c
ArePlain (c ∷ d ∷ cs) = IsPlain c × ArePlain (d ∷ cs)

abbrev pub IsChain : List Pipeline → Type 0
IsChain [] = ⊥
IsChain (p ∷ []) = ArePlain p.commands × (p.next_is_or ≡ false)
IsChain (p ∷ q ∷ ps) = ArePlain p.commands × IsChain (q ∷ ps)

abbrev pub IsPrintable : List Conditional → Type 0
IsPrintable [] = ⊥
IsPrintable (c ∷ []) = IsChain c.pipelines × (c.is_background ≡ false)
IsPrintable (c ∷ d ∷ cs) = IsChain c.pipelines × IsPrintable (d ∷ cs)

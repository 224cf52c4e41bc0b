-- ===== src/Shell/Examples.antt =====
-- Lines of the shell of pset5, read and parsed.
use cs61_f23_psets_tomkhe.Prelude.{
  ℕ, ◌+◌, ◌*◌, ◌%◌, ◌≤◌, ◌≡◌, refl, ◌≢◌, Bool, true, false, Option, none, some, List, [], ◌∷◌, map,
  arith, length,
}
use cs61_f23_psets_tomkhe.Shell.Lexer.{
  CString, isshellspecial, TokenType, normal, redirect_op, Token, skip_spaces, skip_comment,
  count_digits, read_word, redirect_length, classify, update, begin, unquote, str, tokens,
}
use cs61_f23_psets_tomkhe.Shell.Parser.{
  Text, same_text, append, Command, Pipeline, Conditional, new_command, parse_line,
}
use cs61_f23_psets_tomkhe.Shell.Lexer.Progress.{tokens_total}
use cs61_f23_psets_tomkhe.Shell.Running.{
  System, returned, out_of_fuel, cursor, run_command, subshells, wait_for, next_pipeline,
  next_command, run_current, round, run_loop, run_list,
}
use cs61_f23_psets_tomkhe.Shell.Running.Ending.{run_list-ends}
use cs61_f23_psets_tomkhe.Shell.Parser.Print.{list_tokens, IsPlain, IsPrintable}
use cs61_f23_psets_tomkhe.Shell.Parser.RoundTrip.{parse_line-list_tokens}

-- `a 'b;'>c`
abbrev line : CString
line = b'a' ∷ b' ' ∷ b'\'' ∷ b'b' ∷ b';' ∷ b'\'' ∷ b'>' ∷ b'c' ∷ []

abbrev types : Option (List Token) → List (TokenType × Option (List ℕ))
types none = []
types (some ts) = map (λ t. (t.type, str t)) ts

line_tokens :
    types (tokens 9 (begin line))
    ≡ (normal, some (b'a' ∷ []))
      ∷ (normal, some (b'b' ∷ b';' ∷ []))
      ∷ (redirect_op, some (b'>' ∷ []))
      ∷ (normal, some (b'c' ∷ []))
      ∷ []
unfolding tokens update skip_spaces skip_comment count_digits classify redirect_length read_word
    isshellspecial str unquote
line_tokens = refl

tokens_total_example :
    (ts : List Token) × (tokens (length line + 1) (begin line) ≡ some ts)
    × (length ts ≤ length line)
tokens_total_example = tokens_total line (omega arith)

abbrev one_word : ℕ → Command
one_word c = record new_command { args = (c ∷ []) ∷ [] }

abbrev chain : List Command → Bool → Pipeline
chain cs is_or = record { commands = cs; next_is_or = is_or }

-- `a | b || c & d >> e`
abbrev commands : List Conditional
commands =
    record {
      pipelines =
          chain (one_word b'a' ∷ one_word b'b' ∷ []) true ∷ chain (one_word b'c' ∷ []) false ∷ [];
      is_background = true;
    }
    ∷ record {
      pipelines =
          chain (record (one_word b'd') { stdout_file = b'e' ∷ []; stdout_mode = append } ∷ [])
            false
          ∷ [];
      is_background = false;
    }
    ∷ []

plain : (c : ℕ) → IsPlain (one_word c)
unfolding same_text
plain c = record {
  cd_is = ground arith;
  no_definition = refl;
  stdout_named = refl;
  stderr_named = refl;
}

commands-IsPrintable : IsPrintable commands
unfolding same_text
commands-IsPrintable = (
  ((plain b'a', plain b'b'), (plain b'c', refl)),
  (
    (record { cd_is = refl; no_definition = refl; stdout_named = tt; stderr_named = refl }, refl),
    refl,
  ),
)

parse_line-list_tokens_example :
    parse_line (list_tokens commands) [] ≡ some (record { list = commands; var = [] })
parse_line-list_tokens_example = parse_line-list_tokens commands [] commands-IsPrintable

abbrev name : Text
name = b'x' ∷ []

-- A system that counts: each process has the next number, and an odd one fails.
abbrev counting : System
counting = record {
  Os = ℕ;
  interrupted = λ n. false;
  clear_interrupted = λ n. n;
  fork = λ n. (n, n + 1);
  fork_exec = λ c pgid n. (n, n + 1);
  chdir = λ c n. n;
  errno = λ n. 0;
  close_read_ends = λ p n. n;
  claim_foreground = λ pgid n. n;
  waitpid = λ pid n. (pid, pid % 2 * 256, n);
}

-- `a | b || c & d >> e`: a subshell for the first conditional, and a process for the last command
run_commands : run_list counting 5 commands 7 ≡ returned 9
unfolding run_list run_loop cursor round subshells run_current run_command next_command wait_for
    next_pipeline
run_commands = refl

run_list-ends_example : run_list counting 5 commands 7 ≢ out_of_fuel
run_list-ends_example = run_list-ends counting 5 commands 7 (omega arith)

-- `a | b || c ; d`
abbrev foreground : List Conditional
foreground =
    record {
      pipelines =
          chain (one_word b'a' ∷ one_word b'b' ∷ []) true ∷ chain (one_word b'c' ∷ []) false ∷ [];
      is_background = false;
    }
    ∷ record { pipelines = chain (one_word b'd' ∷ []) false ∷ []; is_background = false }
    ∷ []

-- `b` has an even number, so `c` is skipped
skips_after_success : run_list counting 5 foreground 7 ≡ returned 10
unfolding run_list run_loop cursor round subshells run_current run_command next_command wait_for
    next_pipeline
skips_after_success = refl

runs_after_failure : run_list counting 5 foreground 8 ≡ returned 12
unfolding run_list run_loop cursor round subshells run_current run_command next_command wait_for
    next_pipeline
runs_after_failure = refl

-- ===== src/Shell/Parser/Leads.antt =====
-- Runs of the loop of `parse_line` (pset5/sh61.cc) over parts of a line, and the run over one command.
use cs61_f23_psets_tomkhe.Prelude.{
  ◌≡◌, refl, ap, ◌∙◌, ◌≢◌, true, false, ◌||◌, Option, none, some, List, [], ◌∷◌, ◌++◌, map, arith,
  if◌then◌else◌,
}
use mathlib.Core.Path.{subst}
use mathlib.Core.List.{append-nil, append_assoc}
use cs61_f23_psets_tomkhe.Shell.Lexer.{normal, redirect_op}
use cs61_f23_psets_tomkhe.Shell.Parser.{
  Text, same_text, OpenMode, truncate, append, Command, new_command, Lexeme, Parser, push_arg,
  add_word, redirect, step, parse,
}
use cs61_f23_psets_tomkhe.Shell.Parser.Print.{
  word, operator, cd, mentions_cd, redirect_tokens, stdout_op, stderr_op, command_tokens, HasMode,
  IsPlain,
}

parse-cons :
    (t : Lexeme) (rest : List Lexeme) (p q : Parser)
    → ((following : Option Text) → step t.type t.text following p ≡ some (q, false))
    → parse (t ∷ rest) p ≡ parse rest q
unfolding parse
parse-cons t [] p q h = rw (h none) refl
parse-cons t (u ∷ rest) p q h = rw (h (some u.text), parse) refl

parse-pair :
    (t u : Lexeme) (rest : List Lexeme) (p q : Parser)
    → step t.type t.text (some u.text) p ≡ some (q, true)
    → parse (t ∷ u ∷ rest) p ≡ parse rest q
unfolding parse
parse-pair t u rest p q h = rw (h, parse) refl

-- From `p`, the tokens lead to `q`, but for `prev_word`.
pub record Leads (p : Parser) (ts : List Lexeme) (q : Parser) : Type 0 where
  pub last : Text
  pub runs :
      (rest : List Lexeme) → parse (ts ++ rest) p ≡ parse rest (record q { prev_word = last })

pub Leads-nil : (p : Parser) → Leads p [] p
Leads-nil p = record { last = p.prev_word; runs = λ rest. refl }

pub Leads-append :
    {p q r : Parser} {ts us : List Lexeme}
    → (f : Leads p ts q) → Leads (record q { prev_word = f.last }) us r
    → Leads p (ts ++ us) r
Leads-append {ts} {us} f g = record {
  last = g.last;
  runs = λ rest. rw (append_assoc ts us rest) (f.runs (us ++ rest) ∙ g.runs rest);
}

pub Leads-cons :
    {p q r : Parser} {t : Lexeme} {us : List Lexeme}
    → ((following : Option Text) → step t.type t.text following p ≡ some (q, false))
    → Leads q us r
    → Leads p (t ∷ us) r
Leads-cons {p} {q} {t} {us} h f = record {
  last = f.last;
  runs = λ rest. parse-cons t (us ++ rest) p q h ∙ f.runs rest;
}

-- The target's `prev_word` does not count.
Leads-forget :
    {p : Parser} {ts : List Lexeme} (q : Parser) (w : Text)
    → Leads p ts (record q { prev_word = w })
    → Leads p ts q
Leads-forget q w l = record { last = l.last; runs = l.runs }

abbrev plain_word : Text → Command → Command
plain_word w c = push_arg w (if same_text w cd then record c { is_cd = true } else c)

add_plain : List Text → Command → Command
add_plain [] c = c
add_plain (w ∷ ws) c = add_plain ws (plain_word w c)

word_step :
    (w : Text) (f : Option Text) (p : Parser)
    → p.is_variable ≡ false
    → step normal w f p ≡ some (record p { command = plain_word w p.command; prev_word = w }, false)
unfolding step add_word
word_step w f p h = rw h refl

words-Leads :
    (ws : List Text) (p : Parser)
    → p.is_variable ≡ false
    → Leads p (map word ws) (record p { command = add_plain ws p.command })
unfolding add_plain
words-Leads [] p h = Leads-nil p
words-Leads (w ∷ ws) p h =
    let q : Parser = record p { command = plain_word w p.command; prev_word = w } in
    Leads-cons (λ f. word_step w f p h)
      (Leads-forget (record p { command = add_plain ws (plain_word w p.command) }) w
        (words-Leads ws q h))

redirect-Leads :
    (op file : Text) (p : Parser) (c : Command)
    → (file ≡ [] → c ≡ p.command)
    → (file ≢ [] → redirect op file p.command ≡ c)
    → Leads p (redirect_tokens op file) (record p { command = c })
unfolding redirect_tokens
redirect-Leads op [] p c e ne = rw (e refl) (Leads-nil p)
redirect-Leads op (d ∷ file) p c e ne = record {
  last = p.prev_word;
  runs = λ rest.
      parse-pair (operator redirect_op op) (word (d ∷ file)) rest p (record p { command = c })
        (unfold step in rw (ne (λ z. cc)) refl);
}

add_plain_lem :
    (ws : List Text) (c : Command)
    → add_plain ws c ≡ record c { args = c.args ++ ws; is_cd = c.is_cd || mentions_cd ws }
unfolding add_plain
add_plain_lem [] c = ground (arith, append-nil c.args)
add_plain_lem (w ∷ ws) c =
    ground (arith, add_plain_lem ws (plain_word w c), append_assoc c.args (w ∷ []) ws)

abbrev pub IsFresh : Parser → Type 0
IsFresh p = (p.is_variable ≡ false) × (p.command ≡ new_command)

stdout-redirect :
    (file : Text) (m : OpenMode) (c : Command)
    → redirect (stdout_op m) file c ≡ record c {
      stdout_file = file;
      stdout_mode = elim m [ truncate ↦ c.stdout_mode | append ↦ append ];
    }
unfolding redirect same_text
stdout-redirect file truncate c = refl
stdout-redirect file append c = refl

stderr-redirect :
    (file : Text) (m : OpenMode) (c : Command)
    → redirect (stderr_op m) file c ≡ record c {
      stderr_file = file;
      stderr_mode = elim m [ truncate ↦ c.stderr_mode | append ↦ append ];
    }
unfolding redirect same_text
stderr-redirect file truncate c = refl
stderr-redirect file append c = refl

stage :
    (op file : Text) (p : Parser) (before after : Command)
    → (file ≡ [] → after ≡ before)
    → (file ≢ [] → redirect op file before ≡ after)
    → (w : Text)
    → Leads
        (record p { command = before; prev_word = w })
        (redirect_tokens op file)
        (record p { command = after })
stage op file p before after e ne w =
    Leads-forget (record p { command = after }) w
      (redirect-Leads op file (record p { command = before; prev_word = w }) after e ne)

abbrev with_args : Command → Command
with_args c = record new_command { args = c.args; is_cd = c.is_cd }

abbrev with_stdin : Command → Command
with_stdin c = record (with_args c) { stdin_file = c.stdin_file }

abbrev with_stdout : Command → Command
with_stdout c = record (with_stdin c) { stdout_file = c.stdout_file; stdout_mode = c.stdout_mode }

no_mode : (file : Text) (m : OpenMode) → HasMode file m → file ≡ [] → m ≡ truncate
no_mode [] m h e = h
no_mode (x ∷ file) m h e = cc

args-eq : (c : Command) → IsPlain c → add_plain c.args new_command ≡ with_args c
args-eq c h = add_plain_lem c.args new_command ∙ ground (arith, h.cd_is)

stdout-eq :
    (c : Command) → redirect (stdout_op c.stdout_mode) c.stdout_file (with_stdin c) ≡ with_stdout c
stdout-eq c = stdout-redirect c.stdout_file c.stdout_mode (with_stdin c) ∙ ground arith

stderr-eq :
    (c : Command) → IsPlain c → redirect (stderr_op c.stderr_mode) c.stderr_file (with_stdout c) ≡ c
stderr-eq c h =
    stderr-redirect c.stderr_file c.stderr_mode (with_stdout c) ∙ ground (arith, h.no_definition)

pub command-Leads :
    (c : Command) (p : Parser)
    → IsPlain c
    → IsFresh p
    → Leads p (command_tokens c) (record p { command = c })
command-Leads c p h f = Leads-append args_read (
    Leads-append stdin_read (
      Leads-append stdout_read (
        stage (stderr_op c.stderr_mode) c.stderr_file p (with_stdout c) c
          (λ e.
            ground (arith, h.no_definition, no_mode c.stderr_file c.stderr_mode h.stderr_named e))
          (λ ne. stderr-eq c h) stdout_read.last)))
  where
    args_read : Leads p (map word c.args) (record p { command = with_args c })
    args_read =
        subst (λ a. Leads p (map word c.args) (record p { command = a }))
          (ap (add_plain c.args) f.1 ∙ args-eq c h) (words-Leads c.args p f.0)

    stdin_read :
        Leads
          (record p { command = with_args c; prev_word = args_read.last })
          (redirect_tokens (b'<' ∷ []) c.stdin_file)
          (record p { command = with_stdin c })
    stdin_read =
        stage (b'<' ∷ []) c.stdin_file p (with_args c) (with_stdin c) (λ e. ground arith)
          (λ ne. unfold redirect same_text in refl) args_read.last

    stdout_read :
        Leads
          (record p { command = with_stdin c; prev_word = stdin_read.last })
          (redirect_tokens (stdout_op c.stdout_mode) c.stdout_file)
          (record p { command = with_stdout c })
    stdout_read =
        stage (stdout_op c.stdout_mode) c.stdout_file p (with_stdin c) (with_stdout c)
          (λ e. ground (arith, no_mode c.stdout_file c.stdout_mode h.stdout_named e))
          (λ ne. stdout-eq c) stdin_read.last

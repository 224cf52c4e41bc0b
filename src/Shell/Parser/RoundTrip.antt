-- ===== src/Shell/Parser/RoundTrip.antt =====
-- `parse_line` of pset5/sh61.cc reads back every list of commands that tokens can say.
use cs61_f23_psets_tomkhe.Prelude.{
  ◌≡◌, refl, ap, ◌∙◌, Bool, true, false, Option, some, List, [], ◌∷◌, ◌++◌, arith,
}
use mathlib.Core.List.{append-nil, append_assoc}
use cs61_f23_psets_tomkhe.Shell.Lexer.{pipe}
use cs61_f23_psets_tomkhe.Shell.Parser.{
  Text, Command, Pipeline, Conditional, Parser, start, this_pipeline, this_conditional,
  new_conditional, new_pipeline, next_command, step, parse, parse_line,
}
use cs61_f23_psets_tomkhe.Shell.Parser.Print.{
  pipeline_tokens, conditional_op, conditional_tokens, list_op, list_tokens, ArePlain, IsChain,
  IsPrintable,
}
use cs61_f23_psets_tomkhe.Shell.Parser.Leads.{
  Leads, Leads-append, Leads-cons, command-Leads, IsFresh,
}

pipe_step :
    (f : Option Text) (p : Parser) → step pipe (b'|' ∷ []) f p ≡ some (next_command p, false)
unfolding step
pipe_step f p = refl

conditional_step :
    (b : Bool) (f : Option Text) (p : Parser)
    → step (conditional_op b).type (conditional_op b).text f p ≡ some (new_pipeline b p, false)
unfolding step
conditional_step true f p = refl
conditional_step false f p = refl

list_step :
    (b : Bool) (f : Option Text) (p : Parser)
    → step (list_op b).type (list_op b).text f p ≡ some (new_conditional b p, false)
unfolding step
list_step true f p = refl
list_step false f p = refl

-- The state behind the tokens of a pipeline of `cs`, from the state at its start.
record PipelineEnd (cs : List Command) (p q : Parser) : Type 0 where
  commands_are : q.commands ++ (q.command ∷ []) ≡ p.commands ++ cs
  pipelines_are : q.pipelines ≡ p.pipelines
  conditionals_are : q.conditionals ≡ p.conditionals
  plain : q.is_variable ≡ false
  var_is : q.var ≡ p.var

pipeline-Leads :
    (cs : List Command) (p : Parser)
    → ArePlain cs
    → IsFresh p
    → (q : Parser) × Leads p (pipeline_tokens cs) q × PipelineEnd cs p q
pipeline-Leads [] p h f = absurd h
pipeline-Leads (c ∷ []) p h f = (
  record p { command = c },
  command-Leads c p h f,
  record {
    commands_are = refl;
    pipelines_are = refl;
    conditionals_are = refl;
    plain = f.0;
    var_is = refl;
  },
)
pipeline-Leads (c ∷ d ∷ cs) p h f =
    let first = command-Leads c p h.0 f in
    let piped = next_command (record p { command = c; prev_word = first.last }) in
    let (q, l, e) = pipeline-Leads (d ∷ cs) piped h.1 (f.0, refl) in
    (
      q,
      Leads-append first (Leads-cons (λ following. pipe_step following _) l),
      record {
        commands_are = e.commands_are ∙ append_assoc p.commands (c ∷ []) (d ∷ cs);
        pipelines_are = e.pipelines_are;
        conditionals_are = e.conditionals_are;
        plain = e.plain;
        var_is = e.var_is;
      },
    )

-- The state behind the tokens of a conditional of the pipelines `ps`.
record ChainEnd (ps : List Pipeline) (p q : Parser) : Type 0 where
  pipelines_are : this_pipeline false q ≡ p.pipelines ++ ps
  conditionals_are : q.conditionals ≡ p.conditionals
  plain : q.is_variable ≡ false
  var_is : q.var ≡ p.var

this_pipeline-eq :
    (b : Bool) (x : Pipeline) (p q : Parser)
    → PipelineEnd x.commands p q
    → p.commands ≡ []
    → x.next_is_or ≡ b
    → this_pipeline b q ≡ p.pipelines ++ (x ∷ [])
this_pipeline-eq b x p q e z n = ground (arith, e.commands_are, e.pipelines_are)

chain-Leads :
    (ps : List Pipeline) (p : Parser)
    → IsChain ps
    → IsFresh p
    → p.commands ≡ []
    → (q : Parser) × Leads p (conditional_tokens ps) q × ChainEnd ps p q
chain-Leads [] p h f z = absurd h
chain-Leads (x ∷ []) p h f z =
    let (q, l, e) = pipeline-Leads x.commands p h.0 f in
    (
      q,
      l,
      record {
        pipelines_are = this_pipeline-eq false x p q e z h.1;
        conditionals_are = e.conditionals_are;
        plain = e.plain;
        var_is = e.var_is;
      },
    )
chain-Leads (x ∷ y ∷ ps) p h f z =
    let (q, l, e) = pipeline-Leads x.commands p h.0 f in
    let joined = new_pipeline x.next_is_or (record q { prev_word = l.last }) in
    let (r, m, g) = chain-Leads (y ∷ ps) joined h.1 (e.plain, refl) refl in
    (
      r,
      Leads-append l (Leads-cons (λ following. conditional_step x.next_is_or following _) m),
      record {
        pipelines_are =
            g.pipelines_are
            ∙ ap (λ ks. ks ++ (y ∷ ps)) (this_pipeline-eq x.next_is_or x p q e z refl)
            ∙ append_assoc p.pipelines (x ∷ []) (y ∷ ps);
        conditionals_are = g.conditionals_are ∙ e.conditionals_are;
        plain = g.plain;
        var_is = g.var_is ∙ e.var_is;
      },
    )

this_conditional-eq :
    (b : Bool) (x : Conditional) (p q : Parser)
    → ChainEnd x.pipelines p q
    → p.pipelines ≡ []
    → x.is_background ≡ b
    → this_conditional b q ≡ p.conditionals ++ (x ∷ [])
this_conditional-eq b x p q e z n = ground (arith, e.pipelines_are, e.conditionals_are)

list-Leads :
    (cs : List Conditional) (p : Parser)
    → IsPrintable cs
    → IsFresh p
    → p.commands ≡ []
    → p.pipelines ≡ []
    → (q : Parser) × Leads p (list_tokens cs) q
      × (this_conditional false q ≡ p.conditionals ++ cs)
      × (q.var ≡ p.var)
list-Leads [] p h f z y = absurd h
list-Leads (c ∷ []) p h f z y =
    let (q, l, e) = chain-Leads c.pipelines p h.0 f z in
    (q, l, this_conditional-eq false c p q e y h.1, e.var_is)
list-Leads (c ∷ d ∷ cs) p h f z y =
    let (q, l, e) = chain-Leads c.pipelines p h.0 f z in
    let closed = new_conditional c.is_background (record q { prev_word = l.last }) in
    let (r, m, g, v) = list-Leads (d ∷ cs) closed h.1 (e.plain, refl) refl refl in
    (
      r,
      Leads-append l (Leads-cons (λ following. list_step c.is_background following _) m),
      g
          ∙ ap (λ ks. ks ++ (d ∷ cs)) (this_conditional-eq c.is_background c p q e y refl)
          ∙ append_assoc p.conditionals (c ∷ []) (d ∷ cs),
      v ∙ e.var_is,
    )

-- Every list of conditionals that tokens can say, with pipes, `&&` and `||`, `;` and `&`, words
-- and redirections to files, is read back by `parse_line` from its tokens, and no variable changes.
pub parse_line-list_tokens :
    (cs : List Conditional) (var : List (Text × Text))
    → IsPrintable cs
    → parse_line (list_tokens cs) var ≡ some (record { list = cs; var = var })
unfolding parse_line
parse_line-list_tokens cs var h =
    let (q, l, e, v) = list-Leads cs (start var) h (refl, refl) refl refl in
    rw (← append-nil (list_tokens cs)) (l.runs [] ∙ unfold parse in ground (arith, e, v))

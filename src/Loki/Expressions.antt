-- ===== src/Loki/Expressions.antt =====
-- acceptor/lokiacceptor/logqlparse.go behind dispatcher/lokidispatcher/logql.go: the parser at the text
-- of an aggregation.
use opentelemetry_querier.Base.{
  ℕ, zero, suc, ◌≤◌, ℤ, String, true, false, ◌&&◌, none, some, List, [], ◌∷◌, is_nil, length, ◌<>◌,
  if◌then◌else◌, ◌≡◌, refl, sym, ◌∙◌, arith,
}
use opentelemetry_querier.Qerror.{ok, ◌>>=◌, found_or}
use opentelemetry_querier.Golib.{Strconv, Unicode}
use opentelemetry_querier.Golib.Literals.{StrconvLaws, UnicodeLaws}
use opentelemetry_querier.Qdata.Plan.{
  Float, TimeAggOp, AggOp, Node, nil, empty, select, time_agg, aggregate, function, binary, literal,
}
use opentelemetry_querier.Loki.Scan.{
  Token, ident, str, number, punct, match_op, line_op, lbrace, rbrace, comma, lparen, rparen,
  lbracket, rbracket, tokenize,
}
use opentelemetry_querier.Loki.Scan as Scan
use opentelemetry_querier.Loki.Render.{
  render_select, render_node, time_agg_func, agg_func, grouping_clause, aggregation, logql_duration,
}
use opentelemetry_querier.Loki.Parse.{Tokens, range_agg_op, vector_agg_op, is_select, parse_expr}
use opentelemetry_querier.Loki.Pieces.{Lexes, Lexes-append, Lexes-punct, Lexes-name}
use opentelemetry_querier.Loki.Canonical.{
  ordered_select, is_window, is_quantile, plain_param, is_metric, canonical,
}
use opentelemetry_querier.Qerror.Steps.{bind-ok, ok-injective}
use opentelemetry_querier.Loki.Selectors.{ends, select-Reads}
use opentelemetry_querier.Loki.Durations.{duration-Window}
use opentelemetry_querier.Loki.Groupings.{Grouping, clause_read}
use opentelemetry_querier.Loki.Arguments.{
  range_func, vector_func, func_found, expr_range, expr_vector, read_range, Lexes-range,
  param_tokens, param_size, read_vector, Lexes-arguments,
}

-- how often the parser calls itself
unfoldable pub depth : Node → ℕ
depth (aggregate op by without param n) = suc (depth n)
depth _ = 0

module _ (lib : Strconv) (u : Unicode) (laws : UnicodeLaws u) (slaws : StrconvLaws lib) where
  -- The text of a node: its tokens, as many as the parser calls itself at least, and how it is read.
  unfoldable pub Expression : Node → String → Type 0
  Expression n text =
      (f : Tokens → Tokens) × Lexes lib u laws text f
      × ((ts : Tokens) → depth n ≤ length (f ts))
      × ((fuel : ℕ) (ts : Tokens)
          → depth n ≤ fuel
          → ends ts ≡ true
          → parse_expr lib u (suc fuel) (f ts) ≡ Scan.ok (canonical lib n, ts))

  range-Expression :
      (op : TimeAggOp) (w : ℤ) (n : Node) (text : String)
      → (is_select n && is_window w) ≡ true
      → render_node lib (time_agg op w n) ≡ ok text
      → Expression (time_agg op w n) text
  unfolding render_node Expression depth canonical
  range-Expression op w nil text h e = cc
  range-Expression op w empty text h e = cc
  range-Expression op w (select s) text h e =
      let (name, hn, e') =
        bind-ok (found_or "lokidispatcher: unsupported log-range function" (time_agg_func op))
          (λ name. render_select lib s >>= λ i.
            ok (name <> ("(" <> (i <> ("[" <> (logql_duration lib w <> "])"))))))
          text e in
      let (input, hi, e'') =
        bind-ok (render_select lib s)
          (λ i. ok (name <> ("(" <> (i <> ("[" <> (logql_duration lib w <> "])")))))) text e' in
      let (valid, known) =
        range_func op name (
          func_found "lokidispatcher: unsupported log-range function" name (time_agg_func op) hn) in
      let (f, lf, rf) = select-Reads lib u laws slaws s input hi in
      let (lw, rw') = duration-Window lib u laws slaws w (ground arith) in
      rw
        (sym (
          ok-injective (name <> ("(" <> (input <> ("[" <> (logql_duration lib w <> "])"))))) text
            e''))
        (
          λ ts.
              ident name
              ∷ punct lparen
              ∷ f (
                  punct lbracket
                  ∷ number (logql_duration lib w)
                  ∷ punct rbracket
                  ∷ punct rparen
                  ∷ ts),
          Lexes-range lib u laws slaws name input (logql_duration lib w) f valid lf lw,
          λ ts. omega arith,
          λ fuel ts le en.
              expr_range lib u laws slaws fuel name op
                (punct lparen
                  ∷ f (
                      punct lbracket
                      ∷ number (logql_duration lib w)
                      ∷ punct rbracket
                      ∷ punct rparen
                      ∷ ts))
                known
              ∙ (read_range lib u laws slaws op w (select (ordered_select lib s))
                  (logql_duration lib w) f ts rf (rw' (punct rbracket ∷ punct rparen ∷ ts))),
        )
  range-Expression op w (time_agg op' w' n) text h e = cc
  range-Expression op w (aggregate op' by without param n) text h e = cc
  range-Expression op w (function name args strings) text h e = cc
  range-Expression op w (binary op' l r m) text h e = cc
  range-Expression op w (literal v) text h e = cc

  metric-no_select : (n : Node) → is_metric lib n ≡ true → is_select (canonical lib n) ≡ false
  unfolding is_metric canonical
  metric-no_select (time_agg op w n) h = refl
  metric-no_select (aggregate op by without param n) h = refl
  metric-no_select nil h = cc
  metric-no_select empty h = cc
  metric-no_select (select s) h = cc
  metric-no_select (function name args strings) h = cc
  metric-no_select (binary op l r m) h = cc
  metric-no_select (literal v) h = cc

  vector_read :
      (fuel : ℕ) (op : AggOp) (by without : List String) (param : Float) (n : Node)
      (name grouping : String) (f : Tokens → Tokens) (ts : Tokens)
      → (gr : Grouping lib u laws by (if is_nil by then without else []) grouping)
      → plain_param lib op param ≡ true
      → range_agg_op name ≡ none
      → vector_agg_op name ≡ some op
      → is_select (canonical lib n) ≡ false
      → ends ts ≡ true
      → suc (depth n) ≤ fuel
      → ((fuel' : ℕ) (ts' : Tokens)
          → depth n ≤ fuel'
          → ends ts' ≡ true
          → parse_expr lib u (suc fuel') (f ts') ≡ Scan.ok (canonical lib n, ts'))
      → parse_expr lib u (suc fuel) (
          ident name
          ∷ gr.0 (punct lparen ∷ param_tokens lib u laws slaws op param (f (punct rparen ∷ ts))))
        ≡ Scan.ok (canonical lib (aggregate op by without param n), ts)
  unfolding canonical
  vector_read zero op by without param n name grouping f ts gr pp nr known ns en le rf =
      ground arith
  vector_read (suc fuel) op by without param n name grouping f ts gr pp nr known ns en le rf =
      expr_vector lib u laws slaws (suc fuel) name op
        (gr.0 (punct lparen ∷ param_tokens lib u laws slaws op param (f (punct rparen ∷ ts)))) nr
        known
      ∙ read_vector lib u laws slaws (parse_expr lib u (suc fuel)) op by
          (if is_nil by then without else []) param (canonical lib n) grouping f ts gr pp
          (rf fuel (punct rparen ∷ ts) (omega arith) refl) ns en

  vector-Expression :
      (op : AggOp) (by without : List String) (param : Float) (n : Node) (text : String)
      → is_quantile op ≡ false
      → plain_param lib op param ≡ true
      → is_metric lib n ≡ true
      → ((input : String) → render_node lib n ≡ ok input → Expression n input)
      → render_node lib (aggregate op by without param n) ≡ ok text
      → Expression (aggregate op by without param n) text
  unfolding render_node Expression depth canonical
  vector-Expression op by without param n text q pp m ih e =
      let (name, hn, e1) =
        bind-ok (found_or "lokidispatcher: unsupported aggregation" (agg_func op))
          (λ name. render_node lib n >>= λ i.
            grouping_clause by without >>= λ g. ok (aggregation lib op param name g i))
          text e in
      let (input, hi, e2) =
        bind-ok (render_node lib n)
          (λ i. grouping_clause by without >>= λ g. ok (aggregation lib op param name g i)) text
          e1 in
      let (grouping, hg, e3) =
        bind-ok (grouping_clause by without) (λ g. ok (aggregation lib op param name g input)) text
          e2 in
      let (valid, no_range, known, same) =
        vector_func op name
          (func_found "lokidispatcher: unsupported aggregation" name (agg_func op) hn) q in
      let (f, lf, df, rf) = ih input hi in
      let (args, ea, la) =
        Lexes-arguments lib u laws slaws op param input f same pp lf name grouping in
      let gr = clause_read lib u laws by without grouping hg in
      let inside =
        Lexes-append lib u laws grouping ("(" <> args) gr.0
          (λ ts. punct lparen ∷ param_tokens lib u laws slaws op param (f (punct rparen ∷ ts))) gr.1
          (λ rest br. refl)
          (Lexes-punct lib u laws lparen args
            (λ ts. param_tokens lib u laws slaws op param (f (punct rparen ∷ ts))) la) in
      rw (sym (sym ea ∙ ok-injective (aggregation lib op param name grouping input) text e3)) (
        λ ts.
            ident name
            ∷ gr.0 (punct lparen ∷ param_tokens lib u laws slaws op param (f (punct rparen ∷ ts))),
        Lexes-append lib u laws name (grouping <> ("(" <> args)) (◌∷◌ (ident name))
            (λ ts.
              gr.0 (punct lparen ∷ param_tokens lib u laws slaws op param (f (punct rparen ∷ ts))))
            (Lexes-name lib u laws name valid) (λ rest br. gr.2 args rest) inside,
        λ ts. omega (
          arith,
          df (punct rparen ∷ ts),
          param_size lib u laws slaws op param (f (punct rparen ∷ ts)),
          gr.4 (punct lparen ∷ param_tokens lib u laws slaws op param (f (punct rparen ∷ ts))),
        ),
        λ fuel ts le en.
            vector_read fuel op by without param n name grouping f ts gr pp no_range known
              (metric-no_select n m) en le rf,
      )

  pub metric-Expression :
      (n : Node) (text : String)
      → is_metric lib n ≡ true
      → render_node lib n ≡ ok text
      → Expression n text
  unfolding is_metric
  metric-Expression (time_agg op w n) text h e = range-Expression op w n text h e
  metric-Expression (aggregate op by without param n) text h e =
      let metric : is_metric lib n ≡ true = ground arith in
      vector-Expression op by without param n text (ground arith) (ground arith) metric
        (λ input. metric-Expression n input metric) e
  metric-Expression nil text h e = cc
  metric-Expression empty text h e = cc
  metric-Expression (select s) text h e = cc
  metric-Expression (function name args strings) text h e = cc
  metric-Expression (binary op l r m) text h e = cc
  metric-Expression (literal v) text h e = cc

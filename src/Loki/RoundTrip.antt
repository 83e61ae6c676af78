-- ===== src/Loki/RoundTrip.antt =====
-- acceptor/lokiacceptor/logqlparse.go behind dispatcher/lokidispatcher/logql.go: what the parser returns
-- for the text that the renderer has written.
use opentelemetry_querier.Base.{ℕ, suc, String, true, [], ◌∷◌, length, ◌≡◌, refl, arith, text-nil}
use mathlib.Core.Path.{subst}
use opentelemetry_querier.Qerror.{ok}
use opentelemetry_querier.Golib.{Strconv, Unicode}
use opentelemetry_querier.Golib.Literals.{StrconvLaws, UnicodeLaws}
use opentelemetry_querier.Qdata.Plan.{
  Select, Node, nil, empty, select, time_agg, aggregate, function, binary, literal, QueryPlan,
  plan_of,
}
use opentelemetry_querier.Loki.Scan.{
  Token, ident, str, number, punct, match_op, line_op, lbrace, rbrace, comma, lparen, rparen,
  lbracket, rbracket, tokenize,
}
use opentelemetry_querier.Loki.Scan as Scan
use opentelemetry_querier.Loki.Render.{render_select, render_node, plan_to_logql}
use opentelemetry_querier.Loki.Parse.{
  Tokens, expect, parse_selector, parse_expr, parse_logql, whole,
}
use opentelemetry_querier.Loki.Lexing.{Scans, done, tokenize-Scans}
use opentelemetry_querier.Loki.Canonical.{ordered_select, is_logql, canonical}
use opentelemetry_querier.Loki.Selectors.{select-Reads}
use opentelemetry_querier.Loki.Expressions.{depth, Expression, metric-Expression}

module _ (lib : Strconv) (u : Unicode) (laws : UnicodeLaws u) (slaws : StrconvLaws lib) where
  -- Only a selector is read by `parse_selector`.
  selector_expr :
      (fuel : ℕ) (ts : Tokens) (x : Node × Tokens)
      → parse_selector ts ≡ Scan.ok x
      → parse_expr lib u (suc fuel) ts ≡ Scan.ok x
  unfolding parse_expr parse_selector expect
  selector_expr fuel [] x h = cc
  selector_expr fuel (punct lbrace ∷ ts) x h = h
  selector_expr fuel (punct rbrace ∷ ts) x h = cc
  selector_expr fuel (punct lparen ∷ ts) x h = cc
  selector_expr fuel (punct rparen ∷ ts) x h = cc
  selector_expr fuel (punct lbracket ∷ ts) x h = cc
  selector_expr fuel (punct rbracket ∷ ts) x h = cc
  selector_expr fuel (punct comma ∷ ts) x h = cc
  selector_expr fuel (ident s ∷ ts) x h = cc
  selector_expr fuel (number s ∷ ts) x h = cc
  selector_expr fuel (str s ∷ ts) x h = cc
  selector_expr fuel (match_op s ∷ ts) x h = cc
  selector_expr fuel (line_op s ∷ ts) x h = cc

  select-Expression :
      (s : Select) (text : String)
      → render_select lib s ≡ ok text
      → Expression lib u laws slaws (select s) text
  unfolding Expression depth canonical
  select-Expression s text h =
      let (f, lf, rf) = select-Reads lib u laws slaws s text h in
      (
        f,
        lf,
        λ ts. omega arith,
        λ fuel ts le en. selector_expr fuel (f ts) (select (ordered_select lib s), ts) (rf ts en),
      )

  logql-Expression :
      (n : Node) (text : String)
      → is_logql lib n ≡ true
      → render_node lib n ≡ ok text
      → Expression lib u laws slaws n text
  unfolding is_logql render_node
  logql-Expression (select s) text h e = select-Expression s text e
  logql-Expression (time_agg op w n) text h e =
      metric-Expression lib u laws slaws (time_agg op w n) text h e
  logql-Expression (aggregate op by without param n) text h e =
      metric-Expression lib u laws slaws (aggregate op by without param n) text h e
  logql-Expression nil text h e = metric-Expression lib u laws slaws nil text h e
  logql-Expression empty text h e = metric-Expression lib u laws slaws empty text h e
  logql-Expression (function name args strings) text h e =
      metric-Expression lib u laws slaws (function name args strings) text h e
  logql-Expression (binary op l r m) text h e =
      metric-Expression lib u laws slaws (binary op l r m) text h e
  logql-Expression (literal v) text h e = metric-Expression lib u laws slaws (literal v) text h e

  Expression-parse_logql :
      (n : Node) (text : String)
      → Expression lib u laws slaws n text
      → parse_logql lib u text ≡ Scan.ok (plan_of (canonical lib n))
  unfolding parse_logql whole Expression
  Expression-parse_logql n text (f, lf, df, rf) =
      let scans = subst (λ t. Scans lib u t (f [])) (text-nil text) (lf "" [] refl done) in
      rw (tokenize-Scans lib u text (f []) scans) (rw (rf (length (f [])) [] (df []) refl) refl)

  pub parse_logql-plan_to_logql :
      (plan : QueryPlan) (text : String)
      → is_logql lib plan.root ≡ true
      → plan_to_logql lib plan ≡ ok text
      → parse_logql lib u text ≡ Scan.ok (plan_of (canonical lib plan.root))
  unfolding plan_to_logql
  parse_logql-plan_to_logql plan text h e =
      Expression-parse_logql plan.root text (logql-Expression plan.root text h e)

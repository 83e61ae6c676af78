-- ===== src/Loki/Termination.antt =====
-- acceptor/lokiacceptor/logqlparse.go, the parser: what its functions leave of the tokens, and that it
-- ends.
use opentelemetry_querier.Base.{
  ℕ, zero, suc, ◌≤◌, String, ◌||◌, Option, none, some, List, [], ◌∷◌, length, ℤ, ◌==◌,
  if◌then◌else◌, ◌≢◌, arith,
}
use Prim.Native.Char.{code}
use opentelemetry_querier.Golib.{Strconv, Unicode}
use opentelemetry_querier.Qdata.Plan.{Float, Node, AggOp, TimeAggOp}
use opentelemetry_querier.Loki.Scan.{
  Run, syntax, duration, ok, failed, out_of_fuel, ident, str, number, punct, match_op, line_op,
  comma, lparen, rparen, lbrace, rbrace, lbracket, rbracket, tokenize,
}
use opentelemetry_querier.Loki.Parse.{
  Tokens, is_grouping, takes_param, split_last, one_day, one_week, range_agg_op, vector_agg_op,
  duration_of, parse_labels, parse_grouping, parse_window, parse_duration_text, parse_range_agg,
  parse_param, parse_late_grouping, parse_vector_agg, parse_expr, parse_logql, whole,
}
use opentelemetry_querier.Loki.Lexing.{tokenize_terminates}
use opentelemetry_querier.Loki.Endings.{
  Bound, bound_ok, bound_failed, Bound-bind, Ends, known-Ends, Bound-if, expect-Bound,
  parse_selector-Ends, parse_labels_size, Bound-Ends, returned, Ends-returns, closing-Ends,
}

-- Behind a grouping there is no token more than before it.
parse_grouping-Bound : (ts : Tokens) → Bound (λ x. length x.2) (length ts) (parse_grouping ts)
unfolding parse_grouping
parse_grouping-Bound [] = bound_ok _ (omega arith)
parse_grouping-Bound (str s ∷ ts) = bound_ok _ (omega arith)
parse_grouping-Bound (number s ∷ ts) = bound_ok _ (omega arith)
parse_grouping-Bound (punct p ∷ ts) = bound_ok _ (omega arith)
parse_grouping-Bound (match_op s ∷ ts) = bound_ok _ (omega arith)
parse_grouping-Bound (line_op s ∷ ts) = bound_ok _ (omega arith)
parse_grouping-Bound (ident word ∷ ts) =
    Bound-if (is_grouping word)
      (Bound-bind (expect-Bound lparen ts) (λ inside h.
        Bound-bind (expect-Bound rparen (parse_labels inside).1)
          (λ rest h'. bound_ok _ (omega (arith, h, h', parse_labels_size inside)))))
      (bound_ok _ (omega arith))

module _ (lib : Strconv) (u : Unicode) where
  duration_of-Ends : (o : Option ℤ) → Ends (duration_of o)
  duration_of-Ends (some d) = bound_ok d (omega arith)
  duration_of-Ends none = bound_failed duration

  scaled-Ends :
      (o : Option Float) (unit : ℤ)
      → Ends {A = ℤ} (elim o [ none ↦ failed duration | some count ↦ ok (lib.scaled count unit) ])
  scaled-Ends (some f) unit = bound_ok _ (omega arith)
  scaled-Ends none unit = bound_failed duration

  duration-Ends : (s : String) → Ends (parse_duration_text lib u s)
  unfolding parse_duration_text
  duration-Ends String.[] = bound_failed duration
  duration-Ends (String.◌∷◌ c s) =
      let (init, last) = split_last c s in
      Bound-if (code last == b'd' || code last == b'w')
        (scaled-Ends (lib.parse_float init) (if code last == b'w' then one_week else one_day))
        (duration_of-Ends (lib.parse_duration (String.◌∷◌ c s)))

  parse_window-Ends : (ts : Tokens) → Ends (parse_window lib u ts)
  unfolding parse_window
  parse_window-Ends [] = bound_failed duration
  parse_window-Ends (ident s ∷ ts) = Bound-bind (duration-Ends s) (λ w h. bound_ok _ (omega arith))
  parse_window-Ends (number s ∷ ts) = Bound-bind (duration-Ends s) (λ w h. bound_ok _ (omega arith))
  parse_window-Ends (str s ∷ ts) = bound_failed duration
  parse_window-Ends (punct p ∷ ts) = bound_failed duration
  parse_window-Ends (match_op s ∷ ts) = bound_failed duration
  parse_window-Ends (line_op s ∷ ts) = bound_failed duration

  parse_range_agg-Ends : (op : TimeAggOp) (ts : Tokens) → Ends (parse_range_agg lib u op ts)
  unfolding parse_range_agg
  parse_range_agg-Ends op ts = Bound-bind (expect-Bound lparen ts) (λ inside h.
      Bound-bind (parse_selector-Ends inside) (λ x h1.
        Bound-bind (expect-Bound lbracket x.1) (λ raw h2.
          Bound-bind (parse_window-Ends raw) (λ y h3.
            Bound-bind (expect-Bound rbracket y.1) (λ behind h4.
              Bound-bind (expect-Bound rparen behind) (λ rest h5. bound_ok _ (omega arith)))))))

  parse_param-Bound :
      (op : AggOp) (ts : Tokens) → Bound (λ x. length x.1) (length ts) (parse_param lib u op ts)
  unfolding parse_param
  parse_param-Bound op [] = bound_ok _ (omega arith)
  parse_param-Bound op (ident s ∷ ts) = bound_ok _ (omega arith)
  parse_param-Bound op (str s ∷ ts) = bound_ok _ (omega arith)
  parse_param-Bound op (punct p ∷ ts) = bound_ok _ (omega arith)
  parse_param-Bound op (match_op s ∷ ts) = bound_ok _ (omega arith)
  parse_param-Bound op (line_op s ∷ ts) = bound_ok _ (omega arith)
  parse_param-Bound op (number raw ∷ ts) =
      Bound-if (takes_param op)
        (Bound-bind (known-Ends (lib.parse_float raw)) (λ param h.
          Bound-bind (expect-Bound comma ts) (λ rest h'. bound_ok _ (omega (arith, h')))))
        (bound_ok _ (omega arith))

  late-Ends :
      (by without : List String) (ts : Tokens) → Ends (parse_late_grouping lib u by without ts)
  unfolding parse_late_grouping
  late-Ends [] [] ts = Bound-Ends (parse_grouping-Bound ts)
  late-Ends (b ∷ by) without ts = bound_ok _ (omega arith)
  late-Ends [] (w ∷ without) ts = bound_ok _ (omega arith)

  parse_vector_agg-Ends :
      (inner : Tokens → Run (Node × Tokens)) (op : AggOp) (ts : Tokens)
      → ((ts' : Tokens) → suc (length ts') ≤ length ts → Ends (inner ts'))
      → Ends (parse_vector_agg lib u inner op ts)
  unfolding parse_vector_agg
  parse_vector_agg-Ends inner op ts h = Bound-bind (parse_grouping-Bound ts) (λ g h1.
      Bound-bind (expect-Bound lparen g.2) (λ inside h2.
        Bound-bind (parse_param-Bound op inside) (λ x h3.
          Bound-bind (h x.1 (omega (arith, h1, h2, h3))) (λ y h4.
            Bound-bind (closing-Ends y.0 y.1) (λ behind h5.
              Bound-bind (late-Ends g.0 g.1 behind) (λ z h6. bound_ok _ (omega arith)))))))

  choice-Ends :
      (o : Option TimeAggOp) (p : Option AggOp) (r : TimeAggOp → Run (Node × Tokens))
      (v : AggOp → Run (Node × Tokens))
      → ((op : TimeAggOp) → Ends (r op))
      → ((op : AggOp) → Ends (v op))
      → Ends {A = Node × Tokens}
          (elim o [ some op ↦ r op | none ↦ elim p [ some op ↦ v op | none ↦ failed syntax ] ])
  choice-Ends (some op) p r v h k = h op
  choice-Ends none (some op) r v h k = k op
  choice-Ends none none r v h k = bound_failed syntax

  parse_expr-Ends :
      (fuel : ℕ) (ts : Tokens) → suc (length ts) ≤ fuel → Ends (parse_expr lib u fuel ts)
  unfolding parse_expr
  parse_expr-Ends zero ts le = absurd (omega (arith, le))
  parse_expr-Ends (suc fuel) [] le = bound_failed syntax
  parse_expr-Ends (suc fuel) (punct lbrace ∷ ts) le = parse_selector-Ends (punct lbrace ∷ ts)
  parse_expr-Ends (suc fuel) (ident word ∷ ts) le =
      choice-Ends (range_agg_op word) (vector_agg_op word) (λ op. parse_range_agg lib u op ts)
        (λ op. parse_vector_agg lib u (parse_expr lib u fuel) op ts)
        (λ op. parse_range_agg-Ends op ts)
        (λ op.
          parse_vector_agg-Ends (parse_expr lib u fuel) op ts
            (λ ts' le'. parse_expr-Ends fuel ts' (omega (arith, le, le'))))
  parse_expr-Ends (suc fuel) (str s ∷ ts) le = bound_failed syntax
  parse_expr-Ends (suc fuel) (number s ∷ ts) le = bound_failed syntax
  parse_expr-Ends (suc fuel) (match_op s ∷ ts) le = bound_failed syntax
  parse_expr-Ends (suc fuel) (line_op s ∷ ts) le = bound_failed syntax
  parse_expr-Ends (suc fuel) (punct rbrace ∷ ts) le = bound_failed syntax
  parse_expr-Ends (suc fuel) (punct lparen ∷ ts) le = bound_failed syntax
  parse_expr-Ends (suc fuel) (punct rparen ∷ ts) le = bound_failed syntax
  parse_expr-Ends (suc fuel) (punct lbracket ∷ ts) le = bound_failed syntax
  parse_expr-Ends (suc fuel) (punct rbracket ∷ ts) le = bound_failed syntax
  parse_expr-Ends (suc fuel) (punct comma ∷ ts) le = bound_failed syntax

  whole-Ends : (n : Node) (ts : Tokens) → Ends (whole lib u n ts)
  unfolding whole
  whole-Ends n [] = bound_ok _ (omega arith)
  whole-Ends n (t ∷ ts) = bound_failed syntax

  tokenize-Ends : (s : String) → Ends (tokenize lib u s)
  tokenize-Ends s = returned (tokenize lib u s) (tokenize_terminates lib u s)

  -- The parser ends within its fuel, on every text.
  pub parse_logql_terminates : (s : String) → parse_logql lib u s ≢ out_of_fuel
  unfolding parse_logql
  parse_logql_terminates s = Ends-returns (
      Bound-bind (tokenize-Ends s) (λ tokens h.
        Bound-bind (parse_expr-Ends (suc (length tokens)) tokens (omega arith))
          (λ x h'. whole-Ends x.0 x.1)))

-- ===== src/Loki/Parse.antt =====
-- acceptor/lokiacceptor/logqlparse.go, the parser. What `peek` sees is the head of the list of
-- tokens that are left, and the empty list is the token at the end of the input.
mod Operators
unfoldable pub use Operators.*
use opentelemetry_querier.Base.{
  ℕ, zero, suc, ◌*◌, ℤ, pos, String, Bool, true, false, ◌&&◌, ◌||◌, Option, none, some, List, [],
  ◌∷◌, ◌==◌, length, is_nil, str_eq, if◌then◌else◌,
}
use Prim.Native.Char.{Char, code}
use opentelemetry_querier.Golib.{Strconv, Unicode, second}
use opentelemetry_querier.Qdata.Predicate.{
  MatchOp, equal, not_equal, regexp, not_regexp, Predicate, BoolOp, leaf_predicate, bool_predicate,
}
use opentelemetry_querier.Qdata.Plan.{
  Float, LineMatch, TimeAggOp, AggOp, Node, select, time_agg, aggregate, QueryPlan, plan_of,
  signal_logs,
}
use opentelemetry_querier.Loki.Scan.{
  syntax, duration, empty_selector, Run, ok, failed, out_of_fuel, ◌>>=◌, Punct, lbrace, rbrace,
  lparen, rparen, lbracket, rbracket, comma, Token, ident, str, number, punct, match_op, line_op,
  tokenize,
}

abbrev pub Tokens : Type 0
Tokens = List Token

abbrev pub same : Punct → Punct → Bool
same lbrace lbrace = true
same rbrace rbrace = true
same lparen lparen = true
same rparen rparen = true
same lbracket lbracket = true
same rbracket rbracket = true
same comma comma = true
same _ _ = false

-- `expect`: the tokens behind the expected one
unfoldable pub expect : Punct → Tokens → Run Tokens
expect p (punct q ∷ ts) = if same q p then ok ts else failed syntax
expect p ts = failed syntax

-- an operator's meaning, or the error for an unknown one
abbrev pub known {ℓ} : {A : Type ℓ} → Option A → Run A
known (some a) = ok a
known none = failed syntax

abbrev pub leaf_of : String → MatchOp → String → Predicate
leaf_of name op value = leaf_predicate (record { name = name; op = op; value = value })

-- `parseMatchers`
unfoldable pub parse_matchers : Tokens → Run (List Predicate × Tokens)
unfolding match_op_of
parse_matchers (ident name ∷ match_op o ∷ str value ∷ punct comma ∷ ts) =
    let more = parse_matchers ts in
    do op ← known (match_op_of o); (leaves, rest) ← more; ok (leaf_of name op value ∷ leaves, rest)
parse_matchers (ident name ∷ match_op o ∷ str value ∷ ts) = do
  op ← known (match_op_of o)
  ok (leaf_of name op value ∷ [], ts)
parse_matchers (ident name ∷ ts) = failed syntax
parse_matchers ts = ok ([], ts)

abbrev pub line_of : MatchOp → String → LineMatch
line_of op value = record { op = op; value = value }

-- `parseLineFilters`
unfoldable pub parse_lines : Tokens → Run (List LineMatch × Tokens)
unfolding line_op_of is_line_negation
parse_lines (line_op o ∷ str value ∷ ts) =
    let more = parse_lines ts in
    do op ← known (line_op_of o); (lines, rest) ← more; ok (line_of op value ∷ lines, rest)
parse_lines (line_op o ∷ ts) = failed syntax
parse_lines (match_op o ∷ str value ∷ ts) =
    let more = parse_lines ts in
    if is_line_negation o
    then (do op ← known (line_op_of o); (lines, rest) ← more; ok (line_of op value ∷ lines, rest))
    else ok ([], match_op o ∷ str value ∷ ts)
parse_lines (match_op o ∷ ts) =
    if is_line_negation o then failed syntax else ok ([], match_op o ∷ ts)
parse_lines ts = ok ([], ts)

-- the filter of the leaves, of which there is one at least
unfoldable pub filter_of : Predicate → List Predicate → Predicate
filter_of p [] = p
filter_of p (p' ∷ ps) = bool_predicate BoolOp.conj (p ∷ p' ∷ ps)

-- the end of `parseLogSelector`, behind the brace
unfoldable pub select_of : List Predicate → Tokens → Run (Node × Tokens)
unfolding parse_lines filter_of
select_of [] ts = failed empty_selector
select_of (p ∷ ps) ts = do
  (lines, rest) ← parse_lines ts
  ok (select (record { signal = signal_logs; filter = filter_of p ps; line = lines }), rest)

-- `parseLogSelector`
unfoldable pub parse_selector : Tokens → Run (Node × Tokens)
unfolding expect parse_matchers select_of
parse_selector ts = do
  inside ← expect lbrace ts
  (leaves, after) ← parse_matchers inside
  behind ← expect rbrace after
  select_of leaves behind

-- the loop of `parseGroupingOpt`: the labels, each with the comma behind it if there is one
unfoldable pub parse_labels : Tokens → List String × Tokens
parse_labels (ident l ∷ punct comma ∷ ts) =
    let (labels, rest) = parse_labels ts in (l ∷ labels, rest)
parse_labels (ident l ∷ ts) = let (labels, rest) = parse_labels ts in (l ∷ labels, rest)
parse_labels ts = ([], ts)

abbrev pub is_grouping : String → Bool
is_grouping s = str_eq s "by" || str_eq s "without"

-- `parseGroupingOpt`: the labels of `by`, those of `without`, and the rest. No labels are nil.
unfoldable pub parse_grouping : Tokens → Run (List String × List String × Tokens)
unfolding expect parse_labels
parse_grouping (ident word ∷ ts) =
    if is_grouping word
    then (do
      inside ← expect lparen ts
      rest ← expect rparen (parse_labels inside).1
      ok (
        if str_eq word "without" then [] else (parse_labels inside).0,
        if str_eq word "without" then (parse_labels inside).0 else [],
        rest,
      ))
    else ok ([], [], ident word ∷ ts)
parse_grouping ts = ok ([], [], ts)

-- the units that time.ParseDuration lacks
abbrev pub one_day : ℤ
one_day = pos (24 * (3600 * second))

abbrev pub one_week : ℤ
one_week = pos (7 * (24 * (3600 * second)))

-- the text but its last character, and that character
unfoldable pub split_last : Char → String → String × Char
split_last c String.[] = ("", c)
split_last c (String.◌∷◌ d s) = let (init, last) = split_last d s in (String.◌∷◌ c init, last)

-- `inner.GetSelect() != nil`
abbrev pub is_select : Node → Bool
is_select (select s) = true
is_select _ = false

abbrev pub duration_of : Option ℤ → Run ℤ
duration_of (some d) = ok d
duration_of none = failed duration

module _ (lib : Strconv) (u : Unicode) where
  -- `parseLogQLDuration`, of a token, which is not empty
  unfoldable pub parse_duration_text : String → Run ℤ
  unfolding split_last
  parse_duration_text String.[] = failed duration
  parse_duration_text (String.◌∷◌ c s) =
      let (init, last) = split_last c s in
      if code last == b'd' || code last == b'w'
      then (elim (lib.parse_float init) [
        | none ↦ failed duration
        | some count ↦ ok (lib.scaled count (if code last == b'w' then one_week else one_day))
      ])
      else duration_of (lib.parse_duration (String.◌∷◌ c s))

  -- the window of a range aggregation
  unfoldable pub parse_window : Tokens → Run (ℤ × Tokens)
  unfolding parse_duration_text
  parse_window (ident raw ∷ ts) = do window ← parse_duration_text raw; ok (window, ts)
  parse_window (number raw ∷ ts) = do window ← parse_duration_text raw; ok (window, ts)
  parse_window ts = failed duration

  -- `parseRangeAgg`, behind the operator
  unfoldable pub parse_range_agg : TimeAggOp → Tokens → Run (Node × Tokens)
  unfolding expect parse_selector parse_window
  parse_range_agg op ts = do
    inside ← expect lparen ts
    (selector, after) ← parse_selector inside
    raw ← expect lbracket after
    (window, closing) ← parse_window raw
    behind ← expect rbracket closing
    rest ← expect rparen behind
    ok (time_agg op window selector, rest)

  -- `parseAggParam`
  unfoldable pub parse_param : AggOp → Tokens → Run (Float × Tokens)
  unfolding takes_param expect
  parse_param op (number raw ∷ ts) =
      if takes_param op
      then (do param ← known (lib.parse_float raw); rest ← expect comma ts; ok (param, rest))
      else ok (0, number raw ∷ ts)
  parse_param op ts = ok (0, ts)

  -- the grouping behind the parentheses, if there was none before them
  unfoldable pub parse_late_grouping :
      List String → List String → Tokens → Run (List String × List String × Tokens)
  unfolding parse_grouping
  parse_late_grouping by without ts =
      if is_nil by && is_nil without then parse_grouping ts else ok (by, without, ts)

  -- `parseVectorAgg`, behind the operator; `inner` is `parseExpr`
  unfoldable pub parse_vector_agg :
      (Tokens → Run (Node × Tokens)) → AggOp → Tokens → Run (Node × Tokens)
  unfolding parse_grouping expect parse_param parse_late_grouping
  parse_vector_agg inner op ts = do
    (by, without, opening) ← parse_grouping ts
    inside ← expect lparen opening
    (param, body) ← parse_param op inside
    (node, closing) ← inner body
    behind ← (if is_select node then failed syntax else expect rparen closing)
    (by', without', rest) ← parse_late_grouping by without behind
    ok (aggregate op by' without' param node, rest)

  -- `parseExpr`, a call for each unit of fuel
  unfoldable pub parse_expr : ℕ → Tokens → Run (Node × Tokens)
  unfolding parse_selector range_agg_op vector_agg_op parse_range_agg parse_vector_agg
  parse_expr zero ts = out_of_fuel
  parse_expr (suc fuel) (punct lbrace ∷ ts) = parse_selector (punct lbrace ∷ ts)
  parse_expr (suc fuel) (ident word ∷ ts) = elim (range_agg_op word) [
    | some op ↦ parse_range_agg op ts
    | none ↦ elim (vector_agg_op word) [
      | some op ↦ parse_vector_agg (parse_expr fuel) op ts
      | none ↦ failed syntax
    ]
  ]
  parse_expr (suc fuel) ts = failed syntax

  -- the end of `parseLogQL`: nothing is left
  unfoldable pub whole : Node → Tokens → Run QueryPlan
  unfolding plan_of
  whole node [] = ok (plan_of node)
  whole node (t ∷ ts) = failed syntax

  -- `parseLogQL`; each call of the parser has read a token at least.
  unfoldable pub parse_logql : String → Run QueryPlan
  unfolding tokenize parse_expr whole
  parse_logql input = do
    tokens ← tokenize lib u input
    (node, rest) ← parse_expr (suc (length tokens)) tokens
    whole node rest

-- ===== src/Loki/Render.antt =====
-- dispatcher/lokidispatcher/logql.go: a query plan as LogQL text.
use opentelemetry_querier.Base.{
  ℤ, String, Bool, true, false, Option, none, some, List, [], ◌∷◌, ◌==◌, ◌<>◌, sort_texts,
  join_with, map, ◌++◌, if◌then◌else◌,
}
use opentelemetry_querier.Qerror.{Outcome, ok, ◌>>=◌, invalid, found_or}
use opentelemetry_querier.Golib.{Strconv, second, millisecond, divided, divides}
use opentelemetry_querier.Qdata.Identifier.{valid_identifier}
use opentelemetry_querier.Qdata.Predicate.{
  MatchOp, equal, not_equal, regexp, not_regexp, LabelMatcher, flatten_conjunction,
}
use opentelemetry_querier.Qdata.Plan.{
  Float, LineMatch, Select, TimeAggOp, AggOp, BinOp, Node, Nodes, nil, empty, select, time_agg,
  aggregate, function, binary, literal, end, arg, QueryPlan, signal_logs,
}

-- `matchOpSymbol`
unfoldable pub match_op_symbol : MatchOp → Outcome String
match_op_symbol equal = ok "="
match_op_symbol not_equal = ok "!="
match_op_symbol regexp = ok "=~"
match_op_symbol not_regexp = ok "!~"
match_op_symbol (MatchOp.unknown n) = invalid "lokidispatcher: unknown match operator"

-- `lineFilterSymbol`
unfoldable pub line_filter_symbol : MatchOp → Outcome String
line_filter_symbol equal = ok "|="
line_filter_symbol not_equal = ok "!="
line_filter_symbol regexp = ok "|~"
line_filter_symbol not_regexp = ok "!~"
line_filter_symbol (MatchOp.unknown n) = invalid "lokidispatcher: unknown line-filter operator"

-- `timeAggFunc`
unfoldable pub time_agg_func : TimeAggOp → Option String
time_agg_func TimeAggOp.rate = some "rate"
time_agg_func TimeAggOp.count_over_time = some "count_over_time"
time_agg_func TimeAggOp.sum_over_time = some "sum_over_time"
time_agg_func TimeAggOp.avg_over_time = some "avg_over_time"
time_agg_func TimeAggOp.min_over_time = some "min_over_time"
time_agg_func TimeAggOp.max_over_time = some "max_over_time"
time_agg_func _ = none

-- `aggFunc`
unfoldable pub agg_func : AggOp → Option String
agg_func AggOp.sum = some "sum"
agg_func AggOp.avg = some "avg"
agg_func AggOp.min = some "min"
agg_func AggOp.max = some "max"
agg_func AggOp.count = some "count"
agg_func AggOp.quantile = some "quantile"
agg_func AggOp.topk = some "topk"
agg_func AggOp.bottomk = some "bottomk"
agg_func AggOp.stddev = some "stddev"
agg_func AggOp.stdvar = some "stdvar"
agg_func _ = none

-- `aggTakesParam`
unfoldable pub agg_takes_param : AggOp → Bool
agg_takes_param AggOp.quantile = true
agg_takes_param AggOp.topk = true
agg_takes_param AggOp.bottomk = true
agg_takes_param _ = false

-- `binOpSymbol`
unfoldable pub bin_op_symbol : BinOp → Option String
bin_op_symbol BinOp.add = some "+"
bin_op_symbol BinOp.sub = some "-"
bin_op_symbol BinOp.mul = some "*"
bin_op_symbol BinOp.div = some "/"
bin_op_symbol BinOp.modulo = some "%"
bin_op_symbol BinOp.pow = some "^"
bin_op_symbol BinOp.eq = some "=="
bin_op_symbol BinOp.ne = some "!="
bin_op_symbol BinOp.gt = some ">"
bin_op_symbol BinOp.lt = some "<"
bin_op_symbol BinOp.ge = some ">="
bin_op_symbol BinOp.le = some "<="
bin_op_symbol BinOp.and = some "and"
bin_op_symbol BinOp.or = some "or"
bin_op_symbol _ = none

-- `checkIdentifier`
unfoldable pub check_identifier : String → Outcome String
unfolding valid_identifier
check_identifier name =
    if valid_identifier name
    then ok name
    else invalid "lokidispatcher: invalid %s %q: want [a-zA-Z_][a-zA-Z0-9_]*"

-- `checkIdentifiers`
unfoldable pub check_identifiers : List String → Outcome (List String)
unfolding check_identifier
check_identifiers [] = ok []
check_identifiers (name ∷ names) = do
  checked ← check_identifier name
  rest ← check_identifiers names
  ok (checked ∷ rest)

-- `groupingClause`
unfoldable pub grouping_clause : List String → List String → Outcome String
unfolding check_identifiers
grouping_clause (b ∷ by) without = do
  labels ← check_identifiers (b ∷ by)
  ok (" by(" <> (join_with "," labels <> ")"))
grouping_clause [] (w ∷ without) = do
  labels ← check_identifiers (w ∷ without)
  ok (" without(" <> (join_with "," labels <> ")"))
grouping_clause [] [] = ok ""

-- a plan that cannot be rendered with no node
abbrev pub empty_node : Outcome String
empty_node = invalid "lokidispatcher: empty plan node"

module _ (lib : Strconv) where
  -- a matcher of the loop in `renderSelect`
  unfoldable pub render_matcher : LabelMatcher → Outcome String
  unfolding match_op_symbol check_identifier
  render_matcher m = do
    operator ← match_op_symbol m.op
    name ← check_identifier m.name
    ok (name <> (operator <> lib.quote m.value))

  -- the loop over the matchers in `renderSelect`
  unfoldable pub render_matchers : List LabelMatcher → Outcome (List String)
  unfolding render_matcher
  render_matchers [] = ok []
  render_matchers (m ∷ ms) = do
    part ← render_matcher m
    parts ← render_matchers ms
    ok (part ∷ parts)

  -- the loop over the line filters in `renderSelect`: what it writes behind the selector
  unfoldable pub render_lines : List LineMatch → Outcome String
  unfolding line_filter_symbol
  render_lines [] = ok ""
  render_lines (l ∷ ls) = do
    symbol ← line_filter_symbol l.op
    rest ← render_lines ls
    ok (" " <> (symbol <> (" " <> (lib.quote l.value <> rest))))

  -- `renderSelect` behind the flattening of the filter
  unfoldable pub render_stream : Option (List LabelMatcher) → List LineMatch → Outcome String
  unfolding render_matchers render_lines sort_texts join_with
  render_stream none lines =
      invalid "lokidispatcher: a LogQL stream selector cannot express OR/NOT composition"
  render_stream (some []) lines =
      invalid "lokidispatcher: a LogQL stream selector needs at least one matcher"
  render_stream (some (m ∷ ms)) lines = do
    parts ← render_matchers (m ∷ ms)
    filters ← render_lines lines
    ok ("{" <> (join_with "," (sort_texts parts) <> ("}" <> filters)))

  -- `renderSelect`
  unfoldable pub render_select : Select → Outcome String
  unfolding render_stream flatten_conjunction
  render_select sel =
      if sel.signal == signal_logs
      then render_stream (flatten_conjunction (sel.filter ∷ [])) sel.line
      else invalid "lokidispatcher: Loki serves logs, not %s"

  -- `logqlDuration`
  unfoldable pub logql_duration : ℤ → String
  unfolding divided divides
  logql_duration dur =
      if divides second dur
      then lib.of_int (divided dur second) <> "s"
      else lib.of_int (divided dur millisecond) <> "ms"

  -- the text of an aggregation, from its function, its grouping and its input
  unfoldable pub aggregation : AggOp → Float → String → String → String → String
  unfolding agg_takes_param
  aggregation op param name grouping input =
      if agg_takes_param op
      then name <> (grouping <> ("(" <> (lib.of_float param <> (", " <> (input <> ")")))))
      else name <> (grouping <> ("(" <> (input <> ")")))

  -- `renderTimeAgg`, of the text of the input
  unfoldable pub render_time_agg : TimeAggOp → ℤ → Outcome String → Outcome String
  unfolding time_agg_func logql_duration
  render_time_agg op window rendered = do
    name ← found_or "lokidispatcher: unsupported log-range function" (time_agg_func op)
    input ← rendered
    ok (name <> ("(" <> (input <> ("[" <> (logql_duration window <> "])")))))

  -- `renderAggregate`
  unfoldable pub render_aggregate :
      AggOp → List String → List String → Float → Outcome String → Outcome String
  unfolding agg_func grouping_clause aggregation
  render_aggregate op by without param rendered = do
    name ← found_or "lokidispatcher: unsupported aggregation" (agg_func op)
    input ← rendered
    grouping ← grouping_clause by without
    ok (aggregation op param name grouping input)

  -- `renderFunction`, of the texts of the arguments
  unfoldable pub render_function : String → Outcome (List String) → List String → Outcome String
  unfolding check_identifier
  render_function name rendered string_args = do
    checked ← check_identifier name
    parts ← rendered
    ok (checked <> ("(" <> (join_with ", " (parts ++ map lib.quote string_args) <> ")")))

  -- `renderBinary`, of the texts of the operands
  unfoldable pub render_binary : BinOp → Outcome String → Outcome String → Outcome String
  unfolding bin_op_symbol
  render_binary op lhs rhs = do
    symbol ← found_or "lokidispatcher: unsupported binary operator" (bin_op_symbol op)
    left ← lhs
    right ← rhs
    ok ("(" <> (left <> (") " <> (symbol <> (" (" <> (right <> ")"))))))

  -- `renderNode`, and the loop over the arguments in `renderFunction`
  unfoldable mutual
    unfolding render_select render_time_agg render_aggregate render_function render_binary

    pub render_node : Node → Outcome String
    render_node nil = empty_node
    render_node empty = empty_node
    render_node (select s) = render_select s
    render_node (time_agg op window n) = render_time_agg op window (render_node n)
    render_node (aggregate op by without param n) =
        render_aggregate op by without param (render_node n)
    render_node (function name args string_args) =
        render_function name (render_nodes args) string_args
    render_node (binary op l r matching) = render_binary op (render_node l) (render_node r)
    render_node (literal v) = ok (lib.of_float v)

    pub render_nodes : Nodes → Outcome (List String)
    render_nodes end = ok []
    render_nodes (arg n ns) =
        let first = render_node n in
        let rest = render_nodes ns in do part ← first; parts ← rest; ok (part ∷ parts)

  -- `planToLogQL`
  unfoldable pub plan_to_logql : QueryPlan → Outcome String
  unfolding render_node
  plan_to_logql plan = render_node plan.root

-- ===== src/Prometheus/Closed.antt =====
-- dispatcher/prometheusdispatcher/promql.go: that it renders the plans it can express, and no others.
use opentelemetry_querier.Base.{
  String, true, false, Option, none, some, List, [], ◌∷◌, all, is_nil, ◌==◌, ◌<>◌, map, ◌++◌,
  join_with, sort_texts, if◌then◌else◌, ◌≡◌,
}
use opentelemetry_querier.Golib.{Strconv}
use opentelemetry_querier.Qerror.{invalid_argument, ok, invalid, found_or}
use opentelemetry_querier.Qerror.Steps.{
  refusal, Verdict, passed, refused, Verdict-bind, Verdict-map, Verdict-if, refusal-Verdict,
}
use opentelemetry_querier.Qdata.Identifier.{valid_identifier}
use opentelemetry_querier.Qdata.Predicate.{
  MatchOp, equal, not_equal, regexp, not_regexp, LabelMatcher, flatten_conjunction,
}
use opentelemetry_querier.Qdata.Plan.{
  TimeAggOp, AggOp, BinOp, VectorMatch, MatchCardinality, Node, Nodes, nil, empty, select, time_agg,
  aggregate, function, binary, literal, end, arg, QueryPlan, signal_metrics,
}
use opentelemetry_querier.Prometheus.Render.{
  match_op_symbol, time_agg_func, agg_func, bin_op_symbol, check_identifier, check_identifiers,
  grouping_clause, matched_labels, include_labels, matching_clause, render_matcher, render_matchers,
  render_matched, render_select, aggregation, prom_duration, render_node, render_nodes,
  plan_to_promql,
}
use opentelemetry_querier.Prometheus.Expressible.{
  known_match, known_range, known_agg, known_bin, plain_matcher, flat, plain_names, plain_include,
  plain_matching, is_promql, are_promql,
}

check_identifier-Verdict : (name : String) → Verdict (valid_identifier name) (check_identifier name)
unfolding check_identifier
check_identifier-Verdict name =
    elim (valid_identifier name)
      as (λ b. Verdict b (
        if b
        then ok name
        else invalid "promdispatcher: invalid %s %q: want [a-zA-Z_][a-zA-Z0-9_]*")) [
          | true ↦ passed name
          | false ↦ refused _
        ]

check_identifiers-Verdict :
    (names : List String) → Verdict (all valid_identifier names) (check_identifiers names)
unfolding check_identifiers
check_identifiers-Verdict [] = passed []
check_identifiers-Verdict (name ∷ names) =
    Verdict-bind (check_identifier-Verdict name)
      (λ a. Verdict-map (◌∷◌ a) (check_identifiers-Verdict names))

grouping_clause-Verdict :
    (by without : List String) → Verdict (plain_names by without) (grouping_clause by without)
unfolding grouping_clause
grouping_clause-Verdict (b ∷ by) without =
    Verdict-map (λ ls. " by(" <> (join_with "," ls <> ")")) (check_identifiers-Verdict (b ∷ by))
grouping_clause-Verdict [] (w ∷ without) =
    Verdict-map (λ ls. " without(" <> (join_with "," ls <> ")"))
      (check_identifiers-Verdict (w ∷ without))
grouping_clause-Verdict [] [] = passed ""

matched_labels-Verdict :
    (on ignoring : List String) → Verdict (plain_names on ignoring) (matched_labels on ignoring)
unfolding matched_labels
matched_labels-Verdict (l ∷ on) ignoring =
    Verdict-map (λ ls. " on(" <> (join_with "," ls <> ")")) (check_identifiers-Verdict (l ∷ on))
matched_labels-Verdict [] (l ∷ ignoring) =
    Verdict-map (λ ls. " ignoring(" <> (join_with "," ls <> ")"))
      (check_identifiers-Verdict (l ∷ ignoring))
matched_labels-Verdict [] [] = passed ""

include_labels-Verdict :
    (c : MatchCardinality) (include : List String)
    → Verdict (plain_include c include) (include_labels c include)
unfolding include_labels
include_labels-Verdict MatchCardinality.many_to_one include =
    Verdict-map (λ ls. " group_left(" <> (join_with "," ls <> ")"))
      (check_identifiers-Verdict include)
include_labels-Verdict MatchCardinality.one_to_many include =
    Verdict-map (λ ls. " group_right(" <> (join_with "," ls <> ")"))
      (check_identifiers-Verdict include)
include_labels-Verdict MatchCardinality.one_to_one include = passed ""
include_labels-Verdict (MatchCardinality.unknown n) include = passed ""

matching_clause-Verdict : (m : Option VectorMatch) → Verdict (plain_matching m) (matching_clause m)
unfolding matching_clause
matching_clause-Verdict none = passed ""
matching_clause-Verdict (some m) =
    Verdict-bind (matched_labels-Verdict m.on m.ignoring)
      (λ ls. Verdict-map (λ i. ls <> i) (include_labels-Verdict m.cardinality m.include))

match_op_symbol-Verdict : (op : MatchOp) → Verdict (known_match op) (match_op_symbol op)
unfolding match_op_symbol
match_op_symbol-Verdict equal = passed _
match_op_symbol-Verdict not_equal = passed _
match_op_symbol-Verdict regexp = passed _
match_op_symbol-Verdict not_regexp = passed _
match_op_symbol-Verdict (MatchOp.unknown n) = refused _

time_agg_func-Verdict :
    (msg : String) (op : TimeAggOp) → Verdict (known_range op) (found_or msg (time_agg_func op))
unfolding time_agg_func
time_agg_func-Verdict msg TimeAggOp.unspecified = refused msg
time_agg_func-Verdict msg (TimeAggOp.unknown n) = refused msg
time_agg_func-Verdict msg TimeAggOp.rate = passed _
time_agg_func-Verdict msg TimeAggOp.increase = passed _
time_agg_func-Verdict msg TimeAggOp.count_over_time = passed _
time_agg_func-Verdict msg TimeAggOp.sum_over_time = passed _
time_agg_func-Verdict msg TimeAggOp.avg_over_time = passed _
time_agg_func-Verdict msg TimeAggOp.min_over_time = passed _
time_agg_func-Verdict msg TimeAggOp.max_over_time = passed _

agg_func-Verdict : (msg : String) (op : AggOp) → Verdict (known_agg op) (found_or msg (agg_func op))
unfolding agg_func
agg_func-Verdict msg AggOp.unspecified = refused msg
agg_func-Verdict msg (AggOp.unknown n) = refused msg
agg_func-Verdict msg AggOp.sum = passed _
agg_func-Verdict msg AggOp.avg = passed _
agg_func-Verdict msg AggOp.min = passed _
agg_func-Verdict msg AggOp.max = passed _
agg_func-Verdict msg AggOp.count = passed _
agg_func-Verdict msg AggOp.quantile = passed _
agg_func-Verdict msg AggOp.topk = passed _
agg_func-Verdict msg AggOp.bottomk = passed _
agg_func-Verdict msg AggOp.group = passed _
agg_func-Verdict msg AggOp.stddev = passed _
agg_func-Verdict msg AggOp.stdvar = passed _

bin_op_symbol-Verdict :
    (msg : String) (op : BinOp) → Verdict (known_bin op) (found_or msg (bin_op_symbol op))
unfolding bin_op_symbol
bin_op_symbol-Verdict msg BinOp.unspecified = refused msg
bin_op_symbol-Verdict msg (BinOp.unknown n) = refused msg
bin_op_symbol-Verdict msg BinOp.add = passed _
bin_op_symbol-Verdict msg BinOp.sub = passed _
bin_op_symbol-Verdict msg BinOp.mul = passed _
bin_op_symbol-Verdict msg BinOp.div = passed _
bin_op_symbol-Verdict msg BinOp.modulo = passed _
bin_op_symbol-Verdict msg BinOp.pow = passed _
bin_op_symbol-Verdict msg BinOp.eq = passed _
bin_op_symbol-Verdict msg BinOp.ne = passed _
bin_op_symbol-Verdict msg BinOp.gt = passed _
bin_op_symbol-Verdict msg BinOp.lt = passed _
bin_op_symbol-Verdict msg BinOp.ge = passed _
bin_op_symbol-Verdict msg BinOp.le = passed _
bin_op_symbol-Verdict msg BinOp.and = passed _
bin_op_symbol-Verdict msg BinOp.or = passed _
bin_op_symbol-Verdict msg BinOp.unless = passed _

module _ (lib : Strconv) where
  render_matchers-Verdict :
      (ms : List LabelMatcher) → Verdict (all plain_matcher ms) (render_matchers lib ms)
  unfolding render_matchers render_matcher
  render_matchers-Verdict [] = passed []
  render_matchers-Verdict (m ∷ ms) =
      Verdict-bind
        (Verdict-bind (match_op_symbol-Verdict m.op)
          (λ o. Verdict-map (λ n. n <> (o <> lib.quote m.value)) (check_identifier-Verdict m.name)))
        (λ part. Verdict-map (◌∷◌ part) (render_matchers-Verdict ms))

  render_matched-Verdict :
      (o : Option (List LabelMatcher)) → Verdict (flat o) (render_matched lib o)
  unfolding render_matched
  render_matched-Verdict none = refused _
  render_matched-Verdict (some []) = refused _
  render_matched-Verdict (some (m ∷ ms)) =
      Verdict-map (λ ps. "{" <> (join_with "," (sort_texts ps) <> "}"))
        (render_matchers-Verdict (m ∷ ms))

  mutual
    unfolding render_node is_promql render_select

    render_node-Verdict : (n : Node) → Verdict (is_promql n) (render_node lib n)
    render_node-Verdict nil = refused _
    render_node-Verdict empty = refused _
    render_node-Verdict (select s) = Verdict-if (s.signal == signal_metrics) _ (
        Verdict-if (is_nil s.line) _ (render_matched-Verdict (flatten_conjunction (s.filter ∷ []))))
    render_node-Verdict (time_agg op window n) =
        Verdict-bind (time_agg_func-Verdict "promdispatcher: unsupported range function" op)
          (λ name.
            Verdict-map
              (λ input. name <> ("(" <> (input <> ("[" <> (prom_duration lib window <> "])")))))
              (render_node-Verdict n))
    render_node-Verdict (aggregate op by without param n) =
        Verdict-bind (agg_func-Verdict "promdispatcher: unsupported aggregation" op) (λ name.
          Verdict-bind (render_node-Verdict n) (λ input.
            Verdict-map (λ g. aggregation lib op param name g input)
              (grouping_clause-Verdict by without)))
    render_node-Verdict (function name args strings) =
        Verdict-bind (check_identifier-Verdict name) (λ checked.
          Verdict-map
            (λ parts. checked <> ("(" <> (join_with ", " (parts ++ map lib.quote strings) <> ")")))
            (render_nodes-Verdict args))
    render_node-Verdict (binary op l r matching) =
        Verdict-bind (bin_op_symbol-Verdict "promdispatcher: unsupported binary operator" op)
          (λ symbol. Verdict-bind (render_node-Verdict l) (λ left.
            Verdict-bind (render_node-Verdict r) (λ right.
              Verdict-map
                (λ clause.
                  "(" <> (left <> (") " <> (symbol <> (clause <> (" (" <> (right <> ")")))))))
                (matching_clause-Verdict matching))))
    render_node-Verdict (literal v) = passed _

    render_nodes-Verdict : (ns : Nodes) → Verdict (are_promql ns) (render_nodes lib ns)
    render_nodes-Verdict end = passed []
    render_nodes-Verdict (arg n ns) =
        Verdict-bind (render_node-Verdict n)
          (λ part. Verdict-map (◌∷◌ part) (render_nodes-Verdict ns))

  -- A plan is rendered exactly if PromQL can express it, and is refused as an invalid argument if not.
  pub refusal-plan_to_promql :
      (plan : QueryPlan)
      → refusal (plan_to_promql lib plan)
        ≡ (if is_promql plan.root then none else some invalid_argument)
  unfolding plan_to_promql
  refusal-plan_to_promql plan = refusal-Verdict (render_node-Verdict plan.root)

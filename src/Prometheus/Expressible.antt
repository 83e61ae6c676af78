-- ===== src/Prometheus/Expressible.antt =====
-- dispatcher/prometheusdispatcher/promql.go: the plans that it renders, described without its texts.
use opentelemetry_querier.Base.{
  String, Bool, true, false, ◌&&◌, not, Option, none, some, List, [], ◌∷◌, all, is_nil, ◌==◌,
  if◌then◌else◌,
}
use opentelemetry_querier.Qdata.Identifier.{valid_identifier}
use opentelemetry_querier.Qdata.Predicate.{MatchOp, LabelMatcher, flatten_conjunction}
use opentelemetry_querier.Qdata.Plan.{
  TimeAggOp, AggOp, BinOp, VectorMatch, MatchCardinality, Node, Nodes, nil, empty, select, time_agg,
  aggregate, function, binary, literal, end, arg, signal_metrics,
}

abbrev pub known_match : MatchOp → Bool
known_match (MatchOp.unknown n) = false
known_match _ = true

abbrev pub known_range : TimeAggOp → Bool
known_range TimeAggOp.unspecified = false
known_range (TimeAggOp.unknown n) = false
known_range _ = true

abbrev pub known_agg : AggOp → Bool
known_agg AggOp.unspecified = false
known_agg (AggOp.unknown n) = false
known_agg _ = true

abbrev pub known_bin : BinOp → Bool
known_bin BinOp.unspecified = false
known_bin (BinOp.unknown n) = false
known_bin _ = true

abbrev pub plain_matcher : LabelMatcher → Bool
plain_matcher m = known_match m.op && valid_identifier m.name

-- a flat conjunction of matchers, of which there is one at least
abbrev pub flat : Option (List LabelMatcher) → Bool
flat none = false
flat (some ms) = not (is_nil ms) && all plain_matcher ms

-- The names that are written: those of the first list, if it has any.
abbrev pub plain_names : List String → List String → Bool
plain_names first second =
    if is_nil first then all valid_identifier second else all valid_identifier first

abbrev pub plain_include : MatchCardinality → List String → Bool
plain_include MatchCardinality.many_to_one include = all valid_identifier include
plain_include MatchCardinality.one_to_many include = all valid_identifier include
plain_include _ include = true

abbrev pub plain_matching : Option VectorMatch → Bool
plain_matching none = true
plain_matching (some m) = plain_names m.on m.ignoring && plain_include m.cardinality m.include

-- What PromQL can express: metrics under flat conjunctions without line filters, known operators, and
-- plain identifiers wherever a name is not quoted.
unfoldable mutual
  pub is_promql : Node → Bool
  is_promql nil = false
  is_promql empty = false
  is_promql (select s) =
      s.signal == signal_metrics && (is_nil s.line && flat (flatten_conjunction (s.filter ∷ [])))
  is_promql (time_agg op window n) = known_range op && is_promql n
  is_promql (aggregate op by without param n) =
      known_agg op && (is_promql n && plain_names by without)
  is_promql (function name args strings) = valid_identifier name && are_promql args
  is_promql (binary op l r matching) =
      known_bin op && (is_promql l && (is_promql r && plain_matching matching))
  is_promql (literal v) = true

  pub are_promql : Nodes → Bool
  are_promql end = true
  are_promql (arg n ns) = is_promql n && are_promql ns

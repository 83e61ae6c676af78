-- ===== src/Loki/Canonical.antt =====
-- The plans that dispatcher/lokidispatcher/logql.go and acceptor/lokiacceptor/logqlparse.go have in
-- common, and the form in which the parser returns one.
use opentelemetry_querier.Base.{
  ◌%◌, ℤ, pos, negsuc, Bool, true, false, ◌&&◌, not, none, some, List, [], ◌∷◌, map, is_nil, ltb,
  ◌==◌, if◌then◌else◌,
}
use opentelemetry_querier.Golib.{Strconv, millisecond, int64_end}
use opentelemetry_querier.Golib.Literals.{is_numeral}
use opentelemetry_querier.Qdata.Predicate.{Predicate, leaf_predicate, flatten_conjunction}
use opentelemetry_querier.Qdata.Plan.{Float, Select, AggOp, Node, select, time_agg, aggregate}
use opentelemetry_querier.Loki.Parse.{filter_of, takes_param, is_select}
use opentelemetry_querier.Loki.Matchers.{sort_matchers}

-- a whole number of milliseconds, from 0 up, that is a time.Duration
abbrev pub is_window : ℤ → Bool
is_window (pos n) = n % millisecond == 0 && ltb n int64_end
is_window (negsuc n) = false

abbrev pub is_quantile : AggOp → Bool
is_quantile AggOp.quantile = true
is_quantile _ = false

-- the filter of these leaves, if there are any
abbrev pub ordered_filter : Predicate → List Predicate → Predicate
ordered_filter p [] = p
ordered_filter p (q ∷ qs) = filter_of q qs

module _ (lib : Strconv) where
  -- the selector with its matchers in the order of their texts
  unfoldable pub ordered_select : Select → Select
  unfolding sort_matchers filter_of
  ordered_select s = elim (flatten_conjunction (s.filter ∷ [])) [
    | none ↦ s
    | some ms ↦ record {
      signal = s.signal;
      filter = ordered_filter s.filter (map leaf_predicate (sort_matchers lib ms));
      line = s.line;
    }
  ]

  -- The parameter is written as a number that the tokenizer reads.
  abbrev pub plain_param : AggOp → Float → Bool
  plain_param op param = if takes_param op then is_numeral (lib.of_float param) else true

  -- aggregations of a range aggregation of a selector
  unfoldable pub is_metric : Node → Bool
  unfolding takes_param
  is_metric (time_agg op window n) = is_select n && is_window window
  is_metric (aggregate op by without param n) =
      not (is_quantile op) && plain_param op param && is_metric n
  is_metric _ = false

  -- a selector, or aggregations
  unfoldable pub is_logql : Node → Bool
  unfolding is_metric
  is_logql n = if is_select n then true else is_metric n

  -- what the parser returns: the matchers in order, one grouping, and no parameter but where it is read
  unfoldable pub canonical : Node → Node
  unfolding ordered_select takes_param
  canonical (select s) = select (ordered_select s)
  canonical (time_agg op window n) = time_agg op window (canonical n)
  canonical (aggregate op by without param n) =
      aggregate op by (if is_nil by then without else []) (if takes_param op then param else 0)
        (canonical n)
  canonical n = n

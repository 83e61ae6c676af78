-- ===== src/Loki/Parse/Operators.antt =====
-- acceptor/lokiacceptor/logqlparse.go: the operators that the parser knows.
use opentelemetry_querier.Base.{
  String, Bool, true, false, ◌||◌, Option, none, some, str_eq, if◌then◌else◌,
}
use opentelemetry_querier.Qdata.Predicate.{MatchOp, equal, not_equal, regexp, not_regexp}
use opentelemetry_querier.Qdata.Plan.{TimeAggOp, AggOp}

-- `matchOp`
unfoldable pub match_op_of : String → Option MatchOp
match_op_of s =
    if str_eq s "="
    then some equal
    else if str_eq s "!="
    then some not_equal
    else if str_eq s "=~"
    then some regexp
    else if str_eq s "!~"
    then some not_regexp
    else none

-- `lineOp`
unfoldable pub line_op_of : String → Option MatchOp
line_op_of s =
    if str_eq s "|="
    then some equal
    else if str_eq s "!="
    then some not_equal
    else if str_eq s "|~"
    then some regexp
    else if str_eq s "!~"
    then some not_regexp
    else none

-- `isLineNegation`
unfoldable pub is_line_negation : String → Bool
is_line_negation s = str_eq s "!=" || str_eq s "!~"

-- `rangeAggOp`
unfoldable pub range_agg_op : String → Option TimeAggOp
range_agg_op s =
    if str_eq s "rate"
    then some TimeAggOp.rate
    else if str_eq s "count_over_time"
    then some TimeAggOp.count_over_time
    else if str_eq s "sum_over_time"
    then some TimeAggOp.sum_over_time
    else if str_eq s "avg_over_time"
    then some TimeAggOp.avg_over_time
    else if str_eq s "min_over_time"
    then some TimeAggOp.min_over_time
    else if str_eq s "max_over_time"
    then some TimeAggOp.max_over_time
    else none

-- `vectorAggOp`
unfoldable pub vector_agg_op : String → Option AggOp
vector_agg_op s =
    if str_eq s "sum"
    then some AggOp.sum
    else if str_eq s "avg"
    then some AggOp.avg
    else if str_eq s "min"
    then some AggOp.min
    else if str_eq s "max"
    then some AggOp.max
    else if str_eq s "count"
    then some AggOp.count
    else if str_eq s "stddev"
    then some AggOp.stddev
    else if str_eq s "stdvar"
    then some AggOp.stdvar
    else if str_eq s "topk"
    then some AggOp.topk
    else if str_eq s "bottomk"
    then some AggOp.bottomk
    else none

-- `aggTakesParam`
unfoldable pub takes_param : AggOp → Bool
takes_param AggOp.topk = true
takes_param AggOp.bottomk = true
takes_param _ = false

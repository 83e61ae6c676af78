-- ===== src/Qdata/Plan.antt =====
-- The structured query plan of qdata/qdata.go and gen/qdata/v1/query.pb.go: its nodes, and
-- `ValidatePlan`. A value of `Node` is a Go pointer: `nil` is the nil pointer, `empty` a node whose
-- oneof is not set. A message inside a set oneof is taken as allocated, as decoding leaves it.
pub mod Shape
use opentelemetry_querier.Base.{
  ℕ, zero, suc, ℤ, is_positive, String, Bool, true, false, ◌&&◌, not, Option, none, some, List, [],
  ◌∷◌, ◌++◌, is_nil, str_eq, if◌then◌else◌,
}
use opentelemetry_querier.Qdata.Predicate.{
  MatchOp, Predicate, PredicateError, validate_predicate, check_filter,
}

-- `Signal` is an integer, compared and sorted as one.
abbrev pub Signal : Type 0
Signal = ℕ

abbrev pub signal_unspecified : Signal
signal_unspecified = 0

abbrev pub signal_metrics : Signal
signal_metrics = 1

abbrev pub signal_logs : Signal
signal_logs = 2

abbrev pub signal_spans : Signal
signal_spans = 3

abbrev pub signal_profiles : Signal
signal_profiles = 4

-- A `float64` is kept as its bit pattern.
abbrev pub Float : Type 0
Float = ℕ

pub record LineMatch : Type 0 where
  pub op : MatchOp
  pub value : String

pub record Select : Type 0 where
  pub signal : Signal
  pub filter : Predicate
  pub line : List LineMatch

pub data TimeAggOp : Type 0 where
  unspecified rate increase count_over_time sum_over_time avg_over_time : TimeAggOp
  min_over_time max_over_time : TimeAggOp
  unknown : ℕ → TimeAggOp

pub data AggOp : Type 0 where
  unspecified sum avg min max count quantile topk bottomk group stddev stdvar : AggOp
  unknown : ℕ → AggOp

pub data BinOp : Type 0 where
  unspecified add sub mul div modulo pow eq ne gt lt ge le and or unless : BinOp
  unknown : ℕ → BinOp

pub data MatchCardinality : Type 0 where
  one_to_one many_to_one one_to_many : MatchCardinality
  unknown : ℕ → MatchCardinality

pub record VectorMatch : Type 0 where
  pub on : List String
  pub ignoring : List String
  pub cardinality : MatchCardinality
  pub include : List String

mutual
  pub data Node : Type 0 where
    nil : Node
    empty : Node
    select : Select → Node
    -- the window in nanoseconds
    time_agg : TimeAggOp → ℤ → Node → Node
    -- the grouping labels of `by` and of `without`, and the parameter
    aggregate : AggOp → List String → List String → Float → Node → Node
    function : String → Nodes → List String → Node
    binary : BinOp → Node → Node → Option VectorMatch → Node
    literal : Float → Node

  pub data Nodes : Type 0 where
    end : Nodes
    arg : Node → Nodes → Nodes

-- `QueryPlan`, and `Plan`, which wraps a root.
pub record QueryPlan : Type 0 where
  pub root : Node

unfoldable pub plan_of : Node → QueryPlan
plan_of root = record { root = root }

pub data PlanError : Type 0 where
  nil_node empty_node nil_input time_agg_op time_agg_window agg_op agg_grouping : PlanError
  func_name bin_op bin_operand : PlanError
  predicate : PredicateError → PlanError

abbrev pub is_nil_node : Node → Bool
is_nil_node nil = true
is_nil_node _ = false

abbrev pub agg_unspecified : AggOp → Bool
agg_unspecified AggOp.unspecified = true
agg_unspecified _ = false

abbrev pub time_agg_unspecified : TimeAggOp → Bool
time_agg_unspecified TimeAggOp.unspecified = true
time_agg_unspecified _ = false

abbrev pub bin_unspecified : BinOp → Bool
bin_unspecified BinOp.unspecified = true
bin_unspecified _ = false

-- The filter of a Select is checked unless it is absent.
unfoldable pub validate_select : Select → Option PlanError
unfolding check_filter
validate_select s = elim (check_filter s.filter) [ none ↦ none | some e ↦ some (predicate e) ]

-- The checks that a node makes before it looks into its inputs.
unfoldable pub check_time_agg : TimeAggOp → ℤ → Node → Option PlanError
check_time_agg op window input =
    if time_agg_unspecified op
    then some time_agg_op
    else if is_positive window
    then (if is_nil_node input then some nil_input else none)
    else some time_agg_window

unfoldable pub check_aggregate : AggOp → List String → List String → Node → Option PlanError
check_aggregate op by without input =
    if agg_unspecified op
    then some agg_op
    else if not (is_nil by) && not (is_nil without)
    then some agg_grouping
    else if is_nil_node input
    then some nil_input
    else none

unfoldable pub check_binary : BinOp → Node → Node → Option PlanError
check_binary op lhs rhs =
    if bin_unspecified op
    then some bin_op
    else if is_nil_node lhs
    then some bin_operand
    else if is_nil_node rhs
    then some bin_operand
    else none

-- `validateNode` with its per-operator functions; `none` is the nil error.
unfoldable mutual
  unfolding validate_select check_time_agg check_aggregate check_binary

  pub validate_node : Node → Option PlanError
  validate_node nil = some nil_node
  validate_node empty = some empty_node
  validate_node (select s) = validate_select s
  validate_node (time_agg op window input) = elim (check_time_agg op window input) [
    | some e ↦ some e
    | none ↦ validate_node input
  ]
  validate_node (aggregate op by without param input) = elim (check_aggregate op by without input) [
    | some e ↦ some e
    | none ↦ validate_node input
  ]
  validate_node (function name args string_args) = elim (str_eq name "") [
    | true ↦ some func_name
    | false ↦ validate_nodes args
  ]
  validate_node (binary op lhs rhs matching) = elim (check_binary op lhs rhs) [
    | some e ↦ some e
    | none ↦ elim (validate_node lhs) [ some e ↦ some e | none ↦ validate_node rhs ]
  ]
  validate_node (literal v) = none

  pub validate_nodes : Nodes → Option PlanError
  validate_nodes end = none
  validate_nodes (arg n ns) = elim (validate_node n) [ some e ↦ some e | none ↦ validate_nodes ns ]

-- `ValidatePlan` at a plan that is not nil.
unfoldable pub validate_plan : QueryPlan → Option PlanError
unfolding validate_node
validate_plan plan = validate_node plan.root

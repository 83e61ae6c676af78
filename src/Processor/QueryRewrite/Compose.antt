-- ===== src/Processor/QueryRewrite/Compose.antt =====
-- The composed plan of composeEnforcement: its Selects, its signals and its validity.
use opentelemetry_querier.Base.{none, List, [], map, ◌≡◌, ◌∙◌, ap, refl, inl, inr}
use opentelemetry_querier.Qdata.Predicate.{Predicate, validate_predicate}
use opentelemetry_querier.Qdata.Predicate.Shape.{validate_predicate-WellFormed}
use opentelemetry_querier.Qdata.Plan.{
  Signal, Node, Nodes, nil, empty, select, time_agg, aggregate, function, binary, literal, end, arg,
  QueryPlan, validate_plan,
}
use opentelemetry_querier.Qdata.Plan.Shape.{
  IsFilter, WellFormedNode, WellFormedNodes, at_select, at_time_agg, at_aggregate, at_function,
  at_binary, at_literal, nothing, also, validate_plan-WellFormed,
}
use opentelemetry_querier.Qdata.Signals.{
  collect_signals, collect_args, plan_signals, selects, selects_of_args,
}
use opentelemetry_querier.Processor.QueryRewrite.{conjoin, compose, compose_args, guard_select}
use opentelemetry_querier.Processor.QueryRewrite.Conjoin.{conjoin-accepted}
use mathlib.Core.List.{map-append}

mutual
  unfolding selects compose

  -- The Selects of the composed plan are those of the plan, each guarded, in the same order.
  pub selects-compose :
      (e : Predicate) (n : Node) → selects (compose e n) ≡ map (guard_select e) (selects n)
  selects-compose e nil = refl
  selects-compose e empty = refl
  selects-compose e (select s) = refl
  selects-compose e (time_agg op window input) = selects-compose e input
  selects-compose e (aggregate op by without param input) = selects-compose e input
  selects-compose e (function name args texts) = selects-compose_args e args
  selects-compose e (binary op lhs rhs matching) =
      simp (selects-compose e lhs, selects-compose e rhs, map-append)
  selects-compose e (literal v) = refl

  selects-compose_args :
      (e : Predicate) (ns : Nodes)
      → selects_of_args (compose_args e ns) ≡ map (guard_select e) (selects_of_args ns)
  selects-compose_args e end = refl
  selects-compose_args e (arg n ns) =
      simp (selects-compose e n, selects-compose_args e ns, map-append)

mutual
  unfolding collect_signals compose

  collect-compose :
      (e : Predicate) (n : Node) (seen : List Signal)
      → collect_signals (compose e n) seen ≡ collect_signals n seen
  collect-compose e nil seen = refl
  collect-compose e empty seen = refl
  collect-compose e (select s) seen = refl
  collect-compose e (time_agg op window input) seen = collect-compose e input seen
  collect-compose e (aggregate op by without param input) seen = collect-compose e input seen
  collect-compose e (function name args texts) seen = collect-compose_args e args seen
  collect-compose e (binary op lhs rhs matching) seen =
      collect-compose e rhs (collect_signals (compose e lhs) seen)
      ∙ ap (collect_signals rhs) (collect-compose e lhs seen)
  collect-compose e (literal v) seen = refl

  collect-compose_args :
      (e : Predicate) (ns : Nodes) (seen : List Signal)
      → collect_args (compose_args e ns) seen ≡ collect_args ns seen
  collect-compose_args e end seen = refl
  collect-compose_args e (arg n ns) seen =
      collect-compose_args e ns (collect_signals (compose e n) seen)
      ∙ ap (collect_args ns) (collect-compose e n seen)

-- The signals of a plan are those of the composed plan.
pub plan_signals-compose :
    (e : Predicate) (plan : QueryPlan)
    → plan_signals (record { root = compose e plan.root }) ≡ plan_signals plan
unfolding plan_signals
plan_signals-compose e plan = rw (collect-compose e plan.root [])

conjoin-IsFilter :
    (p e : Predicate) → validate_predicate e ≡ none → IsFilter p → IsFilter (conjoin p e)
unfolding conjoin
conjoin-IsFilter p e v (inl h) = rw h (inr ((validate_predicate-WellFormed e).0 v))
conjoin-IsFilter p e v (inr w) = inr (
    (validate_predicate-WellFormed _).0
      (conjoin-accepted p e ((validate_predicate-WellFormed p).1 w) v))

mutual
  unfolding compose

  compose-WellFormed :
      {n : Node} (e : Predicate)
      → validate_predicate e ≡ none
      → WellFormedNode n
      → WellFormedNode (compose e n)
  compose-WellFormed e v (at_select s f) =
      at_select (guard_select e s) (conjoin-IsFilter s.filter e v f)
  compose-WellFormed e v (at_time_agg o w i) = at_time_agg o w (compose-WellFormed e v i)
  compose-WellFormed e v (at_aggregate o g i) = at_aggregate o g (compose-WellFormed e v i)
  compose-WellFormed e v (at_function n a) = at_function n (compose_args-WellFormed e v a)
  compose-WellFormed e v (at_binary o l r) =
      at_binary o (compose-WellFormed e v l) (compose-WellFormed e v r)
  compose-WellFormed e v (at_literal x) = at_literal x

  compose_args-WellFormed :
      {ns : Nodes} (e : Predicate)
      → validate_predicate e ≡ none
      → WellFormedNodes ns
      → WellFormedNodes (compose_args e ns)
  compose_args-WellFormed e v nothing = nothing
  compose_args-WellFormed e v (also w ws) =
      also (compose-WellFormed e v w) (compose_args-WellFormed e v ws)

-- Composing a valid predicate into a valid plan gives a valid plan.
pub compose-accepted :
    (e : Predicate) (plan : QueryPlan)
    → validate_predicate e ≡ none
    → validate_plan plan ≡ none
    → validate_plan (record { root = compose e plan.root }) ≡ none
compose-accepted e plan v h =
    (validate_plan-WellFormed (record { root = compose e plan.root })).1
      (compose-WellFormed e v ((validate_plan-WellFormed plan).0 h))

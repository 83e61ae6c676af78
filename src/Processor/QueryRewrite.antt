-- ===== src/Processor/QueryRewrite.antt =====
-- processor/queryrewriteprocessor/queryrewriteprocessor.go: the enforced predicates go into every
-- Select of the plan.
pub mod Conjoin
pub mod Compose
pub mod Enforced
use opentelemetry_querier.Base.{
  String, Bool, true, false, ◌&&◌, Option, none, some, List, [], ◌∷◌, ◌++◌, map, is_nil, str_eq,
  if◌then◌else◌,
}
use opentelemetry_querier.Qerror.{Error, Outcome, ok, err, ◌>>=◌, coded, permission_denied}
use opentelemetry_querier.Qdata.Predicate.{
  LabelMatcher, equal, Predicate, bool_expr, BoolOp, leaf_predicate, bool_predicate, to_list,
}
use opentelemetry_querier.Qdata.Plan.{
  Select, Node, Nodes, nil, empty, select, time_agg, aggregate, function, binary, literal, end, arg,
  QueryPlan,
}
use opentelemetry_querier.Qdata.Query.{Query, tenant_id, set_metadata}
use opentelemetry_querier.Processor.{Verdict}

pub record EnforceLabel : Type 0 where
  pub name : String
  pub value : String
  pub from_tenant : Bool

pub record Config : Type 0 where
  pub enforce_labels : List EnforceLabel

abbrev pub matcher_at : EnforceLabel → String → LabelMatcher
matcher_at label value = record { name = label.name; op = equal; value = value }

-- the loop of `collectMatchers`
unfoldable pub add_labels :
    Query → List EnforceLabel → List LabelMatcher → Outcome (List LabelMatcher)
add_labels q [] matchers = ok matchers
add_labels q (label ∷ labels) matchers =
    let value = (if label.from_tenant then tenant_id q else label.value) in
    let rest = add_labels q labels (matchers ++ matcher_at label value ∷ []) in
    if label.from_tenant && str_eq value ""
    then err (coded permission_denied "queryrewrite: unresolved tenant for %q")
    else rest

-- `collectMatchers`; with no configured label the loop adds nothing.
unfoldable pub collect_matchers : Config → Query → Outcome (List LabelMatcher)
unfolding add_labels
collect_matchers cfg q = add_labels q cfg.enforce_labels q.enforced_matchers

-- the switch of `enforcement`
unfoldable pub combine_operands : List Predicate → Predicate
combine_operands [] = Predicate.nil
combine_operands (p ∷ []) = p
combine_operands (p ∷ p' ∷ ps) = bool_predicate BoolOp.conj (p ∷ p' ∷ ps)

-- `enforcement`; `Predicate.nil` is nothing to enforce.
unfoldable pub enforcement : Query → List LabelMatcher → Predicate
unfolding combine_operands
enforcement q matchers = combine_operands (map leaf_predicate matchers ++ q.enforced_predicates)

-- `andOperands`
unfoldable pub and_operands : Predicate → List Predicate
and_operands (bool_expr BoolOp.conj ps) = to_list ps
and_operands p = p ∷ []

-- `conjoin`
unfoldable pub conjoin : Predicate → Predicate → Predicate
unfolding and_operands
conjoin Predicate.nil enforced = enforced
conjoin existing enforced =
    bool_predicate BoolOp.conj (and_operands existing ++ and_operands enforced)

abbrev pub guard_select : Predicate → Select → Select
guard_select enforced s = record s { filter = conjoin s.filter enforced }

-- `composeEnforcement`
unfoldable mutual
  pub compose : Predicate → Node → Node
  compose e nil = nil
  compose e empty = empty
  compose e (select s) = select (guard_select e s)
  compose e (time_agg op window input) = time_agg op window (compose e input)
  compose e (aggregate op by without param input) = aggregate op by without param (compose e input)
  compose e (function name args texts) = function name (compose_args e args) texts
  compose e (binary op lhs rhs matching) = binary op (compose e lhs) (compose e rhs) matching
  compose e (literal v) = literal v

  pub compose_args : Predicate → Nodes → Nodes
  compose_args e end = end
  compose_args e (arg n ns) = arg (compose e n) (compose_args e ns)

-- the query with its plan rewritten, unless there is nothing to enforce
unfoldable pub rewrite : Query → QueryPlan → Predicate → Query
rewrite q plan Predicate.nil = q
rewrite q plan enforced =
    set_metadata (record q { plan = some (record { root = compose enforced plan.root }) })
      "queryrewrite.rewritten" "true"

abbrev finish : Query → QueryPlan → Outcome (List LabelMatcher) → Verdict
finish q plan (err e) = (some e, q)
finish q plan (ok matchers) = (none, rewrite q plan (enforcement q matchers))

-- `ProcessQuery`
unfoldable pub process_query : Config → Query → Verdict
unfolding rewrite collect_matchers
process_query cfg q = elim q.plan [
  | none ↦ (none, q)
  | some plan ↦ finish q plan (collect_matchers cfg q)
]

-- ===== src/Qdata/Plan/Shape.antt =====
-- Well-formed plans, described without the order in which the code checks.
use opentelemetry_querier.Base.{
  ℤ, is_positive, String, true, false, Option, none, some, List, ◌≡◌, ◌↔◌, ◌⊎◌, inl, inr, refl,
  arith, is_nil, str_eq,
}
use opentelemetry_querier.Qdata.Predicate.{Predicate, check_filter}
use opentelemetry_querier.Qdata.Predicate.Shape.{WellFormed, validate_predicate-WellFormed}
use opentelemetry_querier.Qdata.Plan.{
  Float, Select, TimeAggOp, AggOp, BinOp, VectorMatch, Node, Nodes, nil, empty, select, time_agg,
  aggregate, function, binary, literal, end, arg, QueryPlan, is_nil_node, agg_unspecified,
  time_agg_unspecified, bin_unspecified, validate_select, check_time_agg, check_aggregate,
  check_binary, PlanError, validate_node, validate_nodes, validate_plan,
}

-- An absent filter, or a well-formed one.
abbrev pub IsFilter : Predicate → Type 0
IsFilter p = (p ≡ Predicate.nil) ⊎ WellFormed p

mutual
  pub data WellFormedNode : Node → Type 0 where
    at_select : (s : Select) → IsFilter s.filter → WellFormedNode (select s)
    at_time_agg :
        {op : TimeAggOp} {window : ℤ} {input : Node}
        → time_agg_unspecified op ≡ false
        → is_positive window ≡ true
        → WellFormedNode input
        → WellFormedNode (time_agg op window input)
    at_aggregate :
        {op : AggOp} {by without : List String} {param : Float} {input : Node}
        → agg_unspecified op ≡ false
        → (is_nil by ≡ true) ⊎ (is_nil without ≡ true)
        → WellFormedNode input
        → WellFormedNode (aggregate op by without param input)
    at_function :
        {name : String} {args : Nodes} {texts : List String}
        → str_eq name "" ≡ false
        → WellFormedNodes args
        → WellFormedNode (function name args texts)
    at_binary :
        {op : BinOp} {lhs rhs : Node} {matching : Option VectorMatch}
        → bin_unspecified op ≡ false
        → WellFormedNode lhs
        → WellFormedNode rhs
        → WellFormedNode (binary op lhs rhs matching)
    at_literal : (v : Float) → WellFormedNode (literal v)

  pub data WellFormedNodes : Nodes → Type 0 where
    nothing : WellFormedNodes end
    also :
        {n : Node} {ns : Nodes} → WellFormedNode n → WellFormedNodes ns → WellFormedNodes (arg n ns)

check_filter-IsFilter : (p : Predicate) → (check_filter p ≡ none) ↔ IsFilter p
unfolding check_filter
check_filter-IsFilter Predicate.nil = (λ _. inl refl, λ _. refl)
check_filter-IsFilter p = (
  λ h. inr ((validate_predicate-WellFormed p).0 h),
  λ f. elim f [ inl e ↦ absurd (ground arith) | inr w ↦ (validate_predicate-WellFormed p).1 w ],
)

not-nil_node : {n : Node} → WellFormedNode n → is_nil_node n ≡ false
not-nil_node (at_select s f) = refl
not-nil_node (at_time_agg o w i) = refl
not-nil_node (at_aggregate o g i) = refl
not-nil_node (at_function n a) = refl
not-nil_node (at_binary o l r) = refl
not-nil_node (at_literal v) = refl

select-WellFormed : (s : Select) → (validate_select s ≡ none) ↔ IsFilter s.filter
unfolding validate_select
select-WellFormed s = (
  λ h. (check_filter-IsFilter s.filter).0 (ground arith),
  λ f. ground (arith, (check_filter-IsFilter s.filter).1 f),
)

-- A chain of two checks passes exactly if both do.
both-none :
    (a b : Option PlanError)
    → ◌≡◌ {A = Option PlanError} (elim a [ some e ↦ some e | none ↦ b ]) none
    → (a ≡ none) × (b ≡ none)
both-none none b h = (refl, h)
both-none (some e) b h = cc

check_binary-passed :
    (op : BinOp) (lhs rhs : Node) → check_binary op lhs rhs ≡ none → bin_unspecified op ≡ false
unfolding check_binary
check_binary-passed op lhs rhs h = ground arith

mutual
  unfolding validate_node check_time_agg check_aggregate check_binary

  accepted-node : (n : Node) → validate_node n ≡ none → WellFormedNode n
  accepted-node nil h = cc
  accepted-node empty h = cc
  accepted-node (select s) h = at_select s ((select-WellFormed s).0 h)
  accepted-node (time_agg op window input) h =
      at_time_agg (ground arith) (ground arith) (accepted-node input (ground arith))
  accepted-node (aggregate op by without param input) h =
      at_aggregate (ground arith) (ground arith) (accepted-node input (ground arith))
  accepted-node (function name args texts) h =
      at_function (ground arith) (accepted-nodes args (ground arith))
  accepted-node (binary op lhs rhs matching) h =
      let (checks, inputs) = both-none (check_binary op lhs rhs) _ h in
      let (left, right) = both-none (validate_node lhs) (validate_node rhs) inputs in
      at_binary (check_binary-passed op lhs rhs checks) (accepted-node lhs left)
        (accepted-node rhs right)
  accepted-node (literal v) h = at_literal v

  accepted-nodes : (ns : Nodes) → validate_nodes ns ≡ none → WellFormedNodes ns
  accepted-nodes end h = nothing
  accepted-nodes (arg n ns) h =
      also (accepted-node n (ground arith)) (accepted-nodes ns (ground arith))

mutual
  unfolding validate_node check_time_agg check_aggregate check_binary

  node-accepted : {n : Node} → WellFormedNode n → validate_node n ≡ none
  node-accepted (at_select s f) = (select-WellFormed s).1 f
  node-accepted (at_time_agg o w i) = ground (arith, node-accepted i, not-nil_node i)
  node-accepted (at_aggregate o g i) = ground (arith, node-accepted i, not-nil_node i)
  node-accepted (at_function n a) = ground (arith, nodes-accepted a)
  node-accepted (at_binary o l r) =
      ground (arith, node-accepted l, node-accepted r, not-nil_node l, not-nil_node r)
  node-accepted (at_literal v) = refl

  nodes-accepted : {ns : Nodes} → WellFormedNodes ns → validate_nodes ns ≡ none
  nodes-accepted nothing = refl
  nodes-accepted (also w ws) = ground (arith, node-accepted w, nodes-accepted ws)

-- `validate_plan` accepts exactly the plans in which every operator has its inputs, a specified
-- operator, a positive window, at most one of `by` and `without`, and a function name, and in which
-- every filter of a Select is absent or a well-formed predicate.
pub validate_plan-WellFormed :
    (plan : QueryPlan) → (validate_plan plan ≡ none) ↔ WellFormedNode plan.root
unfolding validate_plan
validate_plan-WellFormed plan = (accepted-node plan.root, node-accepted)

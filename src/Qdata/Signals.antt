-- ===== src/Qdata/Signals.antt =====
-- The signals of a plan: `PlanSignals`, `collectSignals` and `dedupSignals` of qdata/qdata.go. A
-- set of signals is a list that a signal enters once, so the order in which Go ranges over its map
-- is the order of entry, and the result is sorted.
pub mod Order
use opentelemetry_querier.Base.{
  ℕ, Bool, true, false, ◌||◌, List, [], ◌∷◌, ◌++◌, leb, ◌==◌, if◌then◌else◌,
}
use opentelemetry_querier.Qdata.Plan.{
  Signal, Select, Node, Nodes, nil, empty, select, time_agg, aggregate, function, binary, literal,
  end, arg, QueryPlan,
}

-- `_, ok := seen[signal]`
unfoldable pub has : Signal → List Signal → Bool
has s [] = false
has s (t ∷ seen) = s == t || has s seen

-- `seen[signal] = struct{}{}`
unfoldable pub mark : Signal → List Signal → List Signal
unfolding has
mark s seen = if has s seen then seen else s ∷ seen

unfoldable mutual
  unfolding mark

  pub collect_signals : Node → List Signal → List Signal
  collect_signals nil seen = seen
  collect_signals empty seen = seen
  collect_signals (select s) seen = mark s.signal seen
  collect_signals (time_agg op window input) seen = collect_signals input seen
  collect_signals (aggregate op by without param input) seen = collect_signals input seen
  collect_signals (function name args texts) seen = collect_args args seen
  collect_signals (binary op lhs rhs matching) seen = collect_signals rhs (collect_signals lhs seen)
  collect_signals (literal v) seen = seen

  pub collect_args : Nodes → List Signal → List Signal
  collect_args end seen = seen
  collect_args (arg n ns) seen = collect_args ns (collect_signals n seen)

insert_sorted : Signal → List Signal → List Signal
insert_sorted s [] = s ∷ []
insert_sorted s (t ∷ ts) = if leb s t then s ∷ t ∷ ts else t ∷ insert_sorted s ts

-- `slices.Sort`
unfoldable pub sort : List Signal → List Signal
unfolding insert_sorted
sort [] = []
sort (s ∷ ss) = insert_sorted s (sort ss)

-- `PlanSignals`
unfoldable pub plan_signals : QueryPlan → List Signal
unfolding collect_signals sort
plan_signals plan = sort (collect_signals plan.root [])

mark_all : List Signal → List Signal → List Signal
unfolding mark
mark_all [] seen = seen
mark_all (s ∷ ss) seen = mark_all ss (mark s seen)

-- `dedupSignals`
unfoldable pub dedup_signals : List Signal → List Signal
unfolding mark_all sort
dedup_signals signals = sort (mark_all signals [])

-- The Select leaves of a plan, from left to right.
unfoldable mutual
  pub selects : Node → List Select
  selects nil = []
  selects empty = []
  selects (select s) = s ∷ []
  selects (time_agg op window input) = selects input
  selects (aggregate op by without param input) = selects input
  selects (function name args texts) = selects_of_args args
  selects (binary op lhs rhs matching) = selects lhs ++ selects rhs
  selects (literal v) = []

  pub selects_of_args : Nodes → List Select
  selects_of_args end = []
  selects_of_args (arg n ns) = selects n ++ selects_of_args ns

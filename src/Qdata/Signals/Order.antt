-- ===== src/Qdata/Signals/Order.antt =====
-- The members and the order of the lists that PlanSignals and dedupSignals return.
use opentelemetry_querier.Base.{
  false, ◌||◌, List, [], ◌∷◌, ◌++◌, map, ◌<◌, ◌≡◌, refl, arith, All, leb, ◌==◌, Bool-cases, inl,
  inr, ◌∙◌, ap,
}
use opentelemetry_querier.Qdata.Plan.{
  Signal, Select, Node, Nodes, nil, empty, select, time_agg, aggregate, function, binary, literal,
  end, arg, QueryPlan,
}
use opentelemetry_querier.Qdata.Signals.{
  has, mark, mark_all, collect_signals, collect_args, insert_sorted, sort, plan_signals,
  dedup_signals, selects, selects_of_args,
}

-- Every element is below all that follow it.
abbrev pub Ascending : List Signal → Type 0
Ascending [] = Unit
Ascending (s ∷ ss) = All (λ t. s < t) ss × Ascending ss

-- No signal twice.
abbrev Distinct : List Signal → Type 0
Distinct [] = Unit
Distinct (s ∷ ss) = (has s ss ≡ false) × Distinct ss

abbrev pub signals_of : List Select → List Signal
signals_of = map (λ s. s.signal)

has-append : (s : Signal) (xs ys : List Signal) → has s (xs ++ ys) ≡ (has s xs || has s ys)
unfolding has
has-append s [] ys = refl
has-append s (x ∷ xs) ys = ground (arith, has-append s xs ys)

has-mark : (s t : Signal) (seen : List Signal) → has s (mark t seen) ≡ (s == t || has s seen)
unfolding mark has
has-mark s t seen = elim (Bool-cases (has t seen)) [ inl h ↦ ground arith | inr h ↦ ground arith ]

mark-Distinct : (t : Signal) (seen : List Signal) → Distinct seen → Distinct (mark t seen)
unfolding mark
mark-Distinct t seen d = elim (Bool-cases (has t seen)) [ inl h ↦ rw h d | inr h ↦ rw h (h, d) ]

signals_of-append : (xs ys : List Select) → signals_of (xs ++ ys) ≡ signals_of xs ++ signals_of ys
signals_of-append [] ys = refl
signals_of-append (x ∷ xs) ys = ap (◌∷◌ x.signal) (signals_of-append xs ys)

mutual
  unfolding collect_signals selects has

  has-collect :
      (s : Signal) (n : Node) (seen : List Signal)
      → has s (collect_signals n seen) ≡ (has s (signals_of (selects n)) || has s seen)
  has-collect s nil seen = refl
  has-collect s empty seen = refl
  has-collect s (select t) seen = ground (arith, has-mark s t.signal seen)
  has-collect s (time_agg op window input) seen = has-collect s input seen
  has-collect s (aggregate op by without param input) seen = has-collect s input seen
  has-collect s (function name args texts) seen = has-collect_args s args seen
  has-collect s (binary op lhs rhs matching) seen = ground (
    arith,
    has-collect s rhs (collect_signals lhs seen),
    has-collect s lhs seen,
    signals_of-append (selects lhs) (selects rhs),
    has-append s (signals_of (selects lhs)) (signals_of (selects rhs)),
  )
  has-collect s (literal v) seen = refl

  has-collect_args :
      (s : Signal) (ns : Nodes) (seen : List Signal)
      → has s (collect_args ns seen) ≡ (has s (signals_of (selects_of_args ns)) || has s seen)
  has-collect_args s end seen = refl
  has-collect_args s (arg n ns) seen = ground (
    arith,
    has-collect_args s ns (collect_signals n seen),
    has-collect s n seen,
    signals_of-append (selects n) (selects_of_args ns),
    has-append s (signals_of (selects n)) (signals_of (selects_of_args ns)),
  )

mutual
  unfolding collect_signals

  collect-Distinct :
      (n : Node) (seen : List Signal) → Distinct seen → Distinct (collect_signals n seen)
  collect-Distinct nil seen d = d
  collect-Distinct empty seen d = d
  collect-Distinct (select t) seen d = mark-Distinct t.signal seen d
  collect-Distinct (time_agg op window input) seen d = collect-Distinct input seen d
  collect-Distinct (aggregate op by without param input) seen d = collect-Distinct input seen d
  collect-Distinct (function name args texts) seen d = collect_args-Distinct args seen d
  collect-Distinct (binary op lhs rhs matching) seen d =
      collect-Distinct rhs (collect_signals lhs seen) (collect-Distinct lhs seen d)
  collect-Distinct (literal v) seen d = d

  collect_args-Distinct :
      (ns : Nodes) (seen : List Signal) → Distinct seen → Distinct (collect_args ns seen)
  collect_args-Distinct end seen d = d
  collect_args-Distinct (arg n ns) seen d =
      collect_args-Distinct ns (collect_signals n seen) (collect-Distinct n seen d)

has-insert_sorted :
    (s t : Signal) (ts : List Signal) → has s (insert_sorted t ts) ≡ (s == t || has s ts)
unfolding insert_sorted has
has-insert_sorted s t [] = refl
has-insert_sorted s t (u ∷ ts) = ground (arith, has-insert_sorted s t ts)

has-sort : (s : Signal) (ts : List Signal) → has s (sort ts) ≡ has s ts
unfolding sort has
has-sort s [] = refl
has-sort s (t ∷ ts) = ground (arith, has-insert_sorted s t (sort ts), has-sort s ts)

All-insert_sorted :
    (a t : Signal) (ts : List Signal)
    → a < t
    → All (λ u. a < u) ts
    → All (λ u. a < u) (insert_sorted t ts)
unfolding insert_sorted
All-insert_sorted a t [] h hs = (h, tt)
All-insert_sorted a t (u ∷ ts) h hs = elim (Bool-cases (leb t u)) [
  | inl e ↦ rw e (h, hs)
  | inr e ↦ rw e (hs.0, All-insert_sorted a t ts h hs.1)
]

All-above : (a b : Signal) (ts : List Signal) → a < b → All (λ u. b < u) ts → All (λ u. a < u) ts
All-above a b [] h hs = tt
All-above a b (t ∷ ts) h hs = (omega arith, All-above a b ts h hs.1)

insert_sorted-Ascending :
    (t : Signal) (ts : List Signal)
    → has t ts ≡ false
    → Ascending ts
    → Ascending (insert_sorted t ts)
unfolding insert_sorted has
insert_sorted-Ascending t [] h d = (tt, tt)
insert_sorted-Ascending t (u ∷ ts) h d = elim (Bool-cases (leb t u)) [
  | inl e ↦ let below : t < u = ground arith in rw e ((below, All-above t u ts below d.0), d)
  | inr e ↦
      rw e (
        All-insert_sorted u t ts (ground arith) d.0,
        insert_sorted-Ascending t ts (ground arith) d.1,
      )
]

sort-Ascending : (ts : List Signal) → Distinct ts → Ascending (sort ts)
unfolding sort
sort-Ascending [] d = tt
sort-Ascending (t ∷ ts) d =
    insert_sorted-Ascending t (sort ts) (has-sort t ts ∙ d.0) (sort-Ascending ts d.1)

-- The signals of a plan ascend, without repetition, and a signal is among them exactly if some
-- Select leaf of the plan has it.
pub plan_signals_lem :
    (plan : QueryPlan)
    → Ascending (plan_signals plan)
      × ((s : Signal) → has s (plan_signals plan) ≡ has s (signals_of (selects plan.root)))
unfolding plan_signals
plan_signals_lem plan = (
  sort-Ascending (collect_signals plan.root []) (collect-Distinct plan.root [] tt),
  λ s.
      has-sort s (collect_signals plan.root [])
      ∙ has-collect s plan.root []
      ∙ (unfold has in ground arith),
)

has-mark_all :
    (s : Signal) (ss seen : List Signal) → has s (mark_all ss seen) ≡ (has s ss || has s seen)
unfolding mark_all
has-mark_all s [] seen = unfold has in refl
has-mark_all s (t ∷ ss) seen =
    has-mark_all s ss (mark t seen) ∙ (unfold has in ground (arith, has-mark s t seen))

mark_all-Distinct : (ss seen : List Signal) → Distinct seen → Distinct (mark_all ss seen)
unfolding mark_all
mark_all-Distinct [] seen d = d
mark_all-Distinct (s ∷ ss) seen d = mark_all-Distinct ss (mark s seen) (mark-Distinct s seen d)

-- `dedup_signals` keeps the signals of a list, in ascending order and without repetition.
pub dedup_signals_lem :
    (signals : List Signal)
    → Ascending (dedup_signals signals)
      × ((s : Signal) → has s (dedup_signals signals) ≡ has s signals)
unfolding dedup_signals
dedup_signals_lem signals = (
  sort-Ascending (mark_all signals []) (mark_all-Distinct signals [] tt),
  λ s. has-sort s (mark_all signals []) ∙ has-mark_all s signals [] ∙ (unfold has in ground arith),
)

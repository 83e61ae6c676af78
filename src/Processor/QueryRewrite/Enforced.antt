-- ===== src/Processor/QueryRewrite/Enforced.antt =====
-- What the queryrewrite processor makes the Selects of a plan select.
use opentelemetry_querier.Base.{
  String, Bool, true, ◌&&◌, none, some, List, [], ◌∷◌, ◌++◌, map, ◌≡◌, ◌∙◌, sym, ap, refl, arith,
  all, str_eq, if◌then◌else◌, Bool-cases, inl, inr, append-nil, append_assoc,
}
use opentelemetry_querier.Qerror.{Outcome, ok, err}
use opentelemetry_querier.Qdata.Predicate.{LabelMatcher, Predicate}
use opentelemetry_querier.Qdata.Predicate.Meaning.{meaning}
use opentelemetry_querier.Qdata.Plan.{Select, QueryPlan}
use opentelemetry_querier.Qdata.Signals.{selects}
use opentelemetry_querier.Qdata.Query.{Query, tenant_id, set_metadata}
use opentelemetry_querier.Processor.{Verdict}
use opentelemetry_querier.Processor.QueryRewrite.{
  Config, EnforceLabel, matcher_at, add_labels, collect_matchers, enforcement, compose,
  guard_select, rewrite, finish, process_query,
}
use opentelemetry_querier.Processor.QueryRewrite.Conjoin.{meaning-conjoin, meaning-enforcement}
use opentelemetry_querier.Processor.QueryRewrite.Compose.{selects-compose}

-- The matcher that a configured label stands for, under a tenant.
abbrev pub static_matcher : String → EnforceLabel → LabelMatcher
static_matcher tenant label = matcher_at label (if label.from_tenant then tenant else label.value)

add_labels-ok :
    (q : Query) (labels : List EnforceLabel) (ms out : List LabelMatcher)
    → add_labels q labels ms ≡ ok out
    → out ≡ ms ++ map (static_matcher (tenant_id q)) labels
unfolding add_labels
add_labels-ok q [] ms out h = cc (append-nil ms)
add_labels-ok q (label ∷ labels) ms out h =
    let value = (if label.from_tenant then tenant_id q else label.value) in
    elim (Bool-cases (label.from_tenant && str_eq value "")) [
      | inl e ↦ cc (rw e at h)
      | inr e ↦
          add_labels-ok q labels (ms ++ matcher_at label value ∷ []) out (rw e at h)
          ∙ append_assoc ms (matcher_at label value ∷ [])
              (map (static_matcher (tenant_id q)) labels)
    ]

-- What each Select of a plan selects, from left to right.
abbrev pub selection : (LabelMatcher → Bool) → QueryPlan → List Bool
selection sat plan = map (λ s. meaning sat s.filter) (selects plan.root)

-- Everything that the query and the configuration enforce.
abbrev pub enforced_by : Config → Query → List LabelMatcher
enforced_by cfg q = q.enforced_matchers ++ map (static_matcher (tenant_id q)) cfg.enforce_labels

map-guard :
    (sat : LabelMatcher → Bool) (e : Predicate) (ss : List Select)
    → map (λ s. meaning sat s.filter) (map (guard_select e) ss)
      ≡ map (λ b. b && meaning sat e) (map (λ s. meaning sat s.filter) ss)
map-guard sat e [] = refl
map-guard sat e (s ∷ ss) = cc (meaning-conjoin sat s.filter e, map-guard sat e ss)

map-true : (bs : List Bool) → bs ≡ map (λ b. b && true) bs
map-true [] = refl
map-true (b ∷ bs) = ground (arith, map-true bs)

rewrite-selection :
    (q : Query) (plan : QueryPlan) (e : Predicate)
    → q.plan ≡ some plan
    → (plan' : QueryPlan) × ((rewrite q plan e).plan ≡ some plan')
      × ((sat : LabelMatcher → Bool)
          → selection sat plan' ≡ map (λ b. b && meaning sat e) (selection sat plan))
unfolding rewrite set_metadata
rewrite-selection q plan Predicate.nil h =
    (plan, h, λ sat. unfold meaning in map-true (selection sat plan))
rewrite-selection q plan e h = (
  record { root = compose e plan.root },
  refl,
  λ sat.
      ap (map (λ s. meaning sat s.filter)) (selects-compose e plan.root)
      ∙ map-guard sat e (selects plan.root),
)

module _ (cfg : Config) (q : Query) where
  process_query_lem :
      (plan : QueryPlan)
      → q.plan ≡ some plan
      → process_query cfg q ≡ finish q plan (collect_matchers cfg q)
  unfolding process_query
  process_query_lem plan p =
      ap {B = Verdict}
        (λ o. elim o [ none ↦ (none, q) | some pl ↦ finish q pl (collect_matchers cfg q) ]) p

  finish-selection :
      (plan : QueryPlan) (collected : Outcome (List LabelMatcher))
      → collect_matchers cfg q ≡ collected
      → q.plan ≡ some plan
      → (finish q plan collected).0 ≡ none
      → (plan' : QueryPlan) × ((finish q plan collected).1.plan ≡ some plan')
        × ((sat : LabelMatcher → Bool)
            → selection sat plan'
              ≡ map
                  (λ b.
                    b && (all sat (enforced_by cfg q) && all (meaning sat) q.enforced_predicates))
                  (selection sat plan))
  unfolding collect_matchers
  finish-selection plan (err e) c p h = cc
  finish-selection plan (ok ms) c p h =
      let (plan', rewritten, selected) = rewrite-selection q plan (enforcement q ms) p in
      let all_of : ms ≡ enforced_by cfg q =
        add_labels-ok q cfg.enforce_labels q.enforced_matchers ms c in
      (
        plan',
        rewritten,
        λ sat.
            selected sat
            ∙ ap (λ b. map (λ b'. b' && b) (selection sat plan))
                (meaning-enforcement sat q ms
                  ∙ ap (λ xs. all sat xs && all (meaning sat) q.enforced_predicates) all_of),
      )

  -- If a query with a plan passes, it has a plan in which each Select, from left to right, selects
  -- exactly what it selected before of the series that satisfy every enforced matcher of the query,
  -- every configured label at the query's tenant, and every enforced predicate of the query. So a
  -- matcher of the client on an enforced label stays, beside the enforced one.
  pub process_query-selection :
      (plan : QueryPlan)
      → q.plan ≡ some plan
      → (process_query cfg q).0 ≡ none
      → (plan' : QueryPlan) × ((process_query cfg q).1.plan ≡ some plan')
        × ((sat : LabelMatcher → Bool)
            → selection sat plan'
              ≡ map
                  (λ b.
                    b && (all sat (enforced_by cfg q) && all (meaning sat) q.enforced_predicates))
                  (selection sat plan))
  process_query-selection plan p h =
      let run = process_query_lem plan p in
      let (plan', composed, selected) =
        finish-selection plan (collect_matchers cfg q) refl p (sym (ap (λ v. v.0) run) ∙ h) in
      (plan', ap (λ v. v.1.plan) run ∙ composed, selected)

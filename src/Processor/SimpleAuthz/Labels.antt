-- ===== src/Processor/SimpleAuthz/Labels.antt =====
-- What a rule adds to a query that it allows: its labels, resolved at the tenant.
use opentelemetry_querier.Base.{
  String, Bool, true, false, ◌&&◌, not, none, List, [], ◌∷◌, ◌++◌, map, ◌≡◌, ◌≢◌, ◌∙◌, refl, arith,
  ap, append_assoc, append-nil, str_eq, if◌then◌else◌, Bool-cases, inl, inr,
}
use opentelemetry_querier.Qdata.Predicate.{LabelMatcher}
use opentelemetry_querier.Qdata.Query.{Query, tenant_id, tenant_id_of_metadata}
use opentelemetry_querier.Processor.{Verdict}
use opentelemetry_querier.Processor.SimpleAuthz.{EnforceLabel, label_matcher, enforce}

-- The matcher that a label stands for, under a tenant.
abbrev pub scoped : String → EnforceLabel → LabelMatcher
scoped tenant label = label_matcher label (if label.from_tenant then tenant else label.value)

-- Whether a label can be resolved under a tenant.
abbrev pub resolves : String → EnforceLabel → Bool
resolves tenant label = not (label.from_tenant && str_eq tenant "")

abbrev pub resolve_all : String → List EnforceLabel → Bool
resolve_all tenant [] = true
resolve_all tenant (label ∷ labels) = resolves tenant label && resolve_all tenant labels

abbrev pub with_matchers : Query → List LabelMatcher → Query
with_matchers q ms = record q { enforced_matchers = q.enforced_matchers ++ ms }

-- the test of the loop of `enforce`
abbrev pub unresolved : String → EnforceLabel → Bool
unresolved t label = label.from_tenant && str_eq (if label.from_tenant then t else label.value) ""

pub unresolved_lem :
    (t : String) (label : EnforceLabel) → unresolved t label ≡ not (resolves t label)
unresolved_lem t label = ground arith

pub enforce_resolved :
    (t : String) (labels : List EnforceLabel) (q : Query)
    → tenant_id q ≡ t
    → resolve_all t labels ≡ true
    → enforce q labels ≡ (none, with_matchers q (map (scoped t) labels))
unfolding enforce
enforce_resolved t [] q e h = rw (append-nil q.enforced_matchers)
enforce_resolved t (label ∷ labels) q e h =
    let first : resolves t label ≡ true = ground arith in
    let later : resolve_all t labels ≡ true = ground arith in
    let q' = with_matchers q (scoped t label ∷ []) in
    rw (e, unresolved_lem t label, first)
      (enforce_resolved t labels q' (tenant_id_of_metadata q' q refl ∙ e) later
        ∙ ap {B = Verdict} (λ ms. (none, record q { enforced_matchers = ms }))
            (append_assoc q.enforced_matchers (scoped t label ∷ []) (map (scoped t) labels)))

pub enforce_unresolved :
    (t : String) (labels : List EnforceLabel) (q : Query)
    → tenant_id q ≡ t
    → resolve_all t labels ≡ false
    → (enforce q labels).0 ≢ none
unfolding enforce
enforce_unresolved t [] q e h = cc
enforce_unresolved t (label ∷ labels) q e h = elim (Bool-cases (resolves t label)) [
  | inr first ↦ rw (e, unresolved_lem t label, first) (λ p. cc)
  | inl first ↦
      let later : resolve_all t labels ≡ false = ground arith in
      let q' = with_matchers q (scoped t label ∷ []) in
      rw (e, unresolved_lem t label, first)
        (enforce_unresolved t labels q' (tenant_id_of_metadata q' q refl ∙ e) later)
]

-- ===== src/Processor/SimpleAuthz/Policy.antt =====
-- What the policy decides, and how it scopes the queries that it allows.
use opentelemetry_querier.Base.{
  String, Bool, true, false, ◌&&◌, not, Option, none, some, List, [], ◌∷◌, ◌++◌, map, ◌≡◌, ◌⊎◌, ◌∙◌,
  sym, refl, arith, ap, append-nil, All, str_eq, str_eq_iff, Bool-cases, inl, inr,
}
use opentelemetry_querier.Qerror.{Error, code_of, permission_denied}
use opentelemetry_querier.Qdata.Predicate.{LabelMatcher}
use opentelemetry_querier.Qdata.Query.{
  Query, tenant_id, set_metadata, metadata_of-set_metadata, metadata_tenant_id,
}
use opentelemetry_querier.Processor.SimpleAuthz.{
  Config, Rule, EnforceLabel, applies, match_rule, denies, enforce, decide, process_query,
  resolve_subject, note_subject, effect_allow, metadata_subject,
}
use opentelemetry_querier.Processor.SimpleAuthz.Labels.{
  scoped, resolve_all, with_matchers, unresolved, enforce_resolved, enforce_unresolved,
}
use opentelemetry_querier.Processor.SimpleAuthz.Rules.{
  FirstMatch, match_rule-FirstMatch, match_rule-none, FirstMatch-match_rule,
}

-- Recording the subject changes neither the tenant nor the enforced matchers.
tenant_id-note_subject : (q : Query) (s : String) → tenant_id (note_subject q s) ≡ tenant_id q
unfolding tenant_id
tenant_id-note_subject q s = elim (Bool-cases (str_eq s "")) [
  | inl e ↦ rw e
  | inr e ↦ rw e (metadata_of-set_metadata q metadata_subject metadata_tenant_id s)
]

matchers-note_subject :
    (q : Query) (s : String) → (note_subject q s).enforced_matchers ≡ q.enforced_matchers
unfolding set_metadata
matchers-note_subject q s = ground arith

-- A query that the policy lets pass: a rule allows it and its labels resolve, or no rule applies
-- and the default allows it.
abbrev pub Allows : Config → String → String → List LabelMatcher → Type 0
Allows cfg subject tenant added =
    ((rule : Rule) × FirstMatch cfg.rules subject rule
      × (rule.effect ≡ effect_allow)
      × (resolve_all tenant rule.enforce_labels ≡ true)
      × (added ≡ map (scoped tenant) rule.enforce_labels))
    ⊎ All (λ r. applies r subject ≡ false) cfg.rules
      × (cfg.default_effect ≡ effect_allow)
      × (added ≡ [])

allowed-eq : (effect : String) → denies effect ≡ false → effect ≡ effect_allow
allowed-eq effect h = ground (arith, str_eq_iff effect effect_allow)

eq-allowed : (effect : String) → effect ≡ effect_allow → denies effect ≡ false
eq-allowed effect h = ground (arith, str_eq_iff effect effect_allow)

enforce-resolves :
    (labels : List EnforceLabel) (q : Query)
    → (enforce q labels).0 ≡ none
    → resolve_all (tenant_id q) labels ≡ true
enforce-resolves labels q h = elim (Bool-cases (resolve_all (tenant_id q) labels)) [
  | inl e ↦ e
  | inr e ↦ absurd (enforce_unresolved (tenant_id q) labels q refl e h)
]

decide-denied :
    (cfg : Config) (q : Query) (o : Option Rule)
    → (decide cfg q o).0 ≡ none
    → denies (elim o [ none ↦ cfg.default_effect | some rule ↦ rule.effect ]) ≡ false
unfolding decide
decide-denied cfg q none h = ground arith
decide-denied cfg q (some rule) h = ground arith

decide-Allows :
    (cfg : Config) (q : Query) (subject : String) (o : Option Rule)
    → match_rule cfg.rules subject ≡ o
    → (decide cfg q o).0 ≡ none
    → (added : List LabelMatcher) × ((decide cfg q o).1.enforced_matchers
        ≡ q.enforced_matchers ++ added)
      × Allows cfg subject (tenant_id q) added
unfolding decide
decide-Allows cfg q subject none m h =
    let allowed : denies cfg.default_effect ≡ false = decide-denied cfg q none h in
    (
      [],
      rw allowed (sym (append-nil q.enforced_matchers)),
      inr (match_rule-none cfg.rules subject m, allowed-eq cfg.default_effect allowed, refl),
    )
decide-Allows cfg q subject (some rule) m h =
    let allowed : denies rule.effect ≡ false = decide-denied cfg q (some rule) h in
    let passed : (enforce q rule.enforce_labels).0 ≡ none = rw allowed at h in
    let resolved = enforce-resolves rule.enforce_labels q passed in
    (
      map (scoped (tenant_id q)) rule.enforce_labels,
      rw (allowed, enforce_resolved (tenant_id q) rule.enforce_labels q refl resolved) refl,
      inl (
        rule,
        match_rule-FirstMatch cfg.rules subject rule m,
        allowed-eq rule.effect allowed,
        resolved,
        refl,
      ),
    )

plan-decide :
    (cfg : Config) (q : Query) (o : Option Rule)
    → (decide cfg q o).0 ≡ none
    → (decide cfg q o).1.plan ≡ q.plan
unfolding decide
plan-decide cfg q none h = ground arith
plan-decide cfg q (some rule) h =
    let allowed : denies rule.effect ≡ false = decide-denied cfg q (some rule) h in
    let passed : (enforce q rule.enforce_labels).0 ≡ none = rw allowed at h in
    rw
      (
        allowed,
        enforce_resolved (tenant_id q) rule.enforce_labels q refl
            (enforce-resolves rule.enforce_labels q passed),
      )
      refl

enforce-permission_denied :
    (labels : List EnforceLabel) (q : Query) (e : Error)
    → (enforce q labels).0 ≡ some e
    → code_of e ≡ permission_denied
unfolding enforce code_of
enforce-permission_denied [] q e h = cc
enforce-permission_denied (label ∷ labels) q e h =
    elim (Bool-cases (unresolved (tenant_id q) label)) [
      | inl p ↦ let e' = rw p at h in ground arith
      | inr p ↦
          enforce-permission_denied labels (with_matchers q (scoped (tenant_id q) label ∷ [])) e
            (rw p at h)
    ]

decide-permission_denied :
    (cfg : Config) (q : Query) (o : Option Rule) (e : Error)
    → (decide cfg q o).0 ≡ some e
    → code_of e ≡ permission_denied
unfolding decide code_of
decide-permission_denied cfg q none e h = ground arith
decide-permission_denied cfg q (some rule) e h = elim (Bool-cases (denies rule.effect)) [
  | inl p ↦ let e' = rw p at h in ground arith
  | inr p ↦ enforce-permission_denied rule.enforce_labels q e (rw p at h)
]

-- Whether the query has a subject where one is required.
abbrev pub has_subject : Config → String → Bool
has_subject cfg subject = not (str_eq subject "" && cfg.required)

module _ (cfg : Config) (q : Query) where
  abbrev subject : String
  subject = resolve_subject cfg q

  process_query_lem :
      has_subject cfg subject ≡ true
      → process_query cfg q ≡ decide cfg (note_subject q subject) (match_rule cfg.rules subject)
  unfolding process_query
  process_query_lem h = let e : (str_eq subject "" && cfg.required) ≡ false = ground arith in rw e

  subject_required : (process_query cfg q).0 ≡ none → has_subject cfg subject ≡ true
  unfolding process_query
  subject_required h = elim (Bool-cases (str_eq subject "" && cfg.required)) [
    | inl e ↦ cc (rw e at h)
    | inr e ↦ rw e
  ]

  -- If a query passes, it has a subject where one is required; the first rule that applies to the
  -- subject allows it and every label of that rule resolves, or no rule applies and the default
  -- effect is to allow; and its enforced matchers are those that stood there with the rule's
  -- labels behind them, at the tenant of the query.
  pub process_query-Allows :
      (process_query cfg q).0 ≡ none
      → (added : List LabelMatcher) × ((process_query cfg q).1.enforced_matchers
          ≡ q.enforced_matchers ++ added)
        × (has_subject cfg (resolve_subject cfg q) ≡ true)
        × Allows cfg (resolve_subject cfg q) (tenant_id q) added
  process_query-Allows h =
      let known = subject_required h in
      let run = process_query_lem known in
      let (added, matchers, allows) =
        decide-Allows cfg (note_subject q subject) subject (match_rule cfg.rules subject) refl
          (sym (ap (λ v. v.0) run) ∙ h) in
      (
        added,
        ap (λ v. v.1.enforced_matchers) run
            ∙ matchers
            ∙ ap (λ ms. ms ++ added) (matchers-note_subject q subject),
        known,
        rw (tenant_id-note_subject q subject) at allows,
      )

  -- If the first rule that applies to a query's subject allows it and every label of that rule
  -- resolves, the query passes; it carries the subject, and the rule's labels behind the enforced
  -- matchers that it had.
  pub process_query-passes :
      (rule : Rule)
      → FirstMatch cfg.rules (resolve_subject cfg q) rule
      → rule.effect ≡ effect_allow
      → resolve_all (tenant_id q) rule.enforce_labels ≡ true
      → has_subject cfg (resolve_subject cfg q) ≡ true
      → process_query cfg q ≡ (
        none,
        with_matchers
            (note_subject q (resolve_subject cfg q))
            (map (scoped (tenant_id q)) rule.enforce_labels),
      )
  unfolding decide
  process_query-passes rule (before, after, split, skipped, hit) effect resolved known =
      let found : match_rule cfg.rules subject ≡ some rule =
        ap (λ rs. match_rule rs subject) split
        ∙ FirstMatch-match_rule before after subject rule skipped hit in
      process_query_lem known
      ∙ rw (found, eq-allowed rule.effect effect)
          (enforce_resolved (tenant_id q) rule.enforce_labels (note_subject q subject)
            (tenant_id-note_subject q subject) resolved)

  -- The processor only ever refuses a query as a denied permission.
  pub process_query-permission_denied :
      (e : Error) → (process_query cfg q).0 ≡ some e → code_of e ≡ permission_denied
  unfolding process_query code_of
  process_query-permission_denied e h = elim (Bool-cases (str_eq subject "" && cfg.required)) [
    | inl p ↦ let e' = rw p at h in ground arith
    | inr p ↦
        decide-permission_denied cfg (note_subject q subject) (match_rule cfg.rules subject) e
          (rw p at h)
  ]

  plan-note_subject : (note_subject q subject).plan ≡ q.plan
  unfolding set_metadata
  plan-note_subject = ground arith

  -- A query that passes keeps its plan.
  pub plan-process_query : (process_query cfg q).0 ≡ none → (process_query cfg q).1.plan ≡ q.plan
  plan-process_query h =
      let run = process_query_lem (subject_required h) in
      ap (λ v. v.1.plan) run
      ∙ plan-decide cfg (note_subject q subject) (match_rule cfg.rules subject)
          (sym (ap (λ v. v.0) run) ∙ h)
      ∙ plan-note_subject

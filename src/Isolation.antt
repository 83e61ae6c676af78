-- ===== src/Isolation.antt =====
-- How the enforcing processors work together on the request path of pipeline/pipeline.go: tenant
-- resolution, processors that register further matchers, and the rewrite of the plan.
use opentelemetry_querier.Base.{
  Bool, true, false, ◌&&◌, not, none, some, List, [], ◌∷◌, ◌++◌, map, ◌≡◌, ◌≢◌, ◌∙◌, sym, ap, refl,
  arith, all, all-append, All, append-nil, append_assoc, Option-cases, Bool-cases, inl, inr, str_eq,
  str_eq_iff,
}
use opentelemetry_querier.Qdata.Predicate.{LabelMatcher}
use opentelemetry_querier.Qdata.Plan.{QueryPlan}
use opentelemetry_querier.Qdata.Query.{Query}
use opentelemetry_querier.Processor.{Processor, on_query}
use opentelemetry_querier.Processor.Tenant
use opentelemetry_querier.Processor.Tenant.{equal_matcher, resolve}
use opentelemetry_querier.Processor.SimpleAuthz
use opentelemetry_querier.Processor.SimpleAuthz.Policy.{process_query-Allows, plan-process_query}
use opentelemetry_querier.Processor.QueryRewrite
use opentelemetry_querier.Processor.QueryRewrite.Enforced.{selection, process_query-selection}
use opentelemetry_querier.Pipeline.{request}

module _ {W : Type 0} where
  -- Whenever it lets a query pass, the processor has left its plan alone, and has added to its
  -- enforced matchers at most.
  pub record AddsMatchers (p : Processor W) : Type 0 where
    pub plan :
        (w : W) (q : Query) → (p.process_query w q).0 ≡ none → (p.process_query w q).2.plan ≡ q.plan
    pub matchers :
        (w : W) (q : Query)
        → (p.process_query w q).0 ≡ none
        → (added : List LabelMatcher) × ((p.process_query w q).2.enforced_matchers
            ≡ q.enforced_matchers ++ added)

  request-AddsMatchers :
      (ps : List (Processor W)) (w : W) (q : Query)
      → All AddsMatchers ps
      → (request ps w q).0 ≡ none
      → ((request ps w q).2.plan ≡ q.plan)
        × ((added : List LabelMatcher) × ((request ps w q).2.enforced_matchers
              ≡ q.enforced_matchers ++ added))
  unfolding request
  request-AddsMatchers [] w q a h = (refl, ([], sym (append-nil q.enforced_matchers)))
  request-AddsMatchers (p ∷ ps) w q (a, as') h = elim (Option-cases (p.process_query w q).0) [
    | inr (e, failed) ↦ cc (rw (failed, request) at h)
    | inl passed ↦
        let q1 = (p.process_query w q).2 in
        let (plan, added) =
          request-AddsMatchers ps (p.process_query w q).1 q1 as' (rw (passed, request) at h) in
        let (first, own) = a.matchers w q passed in
        (
          rw (passed, request) (plan ∙ a.plan w q passed),
          (
            first ++ added.0,
            rw (passed, request)
                (added.1
                  ∙ ap (λ ms. ms ++ added.0) own
                  ∙ append_assoc q.enforced_matchers first added.0),
          ),
        )
  ]

  -- The tenant processor is one of them.
  pub tenant-AddsMatchers :
      (cfg : Tenant.Config) → AddsMatchers (on_query (Tenant.process_query cfg))
  unfolding on_query
  tenant-AddsMatchers cfg = record {
    plan = λ w q h. (Tenant.plan-process_query cfg q).0;
    matchers = λ w q h. elim (Bool-cases (str_eq cfg.enforce_label "")) [
      | inl e ↦ ([], Tenant.process_query-unlabelled cfg q ((str_eq_iff cfg.enforce_label "").0 e))
      | inr e ↦ (
        equal_matcher cfg.enforce_label (resolve cfg q) ∷ [],
        Tenant.process_query-enforces cfg q h
            (λ p. ground (arith, str_eq_iff cfg.enforce_label "")),
      )
    ];
  }

  -- So is the authorization processor.
  pub simple_authz-AddsMatchers :
      (cfg : SimpleAuthz.Config) → AddsMatchers (on_query (SimpleAuthz.process_query cfg))
  unfolding on_query
  simple_authz-AddsMatchers cfg = record {
    plan = λ w q h. plan-process_query cfg q h;
    matchers =
        λ w q h. let (added, appended, _, _) = process_query-Allows cfg q h in (added, appended);
  }

  request-cons :
      (p : Processor W) (ps : List (Processor W)) (w : W) (q : Query)
      → (request (p ∷ ps) w q).0 ≡ none
      → ((p.process_query w q).0 ≡ none)
        × (request (p ∷ ps) w q ≡ request ps (p.process_query w q).1 (p.process_query w q).2)
  unfolding request
  request-cons p ps w q h = elim (Option-cases (p.process_query w q).0) [
    | inr (e, failed) ↦ cc (rw (failed, request) at h)
    | inl passed ↦ (passed, rw (passed, request) refl)
  ]

  request-append :
      (ps ps' : List (Processor W)) (w : W) (q : Query)
      → (request (ps ++ ps') w q).0 ≡ none
      → ((request ps w q).0 ≡ none)
        × (request (ps ++ ps') w q ≡ request ps' (request ps w q).1 (request ps w q).2)
  unfolding request
  request-append [] ps' w q h = (refl, refl)
  request-append (p ∷ ps) ps' w q h = elim (Option-cases (p.process_query w q).0) [
    | inr (e, failed) ↦ cc (rw (failed, request) at h)
    | inl passed ↦
        let (first, same) =
          request-append ps ps' (p.process_query w q).1 (p.process_query w q).2
            (rw (passed, request) at h) in
        (rw (passed, request) first, rw (passed, request) same)
  ]

-- A list that holds a matcher which fails does not hold altogether.
and_fails :
    (sat : LabelMatcher → Bool) (m : LabelMatcher) (ms before more later : List LabelMatcher)
    (b : Bool)
    → ms ≡ (before ++ m ∷ []) ++ more
    → sat m ≡ false
    → (all sat (ms ++ later) && b) ≡ false
and_fails sat m ms before more later b e h = ground (
  arith,
  all-append sat ms later,
  all-append sat (before ++ m ∷ []) more,
  all-append sat before (m ∷ []),
)

none_selected : (bs : List Bool) (c : Bool) → c ≡ false → all not (map (λ b. b && c) bs) ≡ true
none_selected [] c h = refl
none_selected (b ∷ bs) c h = ground (arith, none_selected bs c h)

module _ {W : Type 0} (tenant_cfg : Tenant.Config) (rewrite_cfg : QueryRewrite.Config) where
  -- The chain of the enforcing processors.
  abbrev pub chain : List (Processor W) → List (Processor W)
  chain others =
      on_query (Tenant.process_query tenant_cfg)
      ∷ (others ++ on_query (QueryRewrite.process_query rewrite_cfg) ∷ [])

  abbrev tenant : Processor W
  tenant = on_query (Tenant.process_query tenant_cfg)

  abbrev rewriter : Processor W
  rewriter = on_query (QueryRewrite.process_query rewrite_cfg)

  rest-isolates :
      (others : List (Processor W)) (w : W) (q : Query) (plan : QueryPlan) (m : LabelMatcher)
      (before : List LabelMatcher)
      → All AddsMatchers others
      → q.enforced_matchers ≡ before ++ m ∷ []
      → q.plan ≡ some plan
      → (request (others ++ rewriter ∷ []) w q).0 ≡ none
      → (plan' : QueryPlan) × ((request (others ++ rewriter ∷ []) w q).2.plan ≡ some plan')
        × ((sat : LabelMatcher → Bool) → sat m ≡ false → all not (selection sat plan') ≡ true)
  rest-isolates others w q plan m before adds holds planned passed =
      let (others_passed, run) = request-append others (rewriter ∷ []) w q passed in
      let (same_plan, added) = request-AddsMatchers others w q adds others_passed in
      let w' = (request others w q).1 in
      let q' = (request others w q).2 in
      let (rewrite_passed, last) =
        request-cons rewriter [] w' q' (sym (ap (λ r. r.0) run) ∙ passed) in
      let (plan', rewritten, selects) =
        process_query-selection rewrite_cfg q' plan (same_plan ∙ planned)
          (unfold on_query in rewrite_passed) in
      (
        plan',
        ap (λ r. r.2.plan) (run ∙ last) ∙ (unfold request on_query in rewritten),
        λ sat lacks.
            ap (all not) (selects sat)
            ∙ none_selected (selection sat plan) _ (
                and_fails sat m q'.enforced_matchers before added.0 _ _
                  (added.1 ∙ ap (λ ms. ms ++ added.0) holds) lacks),
      )

  -- A query with a plan that passes the chain, with an isolation label configured, where each
  -- processor in between keeps the plan and only adds enforced matchers, leaves it with a plan none
  -- of whose Selects selects anything that lacks the label at the tenant of the request's header,
  -- or at the default.
  pub chain-isolates :
      (others : List (Processor W)) (w : W) (q : Query) (plan : QueryPlan)
      (sat : LabelMatcher → Bool)
      → All AddsMatchers others
      → tenant_cfg.enforce_label ≢ ""
      → q.plan ≡ some plan
      → (request (chain others) w q).0 ≡ none
      → sat (equal_matcher tenant_cfg.enforce_label (resolve tenant_cfg q)) ≡ false
      → (plan' : QueryPlan) × ((request (chain others) w q).2.plan ≡ some plan')
        × (all not (selection sat plan') ≡ true)
  unfolding on_query
  chain-isolates others w q plan sat adds labelled planned passed lacks =
      let (tenant_passed, run) = request-cons tenant (others ++ rewriter ∷ []) w q passed in
      let (plan', left, isolated) =
        rest-isolates others w (Tenant.process_query tenant_cfg q).1 plan
          (equal_matcher tenant_cfg.enforce_label (resolve tenant_cfg q)) q.enforced_matchers adds
          (Tenant.process_query-enforces tenant_cfg q tenant_passed labelled)
          ((Tenant.plan-process_query tenant_cfg q).0 ∙ planned)
          (sym (ap (λ r. r.0) run) ∙ passed) in
      (plan', ap (λ r. r.2.plan) run ∙ left, isolated sat lacks)

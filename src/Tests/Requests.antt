-- ===== src/Tests/Requests.antt =====
-- The request path at concrete inputs: ingress, tenant, authorization, rewrite and pipeline.
use opentelemetry_querier.Base.{
  String, Bool, true, false, ◌&&◌, not, none, some, List, [], ◌∷◌, ◌++◌, map, ◌≡◌, ◌≢◌, ◌↔◌, ◌⊎◌,
  inl, inr, refl, arith, all, All, contains, str_eq, str_eq_iff, equal_fold,
}
use opentelemetry_querier.Qerror.{
  Error, ok, err, coded, wrapped, code_of, permission_denied, unauthenticated, invalid_argument,
}
use opentelemetry_querier.Qdata.Predicate.{LabelMatcher, Predicate, leaf, validate_predicate}
use opentelemetry_querier.Qdata.Predicate.Meaning.{meaning}
use opentelemetry_querier.Qdata.Plan.{QueryPlan, validate_plan}
use opentelemetry_querier.Qdata.Query.{
  Query, tenant_id, set_tenant_id, delete_metadata, sync_plan_signals,
}
use opentelemetry_querier.Qdata.Result.{absent}
use opentelemetry_querier.Acceptor.Ingress.{
  prepare_ingress, prepare_ingress_lem, prepare_ingress-FoldDistinct,
}
use opentelemetry_querier.Processor.{Processor, on_query}
use opentelemetry_querier.Processor.Header.{header_value, FoldDistinct, header_value-Entry}
use opentelemetry_querier.Processor.Tenant
use opentelemetry_querier.Processor.Tenant.{resolve, equal_matcher, process_query-accepts}
use opentelemetry_querier.Processor.Tenant.Source.{IsTenant, process_query-IsTenant}
use opentelemetry_querier.Processor.SimpleAuthz
use opentelemetry_querier.Processor.SimpleAuthz.Labels.{scoped, with_matchers}
use opentelemetry_querier.Processor.SimpleAuthz.Policy.{
  Allows, has_subject, process_query-Allows, process_query-passes, process_query-permission_denied,
}
use opentelemetry_querier.Processor.QueryRewrite
use opentelemetry_querier.Processor.QueryRewrite.{compose}
use opentelemetry_querier.Processor.QueryRewrite.Compose.{compose-accepted}
use opentelemetry_querier.Processor.QueryRewrite.Enforced.{
  selection, enforced_by, process_query-selection,
}
use opentelemetry_querier.Pipeline.{Dispatcher, Pipeline, request, handle}
use opentelemetry_querier.Pipeline.Order.{
  asked, dispatched, answered, full_order, logged_pipeline, Performed, is_ok, handle-order,
}
use opentelemetry_querier.Pipeline.Runs.{Handled, handle-Handled}
use opentelemetry_querier.Isolation.{chain, AddsMatchers, simple_authz-AddsMatchers, chain-isolates}
use opentelemetry_querier.Base.Assoc.{lookup, insert}
use opentelemetry_querier.Tests.Fixtures.{
  matcher, joined, windowless, transport, spoofed, admitted, tenant_cfg, rewrite_cfg,
}

transport_distinct : FoldDistinct transport
unfolding equal_fold
transport_distinct = ((refl, tt), (tt, tt))

prepare_ingress_example : prepare_ingress spoofed transport ≡ record spoofed {
  metadata = [];
  header = transport;
  enforced_matchers = [];
  enforced_predicates = [];
}
prepare_ingress_example = prepare_ingress_lem spoofed transport transport_distinct

prepare_ingress-FoldDistinct_example :
    FoldDistinct (prepare_ingress spoofed (("A", []) ∷ ("a", []) ∷ [])).header
prepare_ingress-FoldDistinct_example =
    prepare_ingress-FoldDistinct spoofed (("A", []) ∷ ("a", []) ∷ [])

folds : equal_fold "X-Scope-Orgid" "X-Scope-OrgID" ≡ true
unfolding equal_fold
folds = refl

header_value-Entry_example : header_value transport "X-Scope-OrgID" ≡ "acme"
header_value-Entry_example =
    header_value-Entry transport "X-Scope-Orgid" "X-Scope-OrgID" "acme" [] transport_distinct
      (inr (inl refl)) folds

process_query-IsTenant_example :
    IsTenant tenant_cfg spoofed.header (tenant_id (Tenant.process_query tenant_cfg spoofed).1)
process_query-IsTenant_example = process_query-IsTenant tenant_cfg spoofed

process_query-accepts_example : ((Tenant.process_query tenant_cfg admitted).0 ≡ none) ↔ (
    (resolve tenant_cfg admitted ≢ "")
    ⊎ ((tenant_cfg.required ≡ false) × (tenant_cfg.enforce_label ≡ "")))
process_query-accepts_example = process_query-accepts tenant_cfg admitted

-- everything that a request path computes with
run : Unit {0}
unfolding request on_query Tenant.process_query SimpleAuthz.process_query QueryRewrite.process_query
    header_value equal_fold set_tenant_id delete_metadata contains tenant_id lookup insert
run = tt

abbrev authz_cfg : SimpleAuthz.Config
authz_cfg = record {
  subject_header = "X-Scope-User";
  from_tenant = true;
  default_subject = "";
  required = true;
  default_effect = "deny";
  rules =
      (record {
        subjects = "acme" ∷ [];
        effect = "allow";
        enforce_labels = (record { name = "team"; value = ""; from_tenant = true }) ∷ [];
      })
      ∷ [];
}

abbrev others : List (Processor (Unit {0}))
others = on_query (SimpleAuthz.process_query authz_cfg) ∷ []

chain_passes : (request (chain tenant_cfg rewrite_cfg others) tt admitted).0 ≡ none
unfolding run
chain_passes = refl

others_add : All AddsMatchers others
others_add = (simple_authz-AddsMatchers authz_cfg, tt)

labelled : tenant_cfg.enforce_label ≢ ""
labelled = ground (arith, str_eq_iff "tenant" "")

abbrev elsewhere : LabelMatcher → Bool
elsewhere m = not (str_eq m.name "tenant")

chain-isolates_example :
    (plan' : QueryPlan) × ((request (chain tenant_cfg rewrite_cfg others) tt admitted).2.plan
      ≡ some plan')
    × (all not (selection elsewhere plan') ≡ true)
chain-isolates_example =
    chain-isolates tenant_cfg rewrite_cfg others tt admitted joined elsewhere others_add labelled
      refl chain_passes refl

abbrev enforcing : Query
enforcing = record admitted { enforced_matchers = matcher "tenant" "acme" ∷ [] }

rewrite_passes : (QueryRewrite.process_query rewrite_cfg enforcing).0 ≡ none
unfolding run
rewrite_passes = refl

process_query-selection_example :
    (plan' : QueryPlan) × ((QueryRewrite.process_query rewrite_cfg enforcing).1.plan ≡ some plan')
    × ((sat : LabelMatcher → Bool)
        → selection sat plan'
          ≡ map
              (λ b.
                b
                && (all sat (enforced_by rewrite_cfg enforcing)
                    && all (meaning sat) enforcing.enforced_predicates))
              (selection sat joined))
process_query-selection_example =
    process_query-selection rewrite_cfg enforcing joined refl rewrite_passes

abbrev guard : Predicate
guard = leaf (some (matcher "tenant" "acme"))

guard_accepted : validate_predicate guard ≡ none
unfolding validate_predicate
guard_accepted = refl

plan_accepted : validate_plan joined ≡ none
unfolding validate_plan
plan_accepted = refl

compose-accepted_example : validate_plan (record { root = compose guard joined.root }) ≡ none
compose-accepted_example = compose-accepted guard joined guard_accepted plan_accepted

abbrev tenanted : Query
tenanted = record admitted { metadata = ("tenant.id", "acme") ∷ [] }

authz_passes : (SimpleAuthz.process_query authz_cfg tenanted).0 ≡ none
unfolding run
authz_passes = refl

process_query-Allows_example :
    (added : List LabelMatcher) × ((SimpleAuthz.process_query authz_cfg
        tenanted).1.enforced_matchers
      ≡ tenanted.enforced_matchers ++ added)
    × (has_subject authz_cfg (SimpleAuthz.resolve_subject authz_cfg tenanted) ≡ true)
    × Allows authz_cfg (SimpleAuthz.resolve_subject authz_cfg tenanted) (tenant_id tenanted) added
process_query-Allows_example = process_query-Allows authz_cfg tenanted authz_passes

abbrev team_rule : SimpleAuthz.Rule
team_rule = record {
  subjects = "acme" ∷ [];
  effect = "allow";
  enforce_labels = (record { name = "team"; value = ""; from_tenant = true }) ∷ [];
}

process_query-passes_example : SimpleAuthz.process_query authz_cfg tenanted ≡ (
  none,
  with_matchers
      (SimpleAuthz.note_subject tenanted (SimpleAuthz.resolve_subject authz_cfg tenanted))
      (map (scoped (tenant_id tenanted)) team_rule.enforce_labels),
)
unfolding run
process_query-passes_example =
    process_query-passes authz_cfg tenanted team_rule ([], [], refl, tt, refl) refl refl refl

abbrev refusal : Error
refusal = coded permission_denied "simpleauthz: no subject resolved from %s"

authz_refuses : (SimpleAuthz.process_query authz_cfg admitted).0 ≡ some refusal
unfolding run
authz_refuses = refl

process_query-permission_denied_example : code_of refusal ≡ permission_denied
process_query-permission_denied_example =
    process_query-permission_denied authz_cfg admitted refusal authz_refuses

abbrev backend : Dispatcher (Unit {0})
backend = record {
  start = λ w. (none, w);
  shutdown = λ w. (none, w);
  dispatch = λ w q. (ok (record { signal = 0; payload = absent; feedback = [] }), w, q);
}

abbrev named : List (String × Processor (Unit {0}))
named = ("tenant", on_query (Tenant.process_query tenant_cfg)) ∷ []

handle-order_example :
    Performed
      (full_order named)
      []
      (handle (logged_pipeline "metrics" named backend) ([], tt) admitted).1.0
      (is_ok (handle (logged_pipeline "metrics" named backend) ([], tt) admitted).0)
handle-order_example = handle-order "metrics" named backend [] tt admitted

handle_log :
    (handle (logged_pipeline "metrics" named backend) ([], tt) admitted).1.0
    ≡ asked "tenant" ∷ dispatched ∷ answered "tenant" ∷ []
unfolding run handle sync_plan_signals validate_plan
handle_log = refl

abbrev pipe : Pipeline (Unit {0})
pipe = record {
  name = "metrics";
  processors = on_query (Tenant.process_query tenant_cfg) ∷ [];
  dispatcher = backend;
}

abbrev anonymous : Query
anonymous = record admitted { header = [] }

abbrev unauthorized : Error
unauthorized = wrapped "pipeline %q: %w" (coded unauthenticated "tenant: missing %s header")

anonymous_handled : handle pipe tt anonymous ≡ (err unauthorized, tt)
unfolding run handle sync_plan_signals validate_plan
anonymous_handled = refl

handle-Handled_example :
    (handle pipe tt anonymous ≡ (err unauthorized, tt))
    ↔ Handled pipe tt anonymous (err unauthorized) tt
handle-Handled_example = handle-Handled pipe tt tt anonymous (err unauthorized)

-- A plan that is not well formed is answered before a processor is asked.
windowless_handled :
    handle pipe tt (record admitted { plan = some windowless })
    ≡ (err (coded invalid_argument "pipeline %q: invalid query plan: %v"), tt)
unfolding run handle sync_plan_signals validate_plan
windowless_handled = refl

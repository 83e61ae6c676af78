-- ===== src/Processor/Tenant.antt =====
-- processor/tenantprocessor/tenantprocessor.go: the tenant of a query.
pub mod Source
use opentelemetry_querier.Base.{
  String, Bool, false, ◌||◌, not, none, some, [], ◌∷◌, ◌++◌, ◌≡◌, ◌≢◌, ◌↔◌, ◌⊎◌, ◌∙◌, sym, refl,
  arith, str_eq, str_eq_iff, if◌then◌else◌, Bool-cases, inl, inr, append-nil,
}
use opentelemetry_querier.Qerror.{coded, unauthenticated}
use opentelemetry_querier.Qdata.Predicate.{LabelMatcher, equal}
use opentelemetry_querier.Qdata.Query.{
  Query, tenant_id, set_tenant_id, delete_metadata, metadata_tenant_id, tenant_id-set_tenant_id,
  tenant_id-delete_metadata, tenant_id_of_metadata,
}
use opentelemetry_querier.Processor.{Verdict}
use opentelemetry_querier.Processor.Header.{header_value}

pub record Config : Type 0 where
  pub header : String
  pub default : String
  pub required : Bool
  pub enforce_label : String

abbrev pub default_header : String
default_header = "X-Scope-OrgID"

-- `New`
unfoldable pub new : Config → Config
new cfg = if str_eq cfg.header "" then record cfg { header = default_header } else cfg

-- The header's value, or the configured default.
unfoldable pub resolve : Config → Query → String
resolve cfg q =
    let id = header_value q.header cfg.header in if str_eq id "" then cfg.default else id

abbrev pub equal_matcher : String → String → LabelMatcher
equal_matcher name value = record { name = name; op = equal; value = value }

-- the part of `ProcessQuery` after a tenant has been resolved
admit : Config → String → Query → Verdict
admit cfg id q =
    let q' = set_tenant_id q id in
    if str_eq cfg.enforce_label "" then (none, q') else (
      none,
      record q' {
        enforced_matchers = q.enforced_matchers ++ equal_matcher cfg.enforce_label id ∷ [];
      },
    )

-- the part for a query of no tenant
reject : Config → Query → Verdict
reject cfg q =
    let q' = delete_metadata q metadata_tenant_id in
    if cfg.required || not (str_eq cfg.enforce_label "")
    then (some (coded unauthenticated "tenant: missing %s header"), q')
    else (none, q')

-- `ProcessQuery`
unfoldable pub process_query : Config → Query → Verdict
unfolding resolve admit reject
process_query cfg q =
    let id = resolve cfg q in if str_eq id "" then reject cfg q else admit cfg id q

module _ (cfg : Config) (q : Query) where
  tenant_id-admit : (id : String) → tenant_id (admit cfg id q).1 ≡ id
  unfolding admit
  tenant_id-admit id = elim (Bool-cases (str_eq cfg.enforce_label "")) [
    | inl e ↦ rw e (tenant_id-set_tenant_id q id)
    | inr e ↦ rw e (
        tenant_id_of_metadata
          (record (set_tenant_id q id) {
            enforced_matchers = q.enforced_matchers ++ equal_matcher cfg.enforce_label id ∷ [];
          })
          (set_tenant_id q id) refl
        ∙ tenant_id-set_tenant_id q id)
  ]

  tenant_id-reject : tenant_id (reject cfg q).1 ≡ ""
  unfolding reject
  tenant_id-reject = elim (Bool-cases (cfg.required || not (str_eq cfg.enforce_label ""))) [
    | inl e ↦ rw e (tenant_id-delete_metadata q)
    | inr e ↦ rw e (tenant_id-delete_metadata q)
  ]

  -- The tenant that the processor leaves in the metadata is the resolved one, also on the error
  -- path.
  pub tenant_id-process_query : tenant_id (process_query cfg q).1 ≡ resolve cfg q
  unfolding process_query
  tenant_id-process_query = elim (Bool-cases (str_eq (resolve cfg q) "")) [
    | inl e ↦ rw e (tenant_id-reject ∙ sym ((str_eq_iff (resolve cfg q) "").0 e))
    | inr e ↦ rw e (tenant_id-admit (resolve cfg q))
  ]

  -- A query for which no tenant resolves passes exactly if the configuration neither requires one
  -- nor isolates by a label; any other query passes.
  pub process_query-accepts :
      ((process_query cfg q).0 ≡ none)
      ↔ ((resolve cfg q ≢ "") ⊎ ((cfg.required ≡ false) × (cfg.enforce_label ≡ "")))
  unfolding process_query reject admit
  process_query-accepts = elim (Bool-cases (str_eq (resolve cfg q) "")) [
    | inl e ↦ rw e (
      λ h. inr (ground (arith, str_eq_iff cfg.enforce_label "")),
      λ h. ground (arith, str_eq_iff cfg.enforce_label "", str_eq_iff (resolve cfg q) ""),
    )
    | inr e ↦
        rw e (λ h. inl (λ p. ground (arith, str_eq_iff (resolve cfg q) "")), λ h. ground arith)
  ]

  -- If a query passes under an isolation label, the matcher of the label at the resolved tenant is
  -- the last of its enforced matchers, after those that stood there.
  pub process_query-enforces :
      (process_query cfg q).0 ≡ none
      → cfg.enforce_label ≢ ""
      → (process_query cfg q).1.enforced_matchers
        ≡ q.enforced_matchers ++ equal_matcher cfg.enforce_label (resolve cfg q) ∷ []
  unfolding process_query reject admit
  process_query-enforces passed labelled =
      ground (arith, str_eq_iff (resolve cfg q) "", str_eq_iff cfg.enforce_label "")

  -- The plan and the headers of a query are left alone.
  pub plan-process_query :
      ((process_query cfg q).1.plan ≡ q.plan) × ((process_query cfg q).1.header ≡ q.header)
  unfolding process_query reject admit set_tenant_id delete_metadata
  plan-process_query = ground arith

  -- With no isolation label the enforced matchers stay.
  pub process_query-unlabelled :
      cfg.enforce_label ≡ "" → (process_query cfg q).1.enforced_matchers ≡ q.enforced_matchers ++ []
  unfolding process_query reject admit set_tenant_id delete_metadata
  process_query-unlabelled h =
      ground (arith, str_eq_iff cfg.enforce_label "", append-nil q.enforced_matchers)

-- ===== src/Qdata/Query.antt =====
-- The query message of gen/qdata/v1/query.pb.go and the helpers of qdata/qdata.go that read and
-- write it. A function that changes a query in place returns the new query.
use opentelemetry_querier.Base.{
  ℤ, String, Bool, Option, none, some, List, [], ◌∷◌, ◌≡◌, if◌then◌else◌, str_eq, arith,
}
use opentelemetry_querier.Base.Assoc.{Assoc, lookup, insert, delete, lookup-insert, lookup-delete}
use opentelemetry_querier.Qdata.Predicate.{LabelMatcher, Predicate}
use opentelemetry_querier.Qdata.Plan.{Signal, QueryPlan}
use opentelemetry_querier.Qdata.Signals.{plan_signals, dedup_signals}

pub data QueryContext : Type 0 where
  instant range streaming : QueryContext

pub record TimeRange : Type 0 where
  pub start : Option ℤ
  pub stop : Option ℤ
  pub start_exclusive : Bool
  pub end_exclusive : Bool

pub record Modifier : Type 0 where
  pub offset : Option ℤ
  pub lookback : Option ℤ

pub record LogOptions : Type 0 where
  pub limit : ℤ
  pub direction : String

-- `plan` is `none` at the nil pointer; a nil map and an empty one read alike.
pub record Query : Type 0 where
  pub signal : Signal
  pub context : QueryContext
  pub time_range : Option TimeRange
  pub step : Option ℤ
  pub modifier : Option Modifier
  pub enforced_matchers : List LabelMatcher
  pub header : Assoc (List String)
  pub metadata : Assoc String
  pub enforced_predicates : List Predicate
  pub plan : Option QueryPlan
  pub signals : List Signal
  pub log_options : Option LogOptions

-- `SetMetadata`
unfoldable pub set_metadata : Query → String → String → Query
set_metadata q key value = record q { metadata = insert key value q.metadata }

abbrev pub or_empty : Option String → String
or_empty none = ""
or_empty (some s) = s

-- `Metadata`
unfoldable pub metadata_of : Query → String → String
metadata_of q key = or_empty (lookup key q.metadata)

-- `DeleteMetadata`, at a query that is not nil
unfoldable pub delete_metadata : Query → String → Query
delete_metadata q key = record q { metadata = delete key q.metadata }

abbrev pub metadata_tenant_id : String
metadata_tenant_id = "tenant.id"

-- `TenantID`
unfoldable pub tenant_id : Query → String
unfolding metadata_of
tenant_id q = metadata_of q metadata_tenant_id

-- `SetTenantID`
unfoldable pub set_tenant_id : Query → String → Query
unfolding set_metadata
set_tenant_id q id = set_metadata q metadata_tenant_id id

-- `QuerySignals`
unfoldable pub query_signals : Query → List Signal
query_signals q = elim q.plan [
  | some plan ↦ plan_signals plan
  | none ↦ elim q.signals [ [] ↦ q.signal ∷ [] | ◌∷◌ s ss ↦ dedup_signals (s ∷ ss) ]
]

-- `SyncPlanSignals`
unfoldable pub sync_plan_signals : Query → Query
sync_plan_signals q = elim q.plan [
  | none ↦ q
  | some plan ↦ record q { signals = plan_signals plan }
]

-- The tenant id that was set is read back, and no other hint changes.
pub metadata_of-set_metadata :
    (q : Query) (key j value : String)
    → metadata_of (set_metadata q key value) j ≡ (if str_eq key j then value else metadata_of q j)
unfolding metadata_of set_metadata
metadata_of-set_metadata q key j value = ground (arith, lookup-insert key j value q.metadata)

pub metadata_of-delete_metadata :
    (q : Query) (key j : String)
    → metadata_of (delete_metadata q key) j ≡ (if str_eq key j then "" else metadata_of q j)
unfolding metadata_of delete_metadata
metadata_of-delete_metadata q key j = ground (arith, lookup-delete key j q.metadata)

pub tenant_id-set_tenant_id : (q : Query) (id : String) → tenant_id (set_tenant_id q id) ≡ id
unfolding tenant_id set_tenant_id
tenant_id-set_tenant_id q id = metadata_of-set_metadata q metadata_tenant_id metadata_tenant_id id

pub tenant_id-delete_metadata : (q : Query) → tenant_id (delete_metadata q metadata_tenant_id) ≡ ""
unfolding tenant_id
tenant_id-delete_metadata q = metadata_of-delete_metadata q metadata_tenant_id metadata_tenant_id

-- The tenant id is read from the metadata alone.
pub tenant_id_of_metadata : (p q : Query) → p.metadata ≡ q.metadata → tenant_id p ≡ tenant_id q
unfolding tenant_id
tenant_id_of_metadata p q h = rw h

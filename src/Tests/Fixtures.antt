-- ===== src/Tests/Fixtures.antt =====
-- The queries, plans and configurations that the tests share.
use opentelemetry_querier.Base.{String, true, none, some, List, [], ◌∷◌, pos}
use opentelemetry_querier.Base.Assoc.{Assoc}
use opentelemetry_querier.Qdata.Predicate.{LabelMatcher, Predicate, equal, leaf}
use opentelemetry_querier.Qdata.Plan.{
  Select, TimeAggOp, BinOp, Node, select, time_agg, binary, QueryPlan, signal_metrics, signal_logs,
}
use opentelemetry_querier.Qdata.Query.{Query, QueryContext}
use opentelemetry_querier.Processor.Tenant
use opentelemetry_querier.Processor.QueryRewrite

abbrev pub matcher : String → String → LabelMatcher
matcher name value = record { name = name; op = equal; value = value }

-- `up{job="api"}`
abbrev pub up : Select
up = record { signal = signal_metrics; filter = leaf (some (matcher "job" "api")); line = [] }

abbrev pub all_logs : Select
all_logs = record { signal = signal_logs; filter = Predicate.nil; line = [] }

abbrev pub rate_up : Node
rate_up = time_agg TimeAggOp.rate (pos 60000000000) (select up)

-- a cross-signal plan: `rate(up[1m]) and {}`
abbrev pub joined : QueryPlan
joined = record { root = binary BinOp.and rate_up (select all_logs) none }

-- a plan that names a window of no length
abbrev pub windowless : QueryPlan
windowless = record { root = time_agg TimeAggOp.rate (pos 0) (select up) }

abbrev pub transport : Assoc (List String)
transport = ("Accept", "text/plain" ∷ []) ∷ ("X-Scope-Orgid", "acme" ∷ []) ∷ []

-- a client's query, with a tenant of its own choice in the metadata
abbrev pub spoofed : Query
spoofed = record {
  signal = 0;
  context = QueryContext.instant;
  time_range = none;
  step = none;
  modifier = none;
  enforced_matchers = [];
  header = ("x-scope-orgid", "evil" ∷ []) ∷ [];
  metadata = ("tenant.id", "evil") ∷ [];
  enforced_predicates = [];
  plan = some joined;
  signals = [];
  log_options = none;
}

-- the query as the pipeline gets it
abbrev pub admitted : Query
admitted = record spoofed { header = transport; metadata = [] }

abbrev pub tenant_cfg : Tenant.Config
tenant_cfg = record {
  header = "X-Scope-OrgID";
  default = "";
  required = true;
  enforce_label = "tenant";
}

abbrev pub rewrite_cfg : QueryRewrite.Config
rewrite_cfg = record { enforce_labels = [] }

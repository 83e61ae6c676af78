-- ===== src/Processor/ResponseFilter.antt =====
-- processor/responsefilterprocessor/responsefilterprocessor.go: attributes are dropped and masked
-- on the way out.
pub mod Scrub
pub mod Everywhere
use Prim.Native.String.{◌++◌ as text_append}
use opentelemetry_querier.Base.{
  String, Bool, true, false, ◌&&◌, not, Option, none, some, List, [], ◌∷◌, map, contains, keep,
  str_eq, is_nil, if◌then◌else◌,
}
use opentelemetry_querier.Qerror.{Error, coded, internal}
use opentelemetry_querier.Qdata.Attrs.{Attrs, attr_delete, attr_get, attr_put_string}
use opentelemetry_querier.Qdata.Result.{
  MetricType, MetricSeries, MetricPoint, Exemplar, LogRecord, Span, SpanEvent, SpanLink, Row, Table,
  Payload, absent, metrics, logs, spans, table, other, QueryResult, warn,
}

pub record Config : Type 0 where
  pub drop_labels : List String
  pub mask_labels : List String
  pub mask_with : String
  pub warn_counter_without_rate : Bool

-- `New`
unfoldable pub new : Config → Config
new cfg = if str_eq cfg.mask_with "" then record cfg { mask_with = "***" } else cfg

unfoldable pub drop_all : List String → Attrs → Attrs
drop_all [] kvs = kvs
drop_all (key ∷ ks) kvs = drop_all ks (attr_delete key kvs)

-- A key that is present is masked.
unfoldable pub mask_one : String → String → Attrs → Attrs
mask_one mask key kvs = elim (attr_get key kvs) [
  | some v ↦ attr_put_string key mask kvs
  | none ↦ kvs
]

unfoldable pub mask_all : String → List String → Attrs → Attrs
unfolding mask_one
mask_all mask [] kvs = kvs
mask_all mask (key ∷ ks) kvs = mask_all mask ks (mask_one mask key kvs)

-- `scrub`
unfoldable pub scrub : Config → Attrs → Attrs
unfolding drop_all mask_all
scrub cfg kvs = mask_all cfg.mask_with cfg.mask_labels (drop_all cfg.drop_labels kvs)

abbrev pub scrub_exemplar : Config → Exemplar → Exemplar
scrub_exemplar cfg e = record e { attributes = scrub cfg e.attributes }

abbrev pub scrub_point : Config → MetricPoint → MetricPoint
scrub_point cfg p = record p { exemplars = map (scrub_exemplar cfg) p.exemplars }

abbrev pub scrub_series : Config → MetricSeries → MetricSeries
scrub_series cfg s = record s {
  attributes = scrub cfg s.attributes;
  points = map (scrub_point cfg) s.points;
}

abbrev pub is_counter : MetricType → Bool
is_counter MetricType.cumulative_counter = true
is_counter _ = false

-- The warning about a raw counter, after the series has been scrubbed.
unfoldable pub warn_series : Config → QueryResult → MetricSeries → QueryResult
warn_series cfg r s =
    if cfg.warn_counter_without_rate && is_counter s.metric_type
    then warn r "counter_without_rate"
        (text_append "series '"
          (text_append s.name "' is a raw cumulative counter; apply rate() for per-second values"))
        "responsefilter"
    else r

-- the loop of `processMetrics`: the scrubbed series, and the result with the warnings
unfoldable pub process_metrics :
    Config → QueryResult → List MetricSeries → List MetricSeries × QueryResult
unfolding warn_series
process_metrics cfg r [] = ([], r)
process_metrics cfg r (s ∷ ss) =
    let (ss', r') = process_metrics cfg (warn_series cfg r s) ss in (scrub_series cfg s ∷ ss', r')

abbrev pub scrub_log : Config → LogRecord → LogRecord
scrub_log cfg l = record l { attributes = scrub cfg l.attributes }

abbrev pub scrub_event : Config → SpanEvent → SpanEvent
scrub_event cfg e = record e { attributes = scrub cfg e.attributes }

abbrev pub scrub_link : Config → SpanLink → SpanLink
scrub_link cfg l = record l { attributes = scrub cfg l.attributes }

-- `processSpan`
abbrev pub scrub_span : Config → Span → Span
scrub_span cfg s = record s {
  attributes = scrub cfg s.attributes;
  events = map (scrub_event cfg) s.events;
  links = map (scrub_link cfg) s.links;
}

abbrev pub scrub_row : Config → Option Row → Option Row
scrub_row cfg none = none
scrub_row cfg (some r) = some (record { values = scrub cfg r.values })

-- `scrubTable`: the columns are filtered if anything is dropped.
unfoldable pub scrub_table : Config → Table → Table
unfolding scrub
scrub_table cfg t = record {
  columns =
      (if is_nil cfg.drop_labels
        then t.columns
        else keep (λ c. not (contains cfg.drop_labels c)) t.columns);
  rows = map (scrub_row cfg) t.rows;
}

abbrev dispatch_payload : Config → QueryResult → Payload → Option Error × QueryResult
dispatch_payload cfg r (metrics ss) =
    let (ss', r') = process_metrics cfg r ss in (none, record r' { payload = metrics ss' })
dispatch_payload cfg r (logs ls) = (none, record r { payload = logs (map (scrub_log cfg) ls) })
dispatch_payload cfg r (spans ss) = (none, record r { payload = spans (map (scrub_span cfg) ss) })
dispatch_payload cfg r (table t) = (none, record r { payload = table (scrub_table cfg t) })
dispatch_payload cfg r absent = (none, r)
dispatch_payload cfg r other =
    (some (coded internal "responsefilterprocessor: unhandled result payload %T"), r)

-- `ProcessResult`
unfoldable pub process_result : Config → QueryResult → Option Error × QueryResult
unfolding process_metrics scrub_table
process_result cfg r = dispatch_payload cfg r r.payload

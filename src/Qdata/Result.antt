-- ===== src/Qdata/Result.antt =====
-- The result messages of gen/qdata/v1, and the feedback side channel of qdata/qdata.go. A function
-- that changes a result in place returns the new result; a nil attribute list reads as the empty
-- one. Times are in nanoseconds.
use opentelemetry_querier.Base.{ℕ, ℤ, String, Option, none, some, List, [], ◌∷◌, ◌++◌}
use opentelemetry_querier.Qdata.Plan.{Signal, Float, signal_unspecified}
use opentelemetry_querier.Qdata.Attrs.{Value, Attrs}

pub data MetricType : Type 0 where
  unspecified gauge cumulative_counter delta_counter rate summary histogram : MetricType
  unknown : ℕ → MetricType

pub record Exemplar : Type 0 where
  pub timestamp : Option ℤ
  pub value : Float
  pub attributes : Attrs

pub record MetricPoint : Type 0 where
  pub start : Option ℤ
  pub stop : Option ℤ
  pub value : Value
  pub exemplars : List Exemplar

pub record MetricSeries : Type 0 where
  pub name : String
  pub metric_type : MetricType
  pub attributes : Attrs
  pub temporal_aggregation : String
  pub group_aggregation : String
  pub step : Option ℤ
  pub temporal_boundaries : List ℤ
  pub points : List MetricPoint

pub record LogRecord : Type 0 where
  pub start : Option ℤ
  pub stop : Option ℤ
  pub severity : ℕ
  pub body : Value
  pub trace_id : String
  pub span_id : String
  pub fingerprint : String
  pub sampling : Float
  pub attributes : Attrs

pub record SpanEvent : Type 0 where
  pub timestamp : Option ℤ
  pub name : String
  pub attributes : Attrs

pub record SpanLink : Type 0 where
  pub trace_id : String
  pub span_id : String
  pub attributes : Attrs

pub record Span : Type 0 where
  pub start : Option ℤ
  pub stop : Option ℤ
  pub trace_id : String
  pub span_id : String
  pub parent_id : String
  pub kind : ℕ
  pub name : String
  pub status_code : ℤ
  pub status_message : String
  pub events : List SpanEvent
  pub links : List SpanLink
  pub sampling : Float
  pub attributes : Attrs

pub record Row : Type 0 where
  pub values : Attrs

-- A row is a pointer, `none` the nil one.
pub record Table : Type 0 where
  pub columns : List String
  pub rows : List (Option Row)

-- The `data` oneof; `other` is a payload that the code has no case for.
pub data Payload : Type 0 where
  absent : Payload
  metrics : List MetricSeries → Payload
  logs : List LogRecord → Payload
  spans : List Span → Payload
  table : Table → Payload
  other : Payload

pub data Severity : Type 0 where
  unspecified info warning error : Severity
  unknown : ℕ → Severity

pub record Notification : Type 0 where
  pub severity : Severity
  pub code : String
  pub message : String
  pub source : String

-- An unallocated feedback and an empty one read alike.
pub record QueryResult : Type 0 where
  pub signal : Signal
  pub payload : Payload
  pub feedback : List Notification

-- `row.GetValues().GetValues()`
abbrev pub row_values : Option Row → Attrs
row_values none = []
row_values (some r) = r.values

-- `Notify`
unfoldable pub notify : QueryResult → Severity → String → String → String → QueryResult
notify r severity code message source = record r {
  feedback =
      r.feedback
      ++ (record { severity = severity; code = code; message = message; source = source }) ∷ [];
}

-- `Warn`
unfoldable pub warn : QueryResult → String → String → String → QueryResult
unfolding notify
warn r code message source = notify r Severity.warning code message source

-- `TableResult`
unfoldable pub table_result : Table → QueryResult
table_result t = record { signal = signal_unspecified; payload = table t; feedback = [] }

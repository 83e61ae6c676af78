-- ===== src/Connector/Tables.antt =====
-- connector/crosssignalconnector/join.go: the results of single signals as relational tables.
use opentelemetry_querier.Base.{
  String, Option, none, some, List, [], ◌∷◌, map, length, ltb, str_eq, if◌then◌else◌,
}
use Prim.Native.String.{◌++◌ as ◌<>◌}
use opentelemetry_querier.Qerror.{Outcome, ok, err, coded, invalid_argument}
use opentelemetry_querier.Qdata.Attrs.{Value, Attrs, unset, text, attr_put, attr_get, attr_delete}
use opentelemetry_querier.Qdata.Result.{
  MetricPoint, MetricSeries, LogRecord, Row, Table, QueryResult, metrics, logs, table, warn,
}
use opentelemetry_querier.Qdata.Table.{append_rows}

-- the loop of `cloneAttrs`
unfoldable pub put_all : Attrs → Attrs → Attrs
put_all out [] = out
put_all out ((k, v) ∷ kvs) = put_all (attr_put k v out) kvs

-- `cloneAttrs`
unfoldable pub clone_attrs : Attrs → Attrs
unfolding put_all
clone_attrs kvs = put_all [] kvs

-- `unionColumns`
unfoldable pub union_columns : List String → List (Option Row) → List String
unfolding append_rows
union_columns declared rows = append_rows declared rows

-- `rowsToTable`
unfoldable pub rows_to_table : List (Option Row) → Table
unfolding union_columns
rows_to_table rows = record { columns = union_columns [] rows; rows = rows }

-- `completeSchema`
unfoldable pub complete_schema : Table → Table
unfolding union_columns
complete_schema t = record { columns = union_columns t.columns t.rows; rows = t.rows }

abbrev pub metric_name_column : String
metric_name_column = "__name__"

abbrev pub metric_value_column : String
metric_value_column = "value"

abbrev pub log_body_column : String
log_body_column = "body"

abbrev pub shadowed_label_prefix : String
shadowed_label_prefix = "label_"

-- `latestValue`, of the points of a series
unfoldable pub latest_value : List MetricPoint → Value
latest_value [] = unset
latest_value (p ∷ []) = p.value
latest_value (p ∷ p' ∷ ps) = latest_value (p' ∷ ps)

-- `putSample`
unfoldable pub put_sample : Attrs → Value → Attrs
put_sample kvs sample =
    let moved : Attrs = elim (attr_get metric_value_column kvs) [
      | some label ↦
          attr_put (shadowed_label_prefix <> metric_value_column) label
            (attr_delete metric_value_column kvs)
      | none ↦ kvs
    ] in
    attr_put metric_value_column sample moved

-- The name of a series fills its column unless a label has done so.
unfoldable pub put_name : Attrs → String → Attrs
put_name kvs name = if str_eq name "" then kvs else elim (attr_get metric_name_column kvs) [
  | some v ↦ kvs
  | none ↦ attr_put metric_name_column (text name) kvs
]

-- `metricRows`
unfoldable pub metric_row : MetricSeries → Option Row
unfolding clone_attrs put_name put_sample latest_value
metric_row s = some (record {
  values = put_sample (put_name (clone_attrs s.attributes) s.name) (latest_value s.points);
})

unfoldable pub metric_rows : List MetricSeries → List (Option Row)
unfolding metric_row
metric_rows ss = map metric_row ss

-- `logRows`
unfoldable pub log_row : LogRecord → Option Row
unfolding clone_attrs
log_row l = some (record { values = attr_put log_body_column l.body (clone_attrs l.attributes) })

unfoldable pub log_rows : List LogRecord → List (Option Row)
unfolding log_row
log_rows ls = map log_row ls

-- `warnIfTruncated`
unfoldable pub warn_if_truncated : QueryResult → List MetricSeries → QueryResult
warn_if_truncated r [] = r
warn_if_truncated r (s ∷ ss) =
    if ltb 1 (length s.points)
    then warn r "series_truncated" "cross-signal join keeps only each series' latest point"
        "crosssignalconnector"
    else warn_if_truncated r ss

-- `resultToTable`: the table or the error, and the result with its warning
unfoldable pub result_to_table : QueryResult → Outcome Table × QueryResult
unfolding rows_to_table complete_schema metric_rows log_rows warn_if_truncated
result_to_table r = elim r.payload [
  | metrics ss ↦ (ok (rows_to_table (metric_rows ss)), warn_if_truncated r ss)
  | logs ls ↦ (ok (rows_to_table (log_rows ls)), r)
  | table t ↦ (ok (complete_schema t), r)
  | _ ↦ (
    err (
        coded invalid_argument
          "crosssignalconnector: cannot join signal %s result (unsupported payload)"),
    r,
  )
]

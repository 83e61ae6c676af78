-- ===== src/Tests/Joins.antt =====
-- The joins of crosssignalconnector at concrete inputs: the series of a metric and the records of
-- a log, joined on a label.
use opentelemetry_querier.Base.{
  String, true, false, not, all, Option, none, some, [], ◌∷◌, map, ◌≡◌, ◌↔◌, refl, keep, contains,
}
use opentelemetry_querier.Base.Assoc.{lookup, insert}
use opentelemetry_querier.Qerror.{ok, err}
use opentelemetry_querier.Qdata.Attrs.{Attrs, text, attr_get, attr_put}
use opentelemetry_querier.Qdata.Plan.{VectorMatch, MatchCardinality}
use opentelemetry_querier.Qdata.Result.{Row, Table, QueryResult, table, row_values}
use opentelemetry_querier.Qdata.Table.{validate_table}
use opentelemetry_querier.Connector.Tables.{result_to_table}
use opentelemetry_querier.Connector.KeyColumns.{no_key, resolve_keys}
use opentelemetry_querier.Connector.Join.{
  Format, inner, anti, clone_row, merge_row, key_tuple, join_on, join_tables,
}
use opentelemetry_querier.Connector.Join.Loops.{any, same_tuple}
use opentelemetry_querier.Connector.Join.Agreement.{
  agree, agreeing, is_plain, join_on-inner_agreeing, join_on-anti_agreeing,
}
use opentelemetry_querier.Connector.Join.Valid.{join_tables-valid}
use opentelemetry_querier.Connector.Join.Keys.{joins, resolve_keys-joins, join_tables-refused}

abbrev plain : Format
plain = record { of_float = λ f. "1"; of_int = λ i. "2"; of_uint = λ u. "3" }

abbrev row : Attrs → Option Row
row kvs = some (record { values = kvs })

abbrev pods : Table
pods = record {
  columns = "job" ∷ "pod" ∷ [];
  rows =
      row (("job", text "api") ∷ ("pod", text "p1") ∷ [])
      ∷ row (("job", text "db") ∷ ("pod", text "p2") ∷ [])
      ∷ [];
}

abbrev lines : Table
lines = record {
  columns = "job" ∷ "body" ∷ [];
  rows =
      row (("job", text "api") ∷ ("body", text "up") ∷ [])
      ∷ row (("job", text "api") ∷ ("body", text "down") ∷ [])
      ∷ [];
}

abbrev of_table : Table → QueryResult
of_table t = record { signal = 0; payload = table t; feedback = [] }

pods_table : (result_to_table (of_table pods)).0 ≡ ok pods
unfolding result_to_table contains
pods_table = refl

lines_table : (result_to_table (of_table lines)).0 ≡ ok lines
unfolding result_to_table contains
lines_table = refl

abbrev on_job : VectorMatch
on_job = record {
  on = "job" ∷ [];
  ignoring = [];
  cardinality = MatchCardinality.one_to_one;
  include = [];
}

joined_job :
    join_tables plain pods lines (some on_job) inner
    ≡ ok (join_on plain pods lines inner ("job" ∷ []))
unfolding join_tables
joined_job = refl

join_tables-valid_example : validate_table (join_on plain pods lines inner ("job" ∷ [])) ≡ none
join_tables-valid_example =
    join_tables-valid plain (of_table pods) (of_table lines) pods lines
      (join_on plain pods lines inner ("job" ∷ [])) (some on_job) inner pods_table lines_table
      joined_job

pods_plain : all (is_plain plain ("job" ∷ [])) pods.rows ≡ true
pods_plain = refl

lines_plain : all (is_plain plain ("job" ∷ [])) lines.rows ≡ true
lines_plain = refl

join_on-inner_agreeing_example :
    (join_on plain pods lines inner ("job" ∷ [])).rows
    ≡ agreeing plain ("job" ∷ []) pods.columns lines.rows pods.rows
join_on-inner_agreeing_example =
    join_on-inner_agreeing plain ("job" ∷ []) pods lines lines_plain pods_plain

join_on-anti_agreeing_example :
    (join_on plain pods lines anti ("job" ∷ [])).rows
    ≡ map clone_row (keep (λ r. not (any (agree plain ("job" ∷ []) r) lines.rows)) pods.rows)
join_on-anti_agreeing_example =
    join_on-anti_agreeing plain ("job" ∷ []) pods lines lines_plain pods_plain

-- With a NUL character in their values, two rows with other values at both keys are joined.
nul_collides :
    same_tuple
      (key_tuple plain (row (("a", text "x\0y") ∷ ("b", text "z") ∷ [])) ("a" ∷ "b" ∷ []))
      (key_tuple plain (row (("a", text "x") ∷ ("b", text "y\0z") ∷ [])) ("a" ∷ "b" ∷ []))
    ≡ true
unfolding key_tuple lookup insert
nul_collides = refl

shared_job : resolve_keys pods lines none ≡ ok ("job" ∷ [])
unfolding resolve_keys contains
shared_job = refl

resolve_keys-joins_example : contains ("job" ∷ []) "job" ≡ joins pods lines none "job"
resolve_keys-joins_example = resolve_keys-joins pods lines none ("job" ∷ []) "job" refl shared_job

join_tables-refused_example :
    (join_tables plain pods lines none anti ≡ err no_key)
    ↔ ((c : String) → joins pods lines none c ≡ false)
join_tables-refused_example = join_tables-refused pods lines none plain anti refl

two_lines :
    (join_on plain pods lines inner ("job" ∷ [])).rows
    ≡ row (("job", text "api") ∷ ("pod", text "p1") ∷ ("body", text "up") ∷ [])
      ∷ row (("job", text "api") ∷ ("pod", text "p1") ∷ ("body", text "down") ∷ [])
      ∷ []
unfolding join_on lookup insert contains attr_put
two_lines = refl

-- A right column that is renamed takes the place of a left column that has the new name already.
renamed_over :
    attr_get "right_a" (
      row_values (
        merge_row
          (row (("a", text "1") ∷ ("right_a", text "2") ∷ []))
          (row (("a", text "3") ∷ []))
          ("a" ∷ "right_a" ∷ [])
          []))
    ≡ some (text "3")
unfolding attr_get merge_row contains attr_put
renamed_over = refl

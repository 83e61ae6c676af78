-- ===== src/Connector/Join.antt =====
-- connector/crosssignalconnector/join.go: the join of two tables. The decimal texts of numbers
-- (package strconv) are a parameter.
pub mod Loops
pub mod Tuples
pub mod Agreement
pub mod Schema
pub mod Valid
pub mod Keys
use opentelemetry_querier.Base.{
  ℕ, ℤ, String, Bool, true, false, Option, none, some, List, [], ◌∷◌, ◌++◌, map, length, ltb,
  is_nil, contains, str_eq, str_le, ◌<>◌, if◌then◌else◌,
}
use opentelemetry_querier.Base.Assoc.{Assoc, lookup, insert}
use opentelemetry_querier.Qerror.{Error, Outcome, ok, err, coded, invalid_argument}
use opentelemetry_querier.Qdata.Attrs.{
  Value, Attrs, nil, unset, text, double, int, uint, bool, attr_put, attr_get, attr_delete,
}
use opentelemetry_querier.Qdata.Plan.{Float, BinOp, VectorMatch}
use opentelemetry_querier.Qdata.Result.{
  MetricPoint, MetricSeries, LogRecord, Row, Table, QueryResult, Payload, metrics, logs, table,
  row_values, warn,
}
use opentelemetry_querier.Qdata.Table.{append_rows}
use opentelemetry_querier.Connector.Tables.{clone_attrs}
use opentelemetry_querier.Connector.KeyColumns.{resolve_keys}

abbrev pub right_prefix : String
right_prefix = "right_"

-- `joinMode`
pub data JoinMode : Type 0 where
  inner anti : JoinMode

-- `joinModeFor`
unfoldable pub join_mode_for : BinOp → Outcome JoinMode
join_mode_for BinOp.and = ok inner
join_mode_for BinOp.unless = ok anti
join_mode_for _ = err (
    coded invalid_argument
      "crosssignalconnector: cross-signal operator %s is not a supported join (use AND or UNLESS)")

-- the name of a right column in the joined table
unfoldable pub right_name : List String → String → String
right_name left_columns column =
    if contains left_columns column then right_prefix <> column else column

-- the loop of `mergeRow`
unfoldable pub merge_entries : Attrs → Attrs → List String → List String → Attrs
unfolding right_name
merge_entries out [] left_columns keys = out
merge_entries out ((k, v) ∷ kvs) left_columns keys =
    merge_entries (if contains keys k then out else attr_put (right_name left_columns k) v out) kvs
      left_columns keys

-- `mergeRow`
unfoldable pub merge_row : Option Row → Option Row → List String → List String → Option Row
unfolding clone_attrs merge_entries
merge_row left right left_columns keys = some (record {
  values = merge_entries (clone_attrs (row_values left)) (row_values right) left_columns keys;
})

-- the loop of `mergedColumns`
unfoldable pub right_columns : List String → List String → List String → List String
unfolding right_name
right_columns [] left_columns keys = []
right_columns (column ∷ columns) left_columns keys =
    let rest = right_columns columns left_columns keys in
    if contains keys column then rest else right_name left_columns column ∷ rest

-- `mergedColumns`
unfoldable pub merged_columns : Table → Table → List String → List String
unfolding right_columns
merged_columns left right keys = left.columns ++ right_columns right.columns left.columns keys

-- `rowMap`
unfoldable pub row_map : Attrs → Assoc Value → Assoc Value
unfolding insert
row_map [] out = out
row_map ((k, v) ∷ kvs) out = row_map kvs (insert k v out)

-- `strconv.FormatFloat`, `FormatInt` and `FormatUint` with the options that the code gives them
pub record Format : Type 0 where
  pub of_float : Float → String
  pub of_int : ℤ → String
  pub of_uint : ℕ → String

abbrev pub key_delim : String
key_delim = "\0"

-- `strings.Join` with the delimiter
unfoldable pub join_parts : List String → String
join_parts [] = ""
join_parts (a ∷ []) = a
join_parts (a ∷ b ∷ parts) = a <> (key_delim <> join_parts (b ∷ parts))

-- the two results of a map's lookup
abbrev pub rows_of : Option (List (Option Row)) → List (Option Row)
rows_of none = []
rows_of (some rows) = rows

abbrev pub is_present : Option (List (Option Row)) → Bool
is_present none = false
is_present (some rows) = true

-- a copy of a row of its own
abbrev pub clone_row : Option Row → Option Row
clone_row row = some (record { values = clone_attrs (row_values row) })

module _ (format : Format) where
  -- `valueString`
  unfoldable pub value_string : Value → Option String
  value_string (text s) = some s
  value_string (double d) = some (format.of_float d)
  value_string (int i) = some (format.of_int i)
  value_string (uint u) = some (format.of_uint u)
  value_string (bool true) = some "true"
  value_string (bool false) = some "false"
  value_string _ = none

  -- the loop of `keyTuple`
  unfoldable pub key_parts : Assoc Value → List String → Option (List String)
  unfolding lookup value_string
  key_parts row [] = some []
  key_parts row (key ∷ ks) =
      let rest = key_parts row ks in
      elim (lookup key row) [
        | none ↦ none
        | some value ↦ elim (value_string value) [
          | none ↦ none
          | some part ↦ elim rest [ none ↦ none | some parts ↦ some (part ∷ parts) ]
        ]
      ]

  -- `keyTuple` at the map of a row
  unfoldable pub key_tuple : Option Row → List String → Option String
  unfolding row_map key_parts join_parts
  key_tuple row ks = elim (key_parts (row_map (row_values row) []) ks) [
    | none ↦ none
    | some parts ↦ some (join_parts parts)
  ]

  -- `index[tuple] = append(index[tuple], row)`
  unfoldable pub add_row :
      Option String → Option Row → Assoc (List (Option Row)) → Assoc (List (Option Row))
  unfolding lookup insert
  add_row none row index = index
  add_row (some tuple) row index = elim (lookup tuple index) [
    | none ↦ insert tuple (row ∷ []) index
    | some rows ↦ insert tuple (rows ++ row ∷ []) index
  ]

  -- `indexRows`
  unfoldable pub index_rows :
      List (Option Row) → List String → Assoc (List (Option Row)) → Assoc (List (Option Row))
  unfolding key_tuple add_row
  index_rows [] ks index = index
  index_rows (row ∷ rows) ks index = index_rows rows ks (add_row (key_tuple row ks) row index)

  -- `index[tuple]`, nil for a row that has no tuple
  unfoldable pub matches : Assoc (List (Option Row)) → Option String → List (Option Row)
  unfolding lookup
  matches index none = []
  matches index (some tuple) = rows_of (lookup tuple index)

  -- the rows of `innerJoin`
  unfoldable pub inner_rows :
      List (Option Row) → List String → List String → Assoc (List (Option Row)) → List (Option Row)
  unfolding matches key_tuple merge_row
  inner_rows [] left_columns ks index = []
  inner_rows (row ∷ rows) left_columns ks index =
      map (λ other. merge_row row other left_columns ks) (matches index (key_tuple row ks))
      ++ inner_rows rows left_columns ks index

  -- `innerJoin`
  unfoldable pub inner_join : Table → Table → List String → Assoc (List (Option Row)) → Table
  unfolding merged_columns inner_rows
  inner_join left right ks index = record {
    columns = merged_columns left right ks;
    rows = inner_rows left.rows left.columns ks index;
  }

  -- `_, matched := index[tuple]`, false for a row that has no tuple
  unfoldable pub is_matched : Assoc (List (Option Row)) → Option String → Bool
  unfolding lookup
  is_matched index none = false
  is_matched index (some tuple) = is_present (lookup tuple index)

  -- the rows of `antiJoin`
  unfoldable pub anti_rows :
      List (Option Row) → List String → Assoc (List (Option Row)) → List (Option Row)
  unfolding is_matched key_tuple clone_attrs
  anti_rows [] ks index = []
  anti_rows (row ∷ rows) ks index =
      let rest = anti_rows rows ks index in
      if is_matched index (key_tuple row ks) then rest else clone_row row ∷ rest

  -- `antiJoin`
  unfoldable pub anti_join : Table → List String → Assoc (List (Option Row)) → Table
  unfolding anti_rows
  anti_join left ks index = record { columns = left.columns; rows = anti_rows left.rows ks index }

  -- the part of `joinTables` behind the choice of the keys
  unfoldable pub join_on : Table → Table → JoinMode → List String → Table
  unfolding index_rows anti_join inner_join
  join_on left right anti ks = anti_join left ks (index_rows right.rows ks [])
  join_on left right inner ks = inner_join left right ks (index_rows right.rows ks [])

  -- `joinTables`
  unfoldable pub join_tables : Table → Table → Option VectorMatch → JoinMode → Outcome Table
  unfolding resolve_keys join_on
  join_tables left right matching mode = elim (resolve_keys left right matching) [
    | err e ↦ err e
    | ok ks ↦ ok (join_on left right mode ks)
  ]

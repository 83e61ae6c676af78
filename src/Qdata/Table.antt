-- ===== src/Qdata/Table.antt =====
-- Relational tables of qdata/qdata.go: `ValidateTable`, `tableColumns` and `RenderTable`. A set of
-- column names is a list of them.
pub mod Columns
use opentelemetry_querier.Base.{
  String, Bool, true, false, Option, none, some, List, [], ◌∷◌, ◌++◌, map, contains, if◌then◌else◌,
  is_nil,
}
use opentelemetry_querier.Qdata.Attrs.{Value, Attrs, attr_get}
use opentelemetry_querier.Qdata.Attrs.Laws.{keys}
use opentelemetry_querier.Qdata.Result.{Row, Table, row_values}

pub data TableError : Type 0 where
  nil_row unknown_column : TableError

-- `firstNilRow`
unfoldable pub first_nil_row : List (Option Row) → Option TableError
first_nil_row [] = none
first_nil_row (none ∷ rows) = some nil_row
first_nil_row (some r ∷ rows) = first_nil_row rows

-- the loop over the entries of one row
unfoldable pub check_columns : List String → List String → Option TableError
check_columns schema [] = none
check_columns schema (key ∷ ks) =
    if contains schema key then check_columns schema ks else some unknown_column

unfoldable pub check_rows : List String → List (Option Row) → Option TableError
unfolding check_columns
check_rows schema [] = none
check_rows schema (none ∷ rows) = some nil_row
check_rows schema (some r ∷ rows) = elim (check_columns schema (keys r.values)) [
  | some e ↦ some e
  | none ↦ check_rows schema rows
]

-- `ValidateTable`; `none` is the nil error.
unfoldable pub validate_table : Table → Option TableError
unfolding first_nil_row check_rows
validate_table t = if is_nil t.columns then first_nil_row t.rows else check_rows t.columns t.rows

-- `appendCol`
unfoldable pub append_col : List String → String → List String
append_col columns column = if contains columns column then columns else columns ++ column ∷ []

unfoldable pub append_cols : List String → List String → List String
unfolding append_col
append_cols columns [] = columns
append_cols columns (c ∷ cs) = append_cols (append_col columns c) cs

unfoldable pub append_rows : List String → List (Option Row) → List String
unfolding append_cols
append_rows columns [] = columns
append_rows columns (row ∷ rows) = append_rows (append_cols columns (keys (row_values row))) rows

-- `tableColumns`
unfoldable pub table_columns : Table → List String
unfolding append_rows
table_columns t = append_rows (append_cols [] t.columns) t.rows

-- `TableWire`, with the values that the cells show; `none` is rendered as null.
pub record TableWire : Type 0 where
  pub columns : List String
  pub rows : List (List (Option Value))

-- `RenderTable`
unfoldable pub render_table : Table → TableWire
unfolding table_columns
render_table t =
    let columns = table_columns t in
    record {
      columns = columns;
      rows = map (λ row. map (λ c. attr_get c (row_values row)) columns) t.rows;
    }

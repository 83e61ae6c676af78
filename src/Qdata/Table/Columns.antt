-- ===== src/Qdata/Table/Columns.antt =====
-- The columns that a table is rendered with.
use opentelemetry_querier.Base.{
  String, Bool, false, ◌||◌, Option, List, [], ◌∷◌, ◌++◌, ◌≡◌, ◌∙◌, refl, arith, contains,
  contains-append, str_eq, str_eq_iff, Bool-cases, inl, inr,
}
use opentelemetry_querier.Qdata.Attrs.Laws.{keys}
use opentelemetry_querier.Qdata.Result.{Row, Table, row_values}
use opentelemetry_querier.Qdata.Table.{append_col, append_cols, append_rows, table_columns}

-- Some row has the key.
abbrev pub row_has : List (Option Row) → String → Bool
row_has [] c = false
row_has (row ∷ rows) c = contains (keys (row_values row)) c || row_has rows c

-- No column stands twice.
abbrev pub DistinctColumns : List String → Type 0
DistinctColumns [] = Unit
DistinctColumns (c ∷ cs) = (contains cs c ≡ false) × DistinctColumns cs

pub contains-nil : (c : String) → contains [] c ≡ false
unfolding contains
contains-nil c = refl

contains-append_col :
    (columns : List String) (c d : String)
    → contains (append_col columns c) d ≡ (contains columns d || str_eq c d)
unfolding append_col contains
contains-append_col columns c d = elim (Bool-cases (contains columns c)) [
  | inl e ↦ rw e (ground (arith, str_eq_iff c d))
  | inr e ↦ rw e (contains-append columns (c ∷ []) d ∙ (ground arith))
]

contains-append_cols :
    (columns cs : List String) (d : String)
    → contains (append_cols columns cs) d ≡ (contains columns d || contains cs d)
unfolding append_cols contains
contains-append_cols columns [] d = ground arith
contains-append_cols columns (c ∷ cs) d =
    ground
      (arith, contains-append_cols (append_col columns c) cs d, contains-append_col columns c d)

pub contains-append_rows :
    (columns : List String) (rows : List (Option Row)) (d : String)
    → contains (append_rows columns rows) d ≡ (contains columns d || row_has rows d)
unfolding append_rows
contains-append_rows columns [] d = ground arith
contains-append_rows columns (row ∷ rows) d = ground (
  arith,
  contains-append_rows (append_cols columns (keys (row_values row))) rows d,
  contains-append_cols columns (keys (row_values row)) d,
)

snoc-DistinctColumns :
    (columns : List String) (c : String)
    → DistinctColumns columns
    → contains columns c ≡ false
    → DistinctColumns (columns ++ c ∷ [])
unfolding contains
snoc-DistinctColumns [] c d h = (refl, tt)
snoc-DistinctColumns (b ∷ columns) c d h = (
  ground (arith, contains-append columns (c ∷ []) b, str_eq_iff c b, str_eq_iff b c),
  snoc-DistinctColumns columns c d.1 (ground arith),
)

append_col-DistinctColumns :
    (columns : List String) (c : String)
    → DistinctColumns columns
    → DistinctColumns (append_col columns c)
unfolding append_col
append_col-DistinctColumns columns c d = elim (Bool-cases (contains columns c)) [
  | inl e ↦ rw e d
  | inr e ↦ rw e (snoc-DistinctColumns columns c d e)
]

append_cols-DistinctColumns :
    (columns cs : List String) → DistinctColumns columns → DistinctColumns (append_cols columns cs)
unfolding append_cols
append_cols-DistinctColumns columns [] d = d
append_cols-DistinctColumns columns (c ∷ cs) d =
    append_cols-DistinctColumns (append_col columns c) cs (append_col-DistinctColumns columns c d)

append_rows-DistinctColumns :
    (columns : List String) (rows : List (Option Row))
    → DistinctColumns columns
    → DistinctColumns (append_rows columns rows)
unfolding append_rows
append_rows-DistinctColumns columns [] d = d
append_rows-DistinctColumns columns (row ∷ rows) d =
    append_rows-DistinctColumns (append_cols columns (keys (row_values row))) rows
      (append_cols-DistinctColumns columns (keys (row_values row)) d)

-- A table is rendered with each of its declared columns and each key of its rows, once, and with
-- nothing else.
pub table_columns_lem :
    (t : Table)
    → DistinctColumns (table_columns t)
      × ((c : String) → contains (table_columns t) c ≡ (contains t.columns c || row_has t.rows c))
unfolding table_columns
table_columns_lem t = (
  append_rows-DistinctColumns (append_cols [] t.columns) t.rows
      (append_cols-DistinctColumns [] t.columns tt),
  λ c. ground (
    arith,
    contains-append_rows (append_cols [] t.columns) t.rows c,
    contains-append_cols [] t.columns c,
    contains-nil c,
  ),
)

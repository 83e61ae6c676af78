-- ===== src/Connector/Join/Valid.antt =====
-- The tables that joinTables of connector/crosssignalconnector/join.go returns, and
-- qdata.ValidateTable.
use opentelemetry_querier.Base.{
  String, Bool, true, Option, none, some, List, [], ◌∷◌, map, ◌≡◌, ◌∙◌, sym, refl, arith, keep,
  contains, contains-append, Bool-cases, inl, inr, All, All-append,
}
use mathlib.Core.Path.{subst}
use opentelemetry_querier.Qerror.{Outcome, ok, err}
use opentelemetry_querier.Qdata.Attrs.Laws.{keys}
use opentelemetry_querier.Qdata.Plan.{VectorMatch}
use opentelemetry_querier.Qdata.Result.{
  Row, Table, QueryResult, Payload, absent, metrics, logs, spans, table, other, row_values,
}
use opentelemetry_querier.Qdata.Table.{append_rows, validate_table}
use opentelemetry_querier.Qdata.Table.Columns.{row_has, contains-append_rows}
use opentelemetry_querier.Connector.Tables.{
  clone_attrs, metric_rows, log_rows, union_columns, rows_to_table, complete_schema,
  result_to_table,
}
use opentelemetry_querier.Connector.KeyColumns.{resolve_keys}
use opentelemetry_querier.Connector.Join.{
  Format, JoinMode, inner, anti, merge_row, right_columns, merged_columns, clone_row, join_on,
  inner_join, anti_join, join_tables,
}
use opentelemetry_querier.Connector.Join.Loops.{pairs, nested, join_on-inner, join_on-anti}
use opentelemetry_querier.Connector.Join.Schema.{
  Within, Covers, CoversRows, validate_table-CoversRows, contains-clone_attrs,
  contains-merge_entries, right_columns-Within,
}

All-keep {ℓ κ} :
    {A : Type ℓ} (P : A → Type κ) (f : A → Bool) (xs : List A) → All P xs → All P (keep f xs)
All-keep P f [] h = tt
All-keep P f (x ∷ xs) h = elim (Bool-cases (f x)) [
  | inl e ↦ rw e (h.0, All-keep P f xs h.1)
  | inr e ↦ rw e (All-keep P f xs h.1)
]

row_has-Covers :
    (columns : List String) (rows : List (Option Row))
    → ((c : String) → row_has rows c ≡ true → contains columns c ≡ true)
    → Covers columns rows
row_has-Covers columns [] h = tt
row_has-Covers columns (row ∷ rows) h =
    (λ c m. h c (ground (arith, m)), row_has-Covers columns rows (λ c m. h c (ground (arith, m))))

union_columns-Covers :
    (declared : List String) (rows : List (Option Row)) → Covers (union_columns declared rows) rows
unfolding union_columns
union_columns-Covers declared rows =
    row_has-Covers (append_rows declared rows) rows
      (λ c m. ground (arith, m, contains-append_rows declared rows c))

abbrev Covered : Table → Type 0
Covered t = Covers t.columns t.rows

payload-Covers :
    (r : QueryResult) (p : Payload) (t : Table)
    → (result_to_table (record r { payload = p })).0 ≡ ok t
    → Covers t.columns t.rows
unfolding result_to_table rows_to_table complete_schema
payload-Covers r (metrics ss) t h =
    let same : rows_to_table (metric_rows ss) ≡ t = ground arith in
    subst Covered same (union_columns-Covers [] (metric_rows ss))
payload-Covers r (logs ls) t h =
    let same : rows_to_table (log_rows ls) ≡ t = ground arith in
    subst Covered same (union_columns-Covers [] (log_rows ls))
payload-Covers r (table t') t h =
    let same : complete_schema t' ≡ t = ground arith in
    subst Covered same (union_columns-Covers t'.columns t'.rows)
payload-Covers r absent t h = cc
payload-Covers r (spans ss) t h = cc
payload-Covers r other t h = cc

module _ (left right : Table) (ks : List String) where
  merge_row-Within :
      (row row' : Option Row)
      → Within (keys (row_values row)) left.columns
      → Within (keys (row_values row')) right.columns
      → Within
          (keys (row_values (merge_row row row' left.columns ks)))
          (merged_columns left right ks)
  unfolding merge_row merged_columns
  merge_row-Within row row' w w' c h = ground (
    arith,
    h,
    contains-merge_entries (clone_attrs (row_values row)) (row_values row') left.columns ks c,
    contains-clone_attrs (row_values row) c,
    w c,
    right_columns-Within (keys (row_values row')) right.columns left.columns ks w' c,
    contains-append left.columns (right_columns right.columns left.columns ks) c,
  )

  merge_row-some :
      (row row' : Option Row) → (r : Row) × (merge_row row row' left.columns ks ≡ some r)
  unfolding merge_row
  merge_row-some row row' = (_, refl)

  merge_rows-CoversRows :
      (row : Option Row) (rows : List (Option Row))
      → Within (keys (row_values row)) left.columns
      → Covers right.columns rows
      → CoversRows
          (merged_columns left right ks)
          (map (λ row'. merge_row row row' left.columns ks) rows)
  merge_rows-CoversRows row [] w h = tt
  merge_rows-CoversRows row (row' ∷ rows) w h = (
    (merge_row-some row row', merge_row-Within row row' w h.0),
    merge_rows-CoversRows row rows w h.1,
  )

  clone_rows-CoversRows :
      (rows : List (Option Row))
      → Covers left.columns rows
      → CoversRows left.columns (map clone_row rows)
  clone_rows-CoversRows [] h = tt
  clone_rows-CoversRows (row ∷ rows) h = (
    ((_, refl), λ c m. h.0 c (sym (contains-clone_attrs (row_values row) c) ∙ m)),
    clone_rows-CoversRows rows h.1,
  )

  nested-CoversRows :
      (format : Format) (rows : List (Option Row))
      → Covers left.columns rows
      → Covers right.columns right.rows
      → CoversRows (merged_columns left right ks) (nested format ks left.columns right.rows rows)
  nested-CoversRows format [] h h' = tt
  nested-CoversRows format (row ∷ rows) h h' =
      All-append _ _ _
        (merge_rows-CoversRows row (keep (pairs format ks row) right.rows) h.0
          (All-keep _ (pairs format ks row) right.rows h'))
        (nested-CoversRows format rows h.1 h')

  join_on-valid :
      (format : Format) (mode : JoinMode)
      → Covers left.columns left.rows
      → Covers right.columns right.rows
      → validate_table (join_on format left right mode ks) ≡ none
  join_on-valid format inner h h' = validate_table-CoversRows (join_on format left right inner ks) (
      rw (join_on-inner format ks left right)
        (unfold join_on inner_join in nested-CoversRows format left.rows h h'))
  join_on-valid format anti h h' = validate_table-CoversRows (join_on format left right anti ks) (
      rw (join_on-anti format ks left right)
        (unfold join_on anti_join in clone_rows-CoversRows _ (All-keep _ _ left.rows h)))

keyed-valid :
    (format : Format) (left right joined : Table) (matching : Option VectorMatch) (mode : JoinMode)
    (o : Outcome (List String))
    → resolve_keys left right matching ≡ o
    → Covered left
    → Covered right
    → join_tables format left right matching mode ≡ ok joined
    → validate_table joined ≡ none
unfolding join_tables
keyed-valid format left right joined matching mode (err e) p h h' j = cc (rw (p, join_tables) at j)
keyed-valid format left right joined matching mode (ok ks) p h h' j =
    let run = rw (p, join_tables) at j in
    let same : join_on format left right mode ks ≡ joined = ground arith in
    subst (λ t. validate_table t ≡ none) same (join_on-valid left right ks format mode h h')

-- If two results become tables and the tables are joined, by whichever keys and in whichever mode,
-- the joined table passes the validation of tables: its columns cover its rows.
pub join_tables-valid :
    (format : Format) (r r' : QueryResult) (left right joined : Table)
    (matching : Option VectorMatch) (mode : JoinMode)
    → (result_to_table r).0 ≡ ok left
    → (result_to_table r').0 ≡ ok right
    → join_tables format left right matching mode ≡ ok joined
    → validate_table joined ≡ none
join_tables-valid format r r' left right joined matching mode h h' j =
    keyed-valid format left right joined matching mode (resolve_keys left right matching) refl
      (payload-Covers r r.payload left h) (payload-Covers r' r'.payload right h') j

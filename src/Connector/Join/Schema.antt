-- ===== src/Connector/Join/Schema.antt =====
-- The columns of the tables of connector/crosssignalconnector/join.go, and the keys of their rows.
use opentelemetry_querier.Base.{
  String, true, false, ◌||◌, Option, none, some, List, [], ◌∷◌, ◌≡◌, ◌∙◌, ap, refl, arith, contains,
  str_eq, str_eq_iff, str_eq_refl, is_nil, Bool-cases, inl, inr, All,
}
use opentelemetry_querier.Qdata.Attrs.{Attrs, attr_put}
use opentelemetry_querier.Qdata.Attrs.Laws.{keys, contains-attr_put}
use opentelemetry_querier.Qdata.Result.{Row, Table, row_values}
use opentelemetry_querier.Qdata.Table.{validate_table, first_nil_row, check_rows, check_columns}
use opentelemetry_querier.Connector.Tables.{clone_attrs, put_all}
use opentelemetry_querier.Connector.Join.{merge_entries, right_name, right_columns}

-- Every key of a list is one of the columns.
abbrev pub Within : List String → List String → Type 0
Within ks columns = (c : String) → contains ks c ≡ true → contains columns c ≡ true

-- Every row has its keys among the columns.
abbrev pub Covers : List String → List (Option Row) → Type 0
Covers columns = All (λ row. Within (keys (row_values row)) columns)

-- And none of them is nil.
abbrev pub CoversRows : List String → List (Option Row) → Type 0
CoversRows columns =
    All (λ row. ((r : Row) × (row ≡ some r)) × Within (keys (row_values row)) columns)

check_columns-Within : (schema ks : List String) → Within ks schema → check_columns schema ks ≡ none
unfolding check_columns contains
check_columns-Within schema [] h = refl
check_columns-Within schema (k ∷ ks) h =
    let here : contains schema k ≡ true = h k (ground (arith, str_eq_refl k)) in
    rw here (check_columns-Within schema ks (λ c m. h c (ground (arith, m))))

check_rows-CoversRows :
    (schema : List String) (rows : List (Option Row))
    → CoversRows schema rows
    → check_rows schema rows ≡ none
unfolding check_rows
check_rows-CoversRows schema [] h = refl
check_rows-CoversRows schema (none ∷ rows) (((r, e), w), h) = cc
check_rows-CoversRows schema (some r ∷ rows) ((e, w), h) =
    rw (check_columns-Within schema (keys r.values) w, check_rows)
      (check_rows-CoversRows schema rows h)

first_nil_row-CoversRows :
    (schema : List String) (rows : List (Option Row))
    → CoversRows schema rows
    → first_nil_row rows ≡ none
unfolding first_nil_row
first_nil_row-CoversRows schema [] h = refl
first_nil_row-CoversRows schema (none ∷ rows) (((r, e), w), h) = cc
first_nil_row-CoversRows schema (some r ∷ rows) (e, h) = first_nil_row-CoversRows schema rows h

pub validate_table-CoversRows : (t : Table) → CoversRows t.columns t.rows → validate_table t ≡ none
unfolding validate_table
validate_table-CoversRows t h = elim (Bool-cases (is_nil t.columns)) [
  | inl e ↦ rw e (first_nil_row-CoversRows t.columns t.rows h)
  | inr e ↦ rw e (check_rows-CoversRows t.columns t.rows h)
]

contains-put_all :
    (out kvs : Attrs) (c : String)
    → contains (keys (put_all out kvs)) c ≡ (contains (keys out) c || contains (keys kvs) c)
unfolding put_all contains
contains-put_all out [] c = ground arith
contains-put_all out ((k, v) ∷ kvs) c =
    ground (arith, contains-put_all (attr_put k v out) kvs c, contains-attr_put k c v out)

pub contains-clone_attrs :
    (kvs : Attrs) (c : String) → contains (keys (clone_attrs kvs)) c ≡ contains (keys kvs) c
unfolding clone_attrs contains
contains-clone_attrs kvs c = contains-put_all [] kvs c

pub contains-merge_entries :
    (out kvs : Attrs) (left_columns ks : List String) (c : String)
    → contains (keys (merge_entries out kvs left_columns ks)) c
      ≡ (contains (keys out) c || contains (right_columns (keys kvs) left_columns ks) c)
unfolding merge_entries right_columns contains
contains-merge_entries out [] left_columns ks c = ground arith
contains-merge_entries out ((k, v) ∷ kvs) left_columns ks c = elim (Bool-cases (contains ks k)) [
  | inl e ↦ rw e (contains-merge_entries out kvs left_columns ks c)
  | inr e ↦ rw e (
      ground (
        arith,
        contains-merge_entries (attr_put (right_name left_columns k) v out) kvs left_columns ks c,
        contains-attr_put (right_name left_columns k) c v out,
      ))
]

-- A right column that is no key is in the joined schema, under its name there.
right_columns-has :
    (columns left_columns ks : List String) (d : String)
    → contains columns d ≡ true
    → contains ks d ≡ false
    → contains (right_columns columns left_columns ks) (right_name left_columns d) ≡ true
unfolding right_columns contains
right_columns-has [] left_columns ks d h n = cc
right_columns-has (c ∷ columns) left_columns ks d h n = elim (Bool-cases (str_eq c d)) [
  | inl e ↦
      let same : c ≡ d = (str_eq_iff c d).0 e in
      let free : contains ks c ≡ false = ap (contains ks) same ∙ n in
      rw (free, same) (ground (arith, str_eq_refl (right_name left_columns d)))
  | inr e ↦
      let later = right_columns-has columns left_columns ks d (ground (arith, h, e)) n in
      ground (arith, later)
]

pub right_columns-Within :
    (ks' columns left_columns ks : List String)
    → Within ks' columns
    → Within (right_columns ks' left_columns ks) (right_columns columns left_columns ks)
unfolding right_columns contains
right_columns-Within [] columns left_columns ks w c h = cc
right_columns-Within (k ∷ ks') columns left_columns ks w c h =
    let rest : Within ks' columns = λ d m. w d (ground (arith, m)) in
    let here = w k (ground (arith, str_eq_refl k)) in
    elim (Bool-cases (contains ks k)) [
      | inl e ↦ right_columns-Within ks' columns left_columns ks rest c (rw e at h)
      | inr e ↦
          let h' = rw e at h in
          elim (Bool-cases (str_eq (right_name left_columns k) c)) [
            | inl p ↦
                rw (← (str_eq_iff (right_name left_columns k) c).0 p)
                  (right_columns-has columns left_columns ks k here e)
            | inr p ↦
                right_columns-Within ks' columns left_columns ks rest c (ground (arith, h', p))
          ]
    ]

-- ===== src/Connector/Join/Loops.antt =====
-- The rows of joinTables in connector/crosssignalconnector/join.go, beside nested loops over the
-- two tables.
use opentelemetry_querier.Base.{
  String, Bool, true, false, ◌||◌, not, Option, none, some, List, [], ◌∷◌, ◌++◌, map, ◌≡◌, ◌∙◌, sym,
  ap, refl, arith, keep, str_eq, str_eq_iff, if◌then◌else◌, Bool-cases, Option-cases, inl, inr,
  append-nil, append_assoc,
}
use opentelemetry_querier.Base.Assoc.{Assoc, lookup, insert, lookup-insert}
use opentelemetry_querier.Qdata.Result.{Row, Table}
use opentelemetry_querier.Connector.Join.{
  Format, inner, anti, key_tuple, add_row, index_rows, matches, merge_row, rows_of, is_present,
  inner_rows, is_matched, clone_row, anti_rows, join_on, inner_join, anti_join,
}

-- A row's tuple is the given one.
abbrev pub is_tuple : String → Option String → Bool
is_tuple tuple none = false
is_tuple tuple (some other) = str_eq other tuple

-- Two rows have tuples, and these are equal.
abbrev pub same_tuple : Option String → Option String → Bool
same_tuple none other = false
same_tuple (some tuple) other = is_tuple tuple other

abbrev pub any {ℓ} : {A : Type ℓ} → (A → Bool) → List A → Bool
any p [] = false
any p (x ∷ xs) = p x || any p xs

abbrev Index : Type 0
Index = Assoc (List (Option Row))

-- What is at a tuple after the rows of another have been set.
after_insert {ℓ} :
    {B : Type ℓ} (f : Option (List (Option Row)) → B) (u t : String) (rows : List (Option Row))
    (index : Index)
    → f (lookup t (insert u rows index))
      ≡ (if str_eq u t then f (some rows) else f (lookup t index))
after_insert f u t rows index =
    ap f (lookup-insert u t rows index)
    ∙ (elim (Bool-cases (str_eq u t)) [ inl e ↦ rw e refl | inr e ↦ rw e refl ])

at_same : (u t : String) (index : Index) → str_eq u t ≡ true → lookup t index ≡ lookup u index
at_same u t index e = ap (λ s. lookup s index) (sym ((str_eq_iff u t).0 e))

module _ (format : Format) where
  matches-add_row :
      (o : Option String) (row : Option Row) (index : Index) (t : String)
      → matches format (add_row format o row index) (some t)
        ≡ matches format index (some t) ++ (if is_tuple t o then row ∷ [] else [])
  unfolding matches add_row
  matches-add_row none row index t = sym (append-nil _)
  matches-add_row (some u) row index t = elim (Option-cases (lookup u index)) [
    | inl e ↦
        rw (e, add_row)
          (after_insert rows_of u t (row ∷ []) index ∙ (elim (Bool-cases (str_eq u t)) [
            | inl p ↦ rw p (ap (λ o. rows_of o ++ row ∷ []) (sym (at_same u t index p ∙ e)))
            | inr p ↦ rw p (sym (append-nil _))
          ]))
    | inr (rows, e) ↦
        rw (e, add_row)
          (after_insert rows_of u t (rows ++ row ∷ []) index ∙ (elim (Bool-cases (str_eq u t)) [
            | inl p ↦ rw p (ap (λ o. rows_of o ++ row ∷ []) (sym (at_same u t index p ∙ e)))
            | inr p ↦ rw p (sym (append-nil _))
          ]))
  ]

  is_matched-add_row :
      (o : Option String) (row : Option Row) (index : Index) (t : String)
      → is_matched format (add_row format o row index) (some t)
        ≡ (is_matched format index (some t) || is_tuple t o)
  unfolding is_matched add_row
  is_matched-add_row none row index t = ground arith
  is_matched-add_row (some u) row index t = elim (Option-cases (lookup u index)) [
    | inl e ↦ rw (e, add_row) (after_insert is_present u t (row ∷ []) index ∙ (ground (arith, e)))
    | inr (rows, e) ↦
        rw (e, add_row) (after_insert is_present u t (rows ++ row ∷ []) index ∙ (ground (arith, e)))
  ]

  matches-index_rows :
      (rows : List (Option Row)) (ks : List String) (index : Index) (t : String)
      → matches format (index_rows format rows ks index) (some t)
        ≡ matches format index (some t) ++ keep (λ r. is_tuple t (key_tuple format r ks)) rows
  unfolding index_rows
  matches-index_rows [] ks index t = sym (append-nil _)
  matches-index_rows (row ∷ rows) ks index t =
      matches-index_rows rows ks (add_row format (key_tuple format row ks) row index) t
      ∙ (elim (Bool-cases (is_tuple t (key_tuple format row ks))) [
        | inl e ↦ rw e (
            rw (matches-add_row (key_tuple format row ks) row index t, e)
              (append_assoc (matches format index (some t)) (row ∷ []) _))
        | inr e ↦ rw e (
            rw (matches-add_row (key_tuple format row ks) row index t, e)
              (append_assoc (matches format index (some t)) [] _))
      ])

  is_matched-index_rows :
      (rows : List (Option Row)) (ks : List String) (index : Index) (t : String)
      → is_matched format (index_rows format rows ks index) (some t)
        ≡ (is_matched format index (some t) || any (λ r. is_tuple t (key_tuple format r ks)) rows)
  unfolding index_rows
  is_matched-index_rows [] ks index t = ground arith
  is_matched-index_rows (row ∷ rows) ks index t = ground (
    arith,
    is_matched-index_rows rows ks (add_row format (key_tuple format row ks) row index) t,
    is_matched-add_row (key_tuple format row ks) row index t,
  )

  module _ (ks : List String) where
    -- A left and a right row belong together.
    abbrev pub pairs : Option Row → Option Row → Bool
    pairs row other = same_tuple (key_tuple format row ks) (key_tuple format other ks)

    -- The nested loop over the left rows and the right ones.
    abbrev pub nested : List String → List (Option Row) → List (Option Row) → List (Option Row)
    nested left_columns rights [] = []
    nested left_columns rights (row ∷ rows) =
        map (λ other. merge_row row other left_columns ks) (keep (pairs row) rights)
        ++ nested left_columns rights rows

    keep-false : (rows : List (Option Row)) → [] ≡ keep (λ r. false) rows
    keep-false [] = refl
    keep-false (r ∷ rows) = keep-false rows

    any-false : (rows : List (Option Row)) → false ≡ any (λ r. false) rows
    any-false [] = refl
    any-false (r ∷ rows) = any-false rows

    matches-pairs :
        (rights : List (Option Row)) (o : Option String)
        → matches format (index_rows format rights ks []) o
          ≡ keep (λ r. same_tuple o (key_tuple format r ks)) rights
    matches-pairs rights none = unfold matches in keep-false rights
    matches-pairs rights (some t) =
        matches-index_rows rights ks [] t ∙ (unfold matches lookup in refl)

    is_matched-pairs :
        (rights : List (Option Row)) (o : Option String)
        → is_matched format (index_rows format rights ks []) o
          ≡ any (λ r. same_tuple o (key_tuple format r ks)) rights
    is_matched-pairs rights none = unfold is_matched in any-false rights
    is_matched-pairs rights (some t) =
        is_matched-index_rows rights ks [] t ∙ (unfold is_matched lookup in refl)

    inner_rows-nested :
        (left_columns : List String) (rights lefts : List (Option Row))
        → inner_rows format lefts left_columns ks (index_rows format rights ks [])
          ≡ nested left_columns rights lefts
    unfolding inner_rows
    inner_rows-nested left_columns rights [] = refl
    inner_rows-nested left_columns rights (row ∷ lefts) =
        rw (matches-pairs rights (key_tuple format row ks)) (
          ap
            (λ l. map (λ other. merge_row row other left_columns ks) (keep (pairs row) rights) ++ l)
            (inner_rows-nested left_columns rights lefts))

    anti_rows-keep :
        (rights lefts : List (Option Row))
        → anti_rows format lefts ks (index_rows format rights ks [])
          ≡ map clone_row (keep (λ row. not (any (pairs row) rights)) lefts)
    unfolding anti_rows
    anti_rows-keep rights [] = refl
    anti_rows-keep rights (row ∷ lefts) =
        let known = is_matched-pairs rights (key_tuple format row ks) in
        elim (Bool-cases (any (pairs row) rights)) [
          | inl e ↦ rw (known ∙ e) (rw e (anti_rows-keep rights lefts))
          | inr e ↦ rw (known ∙ e) (rw e (ap (◌∷◌ (clone_row row)) (anti_rows-keep rights lefts)))
        ]

    -- The inner join of two tables has, for each left row in order, one row for each right row in
    -- order that has an equal key tuple, and no other row.
    pub join_on-inner :
        (left right : Table)
        → (join_on format left right inner ks).rows ≡ nested left.columns right.rows left.rows
    unfolding join_on inner_join
    join_on-inner left right = inner_rows-nested left.columns right.rows left.rows

    -- The anti join of two tables has, in order, a copy of each left row for which no right row has
    -- an equal key tuple, and no other row.
    pub join_on-anti :
        (left right : Table)
        → (join_on format left right anti ks).rows
          ≡ map clone_row (keep (λ row. not (any (pairs row) right.rows)) left.rows)
    unfolding join_on anti_join
    join_on-anti left right = anti_rows-keep right.rows left.rows

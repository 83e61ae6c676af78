-- ===== src/Connector/Join/Agreement.antt =====
-- The rows of joinTables in connector/crosssignalconnector/join.go, by the values of two rows at the
-- keys in place of the tuples of keyTuple.
use opentelemetry_querier.Base.{
  String, Bool, true, false, ◌||◌, not, Option, none, some, List, [], ◌∷◌, ◌++◌, map, ◌≡◌, ◌∙◌, ap,
  refl, arith, all, keep, str_eq, if◌then◌else◌, Option-cases, inl, inr,
}
use opentelemetry_querier.Base.Assoc.{Assoc, lookup, insert, lookup-insert}
use opentelemetry_querier.Qdata.Attrs.{Value, Attrs, text, double, int, uint, bool}
use opentelemetry_querier.Qdata.Result.{Row, Table, row_values}
use opentelemetry_querier.Connector.Join.{
  Format, inner, anti, clone_row, merge_row, row_map, value_string, key_parts, key_tuple, join_on,
}
use opentelemetry_querier.Connector.Join.Loops.{
  any, nested, pairs, same_tuple, join_on-inner, join_on-anti,
}
use opentelemetry_querier.Connector.Join.Tuples.{
  same_text, undelimited, also, gathered, tuple_of, same_tuple-gathered,
}

-- What a row has at a key: the last of its values there.
abbrev pub last_value : String → Attrs → Option Value
last_value k [] = none
last_value k ((j, v) ∷ kvs) = elim (last_value k kvs) [
  | some w ↦ some w
  | none ↦ if str_eq j k then some v else none
]

abbrev or_else : Option Value → Option Value → Option Value
or_else (some v) o = some v
or_else none o = o

or_else-none : (o : Option Value) → or_else o none ≡ o
or_else-none none = refl
or_else-none (some v) = refl

-- The code's tests are `also`.
also_lem :
    (o : Option String) (rest : Option (List String))
    → (elim o as (λ x. Option (List String)) [
      | none ↦ none
      | some part ↦ elim rest as (λ x. Option (List String)) [
        | none ↦ none
        | some parts ↦ some (part ∷ parts)
      ]
    ])
      ≡ also o rest
also_lem none rest = refl
also_lem (some s) none = refl
also_lem (some s) (some parts) = refl

lookup-row_map :
    (k : String) (kvs : Attrs) (out : Assoc Value)
    → lookup k (row_map kvs out) ≡ or_else (last_value k kvs) (lookup k out)
unfolding row_map
lookup-row_map k [] out = refl
lookup-row_map k ((j, v) ∷ kvs) out =
    ground (arith, lookup-row_map k kvs (insert j v out), lookup-insert j k v out)

module _ (format : Format) where
  -- A text, a number or a truth value as a text; other values have none.
  abbrev pub written : Option Value → Option String
  written (some (text s)) = some s
  written (some (double d)) = some (format.of_float d)
  written (some (int i)) = some (format.of_int i)
  written (some (uint u)) = some (format.of_uint u)
  written (some (bool true)) = some "true"
  written (some (bool false)) = some "false"
  written _ = none

  -- What a row has at a key, as a text.
  abbrev pub cell : Option Row → String → Option String
  cell row k = written (last_value k (row_values row))

  value_string-written : (v : Value) → value_string format v ≡ written (some v)
  unfolding value_string
  value_string-written (bool true) = refl
  value_string-written (bool false) = refl
  value_string-written v = refl

  key_parts-also :
      (m : Assoc Value) (k : String) (ks : List String)
      → key_parts format m (k ∷ ks) ≡ also (written (lookup k m)) (key_parts format m ks)
  unfolding key_parts
  key_parts-also m k ks = elim (Option-cases (lookup k m)) [
    | inl e ↦ rw (e, key_parts) refl
    | inr (v, e) ↦
        rw (e, key_parts)
          (rw (value_string-written v) (also_lem (written (some v)) (key_parts format m ks)))
  ]

  key_parts-gathered :
      (row : Option Row) (ks : List String)
      → key_parts format (row_map (row_values row) []) ks ≡ gathered (cell row) ks
  unfolding key_parts
  key_parts-gathered row [] = refl
  key_parts-gathered row (k ∷ ks) =
      key_parts-also (row_map (row_values row) []) k ks
      ∙ ap (λ o. also (written o) (key_parts format (row_map (row_values row) []) ks))
          (lookup-row_map k (row_values row) [] ∙ or_else-none (last_value k (row_values row)))
      ∙ ap (also (cell row k)) (key_parts-gathered row ks)

  key_tuple-gathered :
      (row : Option Row) (ks : List String)
      → key_tuple format row ks ≡ tuple_of (gathered (cell row) ks)
  unfolding key_tuple
  key_tuple-gathered row ks = ap tuple_of (key_parts-gathered row ks)

  module _ (ks : List String) where
    -- At every key both rows have values with a text, and the same one.
    abbrev pub agree : Option Row → Option Row → Bool
    agree row other = all (λ k. same_text (cell row k) (cell other k)) ks

    -- None of the texts of a row at the keys has a NUL character.
    abbrev pub is_plain : Option Row → Bool
    is_plain row = all (λ k. undelimited (cell row k)) ks

    pairs-agree :
        (row other : Option Row)
        → is_plain row ≡ true
        → is_plain other ≡ true
        → pairs format ks row other ≡ agree row other
    pairs-agree row other h h' =
        ap (λ o. same_tuple o (key_tuple format other ks)) (key_tuple-gathered row ks)
        ∙ ap (same_tuple (tuple_of (gathered (cell row) ks))) (key_tuple-gathered other ks)
        ∙ same_tuple-gathered (cell row) (cell other) ks h h'

    keep-agree :
        (row : Option Row) (rights : List (Option Row))
        → is_plain row ≡ true
        → all is_plain rights ≡ true
        → keep (pairs format ks row) rights ≡ keep (agree row) rights
    keep-agree row [] h hs = refl
    keep-agree row (other ∷ rights) h hs =
        let same : pairs format ks row other ≡ agree row other =
          pairs-agree row other h (ground (arith, hs)) in
        let later : keep (pairs format ks row) rights ≡ keep (agree row) rights =
          keep-agree row rights h (ground (arith, hs)) in
        ap
          (λ b.
            if b
            then other ∷ keep (pairs format ks row) rights
            else keep (pairs format ks row) rights)
          same
        ∙ ap (λ rows. if agree row other then other ∷ rows else rows) later

    any-agree :
        (row : Option Row) (rights : List (Option Row))
        → is_plain row ≡ true
        → all is_plain rights ≡ true
        → any (pairs format ks row) rights ≡ any (agree row) rights
    any-agree row [] h hs = refl
    any-agree row (other ∷ rights) h hs =
        let same : pairs format ks row other ≡ agree row other =
          pairs-agree row other h (ground (arith, hs)) in
        ap (λ b. b || any (pairs format ks row) rights) same
        ∙ ap (λ b. agree row other || b) (any-agree row rights h (ground (arith, hs)))

    -- The nested loop over the left rows and the right ones that agree with them.
    abbrev pub agreeing : List String → List (Option Row) → List (Option Row) → List (Option Row)
    agreeing left_columns rights [] = []
    agreeing left_columns rights (row ∷ rows) =
        map (λ other. merge_row row other left_columns ks) (keep (agree row) rights)
        ++ agreeing left_columns rights rows

    nested-agreeing :
        (left_columns : List String) (rights lefts : List (Option Row))
        → all is_plain rights ≡ true
        → all is_plain lefts ≡ true
        → nested format ks left_columns rights lefts ≡ agreeing left_columns rights lefts
    nested-agreeing left_columns rights [] hr hl = refl
    nested-agreeing left_columns rights (row ∷ lefts) hr hl =
        let first : keep (pairs format ks row) rights ≡ keep (agree row) rights =
          keep-agree row rights (ground (arith, hl)) hr in
        ap
          (λ rows.
            map (λ other. merge_row row other left_columns ks) rows
            ++ nested format ks left_columns rights lefts)
          first
        ∙ ap
            (λ rows.
              map (λ other. merge_row row other left_columns ks) (keep (agree row) rights) ++ rows)
            (nested-agreeing left_columns rights lefts hr (ground (arith, hl)))

    lone-agree :
        (rights lefts : List (Option Row))
        → all is_plain rights ≡ true
        → all is_plain lefts ≡ true
        → keep (λ row. not (any (pairs format ks row) rights)) lefts
          ≡ keep (λ row. not (any (agree row) rights)) lefts
    lone-agree rights [] hr hl = refl
    lone-agree rights (row ∷ lefts) hr hl =
        let first : any (pairs format ks row) rights ≡ any (agree row) rights =
          any-agree row rights (ground (arith, hl)) hr in
        ap
          (λ b.
            if not b
            then row ∷ keep (λ r. not (any (pairs format ks r) rights)) lefts
            else keep (λ r. not (any (pairs format ks r) rights)) lefts)
          first
        ∙ ap (λ rows. if not (any (agree row) rights) then row ∷ rows else rows)
            (lone-agree rights lefts hr (ground (arith, hl)))

    -- Where no text at a key has a NUL character, the inner join of two tables has, for each left row
    -- in order, the merger with each right row in order that agrees with it, and no other row: at
    -- every key both rows have a text, a number or a truth value, and the two are written alike.
    pub join_on-inner_agreeing :
        (left right : Table)
        → all is_plain right.rows ≡ true
        → all is_plain left.rows ≡ true
        → (join_on format left right inner ks).rows ≡ agreeing left.columns right.rows left.rows
    join_on-inner_agreeing left right hr hl =
        join_on-inner format ks left right ∙ nested-agreeing left.columns right.rows left.rows hr hl

    -- Where no text at a key has a NUL character, the anti join of two tables has, in order, a copy
    -- of each left row with which no right row agrees, and no other row: rows agree if at every key
    -- both have a text, a number or a truth value, and the two are written alike.
    pub join_on-anti_agreeing :
        (left right : Table)
        → all is_plain right.rows ≡ true
        → all is_plain left.rows ≡ true
        → (join_on format left right anti ks).rows
          ≡ map clone_row (keep (λ row. not (any (agree row) right.rows)) left.rows)
    join_on-anti_agreeing left right hr hl =
        join_on-anti format ks left right
        ∙ ap (map clone_row) (lone-agree right.rows left.rows hr hl)

-- ===== src/Connector/Join/Keys.antt =====
-- The columns on which two tables are joined.
use opentelemetry_querier.Base.{
  insert_text, sort_texts, String, Bool, true, false, ◌&&◌, ◌||◌, not, Option, List, [], ◌∷◌, ◌≡◌,
  ◌↔◌, ◌∙◌, sym, ap, refl, arith, contains, str_eq, str_eq_iff, str_le, is_nil, Bool-cases, inl,
  inr,
}
use opentelemetry_querier.Qerror.{ok, err}
use opentelemetry_querier.Qdata.Plan.{VectorMatch}
use opentelemetry_querier.Qdata.Result.{Table}
use opentelemetry_querier.Connector.KeyColumns.{
  remove_all, shared_with, shared_columns, on_columns, ignored, no_key, resolve_keys,
}
use opentelemetry_querier.Connector.Join.{Format, JoinMode, join_tables}

contains-insert_text :
    (a : String) (bs : List String) (c : String)
    → contains (insert_text a bs) c ≡ (str_eq a c || contains bs c)
unfolding insert_text contains
contains-insert_text a [] c = refl
contains-insert_text a (b ∷ bs) c = elim (Bool-cases (str_le a b)) [
  | inl e ↦ rw e refl
  | inr e ↦ rw e (ground (arith, contains-insert_text a bs c))
]

contains-sort_texts :
    (as' : List String) (c : String) → contains (sort_texts as') c ≡ contains as' c
unfolding sort_texts contains
contains-sort_texts [] c = refl
contains-sort_texts (a ∷ as') c =
    ground (arith, contains-insert_text a (sort_texts as') c, contains-sort_texts as' c)

contains-shared_with :
    (columns right : List String) (c : String)
    → contains (shared_with columns right) c ≡ (contains columns c && contains right c)
unfolding shared_with contains
contains-shared_with [] right c = refl
contains-shared_with (a ∷ columns) right c = elim (Bool-cases (contains right a)) [
  | inl e ↦ rw e (ground (arith, e, str_eq_iff a c, contains-shared_with columns right c))
  | inr e ↦ rw e (ground (arith, e, str_eq_iff a c, contains-shared_with columns right c))
]

contains-remove_all :
    (columns drop : List String) (c : String)
    → contains (remove_all columns drop) c ≡ (contains columns c && not (contains drop c))
unfolding remove_all contains
contains-remove_all [] drop c = refl
contains-remove_all (a ∷ columns) drop c = elim (Bool-cases (contains drop a)) [
  | inl e ↦ rw e (ground (arith, e, str_eq_iff a c, contains-remove_all columns drop c))
  | inr e ↦ rw e (ground (arith, e, str_eq_iff a c, contains-remove_all columns drop c))
]

-- Whether a column joins two tables when no `on` is given.
abbrev pub joins : Table → Table → Option VectorMatch → String → Bool
joins left right matching c =
    (contains left.columns c && contains right.columns c) && not (contains (ignored matching) c)

module _ (left right : Table) (matching : Option VectorMatch) where
  abbrev candidates : List String
  candidates = remove_all (shared_columns left right) (ignored matching)

  contains-candidates : (c : String) → contains candidates c ≡ joins left right matching c
  unfolding shared_columns
  contains-candidates c = ground (
    arith,
    contains-remove_all (shared_columns left right) (ignored matching) c,
    contains-sort_texts (shared_with left.columns right.columns) c,
    contains-shared_with left.columns right.columns c,
  )

  -- If no `on` is given and keys are found, a column is one of them exactly if both tables have it
  -- and it is not ignored.
  pub resolve_keys-joins :
      (ks : List String) (c : String)
      → on_columns matching ≡ []
      → resolve_keys left right matching ≡ ok ks
      → contains ks c ≡ joins left right matching c
  unfolding resolve_keys
  resolve_keys-joins ks c n h = elim (Bool-cases (is_nil candidates)) [
    | inl e ↦ cc (rw (n, resolve_keys, e) at h)
    | inr e ↦
        let same : candidates ≡ ks = ground (arith, rw (n, resolve_keys, e) at h) in
        ap (λ l. contains l c) (sym same) ∙ contains-candidates c
  ]

  nil-candidates : (l : List String) → ((c : String) → contains l c ≡ false) → l ≡ []
  unfolding contains
  nil-candidates [] h = refl
  nil-candidates (a ∷ l) h = ground (arith, h a, str_eq_iff a a)

  is_nil-eq : (l : List String) → is_nil l ≡ true → l ≡ []
  is_nil-eq [] h = refl
  is_nil-eq (a ∷ l) h = cc

  none_contained : (c : String) → contains [] c ≡ false
  unfolding contains
  none_contained c = refl

  refused :
      is_nil candidates ≡ true
      → on_columns matching ≡ []
      → resolve_keys left right matching ≡ err no_key
  unfolding resolve_keys
  refused e n = rw (n, resolve_keys, e) refl

  found :
      is_nil candidates ≡ false
      → on_columns matching ≡ []
      → resolve_keys left right matching ≡ ok candidates
  unfolding resolve_keys
  found e n = rw (n, resolve_keys, e) refl

  -- A join of two tables without `on` is refused for want of a key exactly if no column is in both
  -- tables and not ignored.
  pub join_tables-refused :
      (format : Format) (mode : JoinMode)
      → on_columns matching ≡ []
      → (join_tables format left right matching mode ≡ err no_key)
        ↔ ((c : String) → joins left right matching c ≡ false)
  unfolding join_tables
  join_tables-refused format mode n = elim (Bool-cases (is_nil candidates)) [
    | inl e ↦ (
      λ h c.
          sym (contains-candidates c)
          ∙ ap (λ l. contains l c) (is_nil-eq candidates e)
          ∙ none_contained c,
      λ h. rw (refused e n, join_tables) refl,
    )
    | inr e ↦ (
      λ h. cc (rw (found e n, join_tables) at h),
      λ h.
          let empty = nil-candidates candidates (λ c. contains-candidates c ∙ h c) in
          cc (ap is_nil empty, e),
    )
  ]

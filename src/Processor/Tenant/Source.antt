-- ===== src/Processor/Tenant/Source.antt =====
-- processor/tenantprocessor/tenantprocessor.go: where the tenant of a query comes from.
use opentelemetry_querier.Base.{
  String, true, false, List, [], ◌∷◌, ◌++◌, ◌≡◌, ◌≢◌, ◌⊎◌, ◌∙◌, sym, ap, refl, arith, All,
  equal_fold, str_eq, str_eq_iff, Bool-cases, inl, inr,
}
use opentelemetry_querier.Base.Assoc.{Assoc}
use opentelemetry_querier.Qdata.Query.{Query, tenant_id}
use opentelemetry_querier.Processor.Header.{header_value}
use opentelemetry_querier.Processor.Tenant.{Config, resolve, process_query, tenant_id-process_query}

-- The headers give a name a value: it is the first value of an entry with the name, up to case, and
-- no entry before that one has the name and a value.
abbrev pub Gives : Assoc (List String) → String → String → Type 0
Gives header name value =
    (before : Assoc (List String)) × (key : String) × (values : List String) × (after : Assoc
      (List String))
    × (header ≡ before ++ (key, value ∷ values) ∷ after)
    × (equal_fold key name ≡ true)
    × All (λ e. (e.1 ≡ []) ⊎ (equal_fold e.0 name ≡ false)) before

-- The tenant that headers and a configuration stand for: the value of the header if that is not
-- empty, and the default where the headers give no value but an empty one.
abbrev pub IsTenant : Config → Assoc (List String) → String → Type 0
IsTenant cfg header id =
    (Gives header cfg.header id × (id ≢ ""))
    ⊎ ((id ≡ cfg.default) × ((value : String) → Gives header cfg.header value → value ≡ ""))

-- A value that the headers give is the one that the lookup finds.
Gives-header_value :
    (before : Assoc (List String)) (name key value : String) (values : List String)
    (after : Assoc (List String))
    → equal_fold key name ≡ true
    → All (λ e. (e.1 ≡ []) ⊎ (equal_fold e.0 name ≡ false)) before
    → header_value (before ++ (key, value ∷ values) ∷ after) name ≡ value
unfolding header_value
Gives-header_value [] name key value values after h a = rw h refl
Gives-header_value ((k, []) ∷ before) name key value values after h a =
    Gives-header_value before name key value values after h a.1
Gives-header_value ((k, v ∷ vs) ∷ before) name key value values after h a =
    ground (arith, Gives-header_value before name key value values after h a.1, a.0)

-- The lookup finds a value that the headers give, or the empty one.
header_value-Gives :
    (header : Assoc (List String)) (name : String)
    → Gives header name (header_value header name) ⊎ (header_value header name ≡ "")
unfolding header_value
header_value-Gives [] name = inr refl
header_value-Gives ((k, []) ∷ header) name = elim (header_value-Gives header name) [
  | inl (before, key, values, after, split, h, a) ↦
      inl ((k, []) ∷ before, key, values, after, ap (◌∷◌ (k, [])) split, h, (inl refl, a))
  | inr e ↦ inr e
]
header_value-Gives ((k, v ∷ vs) ∷ header) name = elim (Bool-cases (equal_fold k name)) [
  | inl e ↦ rw e (inl ([], k, vs, header, refl, e, tt))
  | inr e ↦ rw e (elim (header_value-Gives header name) [
    | inl (before, key, values, after, split, h, a) ↦
        inl ((k, v ∷ vs) ∷ before, key, values, after, ap (◌∷◌ (k, v ∷ vs)) split, h, (inr e, a))
    | inr empty ↦ inr empty
  ])
]

-- A value that the headers give is the only one.
only_value :
    (header : Assoc (List String)) (name value : String)
    → Gives header name value
    → header_value header name ≡ value
only_value header name value (before, key, values, after, split, h, a) =
    ap (λ hs. header_value hs name) split
    ∙ Gives-header_value before name key value values after h a

resolve-IsTenant : (cfg : Config) (q : Query) → IsTenant cfg q.header (resolve cfg q)
unfolding resolve
resolve-IsTenant cfg q =
    let id = header_value q.header cfg.header in
    elim (Bool-cases (str_eq id "")) [
      | inl e ↦ rw e (
          inr (
            refl,
            λ value g. sym (only_value q.header cfg.header value g) ∙ (str_eq_iff id "").0 e,
          ))
      | inr e ↦ rw e (elim (header_value-Gives q.header cfg.header) [
        | inl g ↦ inl (g, λ p. ground (arith, e, (str_eq_iff id "").1 p))
        | inr p ↦ absurd (ground (arith, e, (str_eq_iff id "").1 p))
      ])
    ]

-- The tenant that the processor leaves in the metadata of any query, whatever stood there and
-- whether the query passes or not, is the value that the headers give to the configured name, if
-- that is not empty; where they give none or an empty one, it is the configured default.
pub process_query-IsTenant :
    (cfg : Config) (q : Query) → IsTenant cfg q.header (tenant_id (process_query cfg q).1)
process_query-IsTenant cfg q = rw (tenant_id-process_query cfg q) (resolve-IsTenant cfg q)

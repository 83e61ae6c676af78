-- ===== src/Qdata/Attrs/Laws.antt =====
-- What the attribute operations do to a lookup, to the keys and to their order.
use opentelemetry_querier.Base.{
  String, false, none, some, List, [], ◌∷◌, ◌++◌, map, ◌≡◌, refl, arith, str_eq, str_eq_iff,
  contains, if◌then◌else◌, Bool-cases, inl, inr, ◌||◌,
}
use opentelemetry_querier.Qdata.Attrs.{Value, Attrs, attr_put, attr_get, attr_delete, attr_get_fold}

abbrev pub keys : Attrs → List String
keys = map (λ kv. kv.0)

-- No key stands twice.
abbrev pub DistinctKeys : Attrs → Type 0
DistinctKeys [] = Unit
DistinctKeys ((k, v) ∷ kvs) = (contains (keys kvs) k ≡ false) × DistinctKeys kvs

-- After a put, the key has the new value and every other key the old one.
pub attr_get-attr_put :
    (k j : String) (v : Value) (kvs : Attrs)
    → attr_get j (attr_put k v kvs) ≡ (if str_eq k j then some v else attr_get j kvs)
unfolding attr_get attr_put
attr_get-attr_put k j v [] = refl
attr_get-attr_put k j v ((i, w) ∷ kvs) =
    ground (arith, attr_get-attr_put k j v kvs, str_eq_iff i k, str_eq_iff i j, str_eq_iff k j)

pub keys-attr_put :
    (k : String) (v : Value) (kvs : Attrs)
    → keys (attr_put k v kvs) ≡ (if contains (keys kvs) k then keys kvs else keys kvs ++ k ∷ [])
unfolding attr_put contains
keys-attr_put k v [] = refl
keys-attr_put k v ((i, w) ∷ kvs) = ground (arith, keys-attr_put k v kvs)

pub contains-attr_put :
    (k j : String) (v : Value) (kvs : Attrs)
    → contains (keys (attr_put k v kvs)) j ≡ (str_eq k j || contains (keys kvs) j)
unfolding attr_put contains
contains-attr_put k j v [] = refl
contains-attr_put k j v ((i, w) ∷ kvs) =
    ground (arith, contains-attr_put k j v kvs, str_eq_iff i k, str_eq_iff i j, str_eq_iff k j)

-- A put keeps the keys distinct.
pub attr_put-DistinctKeys :
    (k : String) (v : Value) (kvs : Attrs) → DistinctKeys kvs → DistinctKeys (attr_put k v kvs)
unfolding attr_put contains
attr_put-DistinctKeys k v [] d = (refl, tt)
attr_put-DistinctKeys k v ((i, w) ∷ kvs) d = elim (Bool-cases (str_eq i k)) [
  | inl e ↦ rw e d
  | inr e ↦ rw e (
    ground (arith, contains-attr_put k i v kvs, str_eq_iff k i, str_eq_iff i k),
    attr_put-DistinctKeys k v kvs d.1,
  )
]

pub attr_get-none :
    (k : String) (kvs : Attrs) → contains (keys kvs) k ≡ false → attr_get k kvs ≡ none
unfolding attr_get contains
attr_get-none k [] h = refl
attr_get-none k ((i, w) ∷ kvs) h = ground (arith, attr_get-none k kvs)

-- Where no key stands twice, a delete removes the key and leaves every other value.
pub attr_get-attr_delete :
    (k j : String) (kvs : Attrs)
    → DistinctKeys kvs
    → attr_get j (attr_delete k kvs) ≡ (if str_eq k j then none else attr_get j kvs)
unfolding attr_get attr_delete
attr_get-attr_delete k j [] d = ground arith
attr_get-attr_delete k j ((i, w) ∷ kvs) d = ground (
  arith,
  attr_get-attr_delete k j kvs d.1,
  attr_get-none j kvs,
  str_eq_iff i k,
  str_eq_iff i j,
  str_eq_iff k j,
)

pub contains-attr_delete :
    (k j : String) (kvs : Attrs)
    → DistinctKeys kvs
    → contains (keys (attr_delete k kvs)) j ≡ (if str_eq k j then false else contains (keys kvs) j)
unfolding attr_delete contains
contains-attr_delete k j [] d = ground arith
contains-attr_delete k j ((i, w) ∷ kvs) d =
    ground (arith, contains-attr_delete k j kvs d.1, str_eq_iff i k, str_eq_iff i j, str_eq_iff k j)

pub attr_delete-DistinctKeys :
    (k : String) (kvs : Attrs) → DistinctKeys kvs → DistinctKeys (attr_delete k kvs)
unfolding attr_delete
attr_delete-DistinctKeys k [] d = tt
attr_delete-DistinctKeys k ((i, w) ∷ kvs) d = elim (Bool-cases (str_eq i k)) [
  | inl e ↦ rw e d.1
  | inr e ↦ rw e (
    ground (arith, contains-attr_delete k i kvs d.1, str_eq_iff k i, str_eq_iff i k),
    attr_delete-DistinctKeys k kvs d.1,
  )
]

-- A key that is present exactly is found, whatever other keys equal it up to case.
pub attr_get_fold-exact :
    (k : String) (v : Value) (kvs : Attrs) → attr_get k kvs ≡ some v → attr_get_fold k kvs ≡ some v
unfolding attr_get_fold
attr_get_fold-exact k v kvs h = ground arith

-- ===== src/Qdata/Attrs.antt =====
-- Values and attribute lists of qdata/qdata.go and gen/qdata/v1/common.pb.go. An attribute list is
-- the slice of its entries; nothing in the type keeps a key from standing twice. A function that
-- changes a list in place returns the new list.
pub mod Laws
use opentelemetry_querier.Base.{
  ℕ, ℤ, String, Bool, Option, none, some, List, [], ◌∷◌, str_eq, equal_fold, if◌then◌else◌,
}
use opentelemetry_querier.Qdata.Plan.{Float}

-- A value of `Value` is a Go pointer: `nil` is the nil pointer, `unset` a message whose oneof is
-- not set. Timestamps and durations are in nanoseconds.
mutual
  pub data Value : Type 0 where
    nil : Value
    unset : Value
    double : Float → Value
    int : ℤ → Value
    uint : ℕ → Value
    text : String → Value
    bytes : List ℕ → Value
    bool : Bool → Value
    timestamp : ℤ → Value
    duration : ℤ → Value
    json : String → Value
    array : Values → Value
    object : Entries → Value

  pub data Values : Type 0 where
    end : Values
    item : Value → Values → Values

  pub data Entries : Type 0 where
    last : Entries
    entry : String → Value → Entries → Entries

abbrev pub Attrs : Type 0
Attrs = List (String × Value)

-- `AttrPut`
unfoldable pub attr_put : String → Value → Attrs → Attrs
attr_put key value [] = (key, value) ∷ []
attr_put key value ((k, v) ∷ kvs) =
    if str_eq k key then (k, value) ∷ kvs else (k, v) ∷ attr_put key value kvs

-- `AttrPutString`
unfoldable pub attr_put_string : String → String → Attrs → Attrs
unfolding attr_put
attr_put_string key value kvs = attr_put key (text value) kvs

-- `AttrGet`
unfoldable pub attr_get : String → Attrs → Option Value
attr_get key [] = none
attr_get key ((k, v) ∷ kvs) = if str_eq k key then some v else attr_get key kvs

-- the loop of `AttrGetFold` over the case-insensitive matches
unfoldable pub first_fold : String → Attrs → Option Value
first_fold key [] = none
first_fold key ((k, v) ∷ kvs) = if equal_fold k key then some v else first_fold key kvs

-- `AttrGetFold`
unfoldable pub attr_get_fold : String → Attrs → Option Value
unfolding attr_get first_fold
attr_get_fold key kvs = elim (attr_get key kvs) [ some v ↦ some v | none ↦ first_fold key kvs ]

-- `AttrDelete`: only the first entry with the key goes.
unfoldable pub attr_delete : String → Attrs → Attrs
attr_delete key [] = []
attr_delete key ((k, v) ∷ kvs) = if str_eq k key then kvs else (k, v) ∷ attr_delete key kvs

-- ===== src/Processor/ResponseFilter/Scrub.antt =====
-- What scrubbing does to one attribute list.
use opentelemetry_querier.Base.{
  String, Option, none, some, List, [], ◌∷◌, ◌≡◌, refl, arith, contains, str_eq, str_eq_iff,
  if◌then◌else◌,
}
use opentelemetry_querier.Qdata.Attrs.{Value, text, Attrs, attr_get, attr_delete, attr_put_string}
use opentelemetry_querier.Qdata.Attrs.Laws.{
  DistinctKeys, attr_get-attr_delete, attr_get-attr_put, attr_delete-DistinctKeys,
}
use opentelemetry_querier.Processor.ResponseFilter.{Config, drop_all, mask_one, mask_all, scrub}

drop_all-DistinctKeys :
    (ks : List String) (kvs : Attrs) → DistinctKeys kvs → DistinctKeys (drop_all ks kvs)
unfolding drop_all
drop_all-DistinctKeys [] kvs d = d
drop_all-DistinctKeys (key ∷ ks) kvs d =
    drop_all-DistinctKeys ks (attr_delete key kvs) (attr_delete-DistinctKeys key kvs d)

attr_get-drop_all :
    (ks : List String) (k : String) (kvs : Attrs)
    → DistinctKeys kvs
    → attr_get k (drop_all ks kvs) ≡ (if contains ks k then none else attr_get k kvs)
unfolding drop_all contains
attr_get-drop_all [] k kvs d = refl
attr_get-drop_all (key ∷ ks) k kvs d = ground (
  arith,
  attr_get-drop_all ks k (attr_delete key kvs) (attr_delete-DistinctKeys key kvs d),
  attr_get-attr_delete key k kvs d,
)

-- The mask in place of a value that is there.
abbrev pub masked : String → Option Value → Option Value
masked mask none = none
masked mask (some v) = some (text mask)

attr_get-mask_one :
    (mask key k : String) (kvs : Attrs)
    → attr_get k (mask_one mask key kvs)
      ≡ (if str_eq key k then masked mask (attr_get k kvs) else attr_get k kvs)
unfolding mask_one attr_put_string
attr_get-mask_one mask key k kvs =
    ground (arith, attr_get-attr_put key k (text mask) kvs, str_eq_iff key k)

attr_get-mask_all :
    (mask : String) (ks : List String) (k : String) (kvs : Attrs)
    → attr_get k (mask_all mask ks kvs)
      ≡ (if contains ks k then masked mask (attr_get k kvs) else attr_get k kvs)
unfolding mask_all contains
attr_get-mask_all mask [] k kvs = refl
attr_get-mask_all mask (key ∷ ks) k kvs =
    ground
      (arith, attr_get-mask_all mask ks k (mask_one mask key kvs), attr_get-mask_one mask key k kvs)

-- Where no key stands twice: a dropped key is gone, a masked key that was there has the mask, and
-- every other key has the value that it had.
pub attr_get-scrub :
    (cfg : Config) (k : String) (kvs : Attrs)
    → DistinctKeys kvs
    → attr_get k (scrub cfg kvs) ≡ (
        if contains cfg.drop_labels k
        then none
        else if contains cfg.mask_labels k
        then masked cfg.mask_with (attr_get k kvs)
        else attr_get k kvs)
unfolding scrub
attr_get-scrub cfg k kvs d = ground (
  arith,
  attr_get-mask_all cfg.mask_with cfg.mask_labels k (drop_all cfg.drop_labels kvs),
  attr_get-drop_all cfg.drop_labels k kvs d,
)

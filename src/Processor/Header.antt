-- ===== src/Processor/Header.antt =====
-- `headerValue`, written alike in processor/tenantprocessor and processor/simpleauthzprocessor: the
-- first value of the first header whose name equals the wanted one up to case.
use opentelemetry_querier.Base.{
  String, true, false, List, [], ◌∷◌, ◌≡◌, ◌⊎◌, inl, inr, arith, All, equal_fold, equal_fold_sym,
  equal_fold_trans, if◌then◌else◌,
}
use opentelemetry_querier.Base.Assoc.{Assoc}

unfoldable pub header_value : Assoc (List String) → String → String
header_value [] name = ""
header_value ((key, []) ∷ header) name = header_value header name
header_value ((key, value ∷ values) ∷ header) name =
    if equal_fold key name then value else header_value header name

-- No two header names are equal up to case.
abbrev pub FoldDistinct : Assoc (List String) → Type 0
FoldDistinct [] = Unit
FoldDistinct ((key, values) ∷ header) =
    All (λ e. equal_fold e.0 key ≡ false) header × FoldDistinct header

-- The entry stands somewhere in the list.
abbrev pub Entry : String × List String → Assoc (List String) → Type 0
Entry e [] = ⊥
Entry e (f ∷ header) = (f ≡ e) ⊎ Entry e header

other-ne :
    (key name value : String) (values : List String) (header : Assoc (List String))
    → All (λ e. equal_fold e.0 key ≡ false) header
    → Entry (name, value ∷ values) header
    → equal_fold name key ≡ false
other-ne key name value values [] h e = absurd e
other-ne key name value values (f ∷ header) h (inl p) = ground arith
other-ne key name value values (f ∷ header) h (inr e) = other-ne key name value values header h.1 e

-- Where no two names are equal up to case, the lookup of a name finds the entry that has it,
-- wherever the entry stands: the result does not depend on the order of the map.
pub header_value-Entry :
    (header : Assoc (List String)) (key name value : String) (values : List String)
    → FoldDistinct header
    → Entry (key, value ∷ values) header
    → equal_fold key name ≡ true
    → header_value header name ≡ value
unfolding header_value
header_value-Entry [] key name value values d e h = absurd e
header_value-Entry ((k, []) ∷ header) key name value values d (inl p) h = cc
header_value-Entry ((k, []) ∷ header) key name value values d (inr e) h =
    header_value-Entry header key name value values d.1 e h
header_value-Entry ((k, v ∷ vs) ∷ header) key name value values d (inl p) h = ground arith
header_value-Entry ((k, v ∷ vs) ∷ header) key name value values d (inr e) h = ground (
  arith,
  header_value-Entry header key name value values d.1 e h,
  other-ne k key value values header d.0 e,
  equal_fold_sym k name,
  equal_fold_trans key name k,
)

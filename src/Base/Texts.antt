-- ===== src/Base/Texts.antt =====
-- Native texts: equality tests, membership in a list of texts, and the case-insensitive comparison
-- of Go's `strings.EqualFold` at ASCII texts.
use Prim.Native.Nat.{ℕ, suc, ◌+◌}
use Prim.Native.Char.{code}
use Prim.Native.String.{String, compare}
use mathlib.Core.Path.{◌≡◌, refl, ap}
use mathlib.Core.Logic.{◌↔◌}
use mathlib.Core.Bool.{Bool, true, false, ◌&&◌, ◌||◌}
use mathlib.Core.List.{List, [], ◌∷◌, ◌++◌}
use native.Mathlib.Omega.{arith}
use text.Mathlib.Text.{◌==◌ as text_eq, is_le as is_at_most}
use text.Mathlib.TextEquality.{eq_iff}
use opentelemetry_querier.Base.Tests.{leb, ◌==◌, if◌then◌else◌}

-- `a == b` of Go at strings.
abbrev pub str_eq : String → String → Bool
str_eq = text_eq

-- `a <= b` of Go at strings, in the order of their bytes.
abbrev pub str_le : String → String → Bool
str_le s t = is_at_most (compare s t)

pub str_eq_iff : (s t : String) → (str_eq s t ≡ true) ↔ (s ≡ t)
str_eq_iff = eq_iff

pub str_eq_refl : (s : String) → str_eq s s ≡ true
str_eq_refl s = (eq_iff s s).1 refl

-- `slices.Contains` at strings.
unfoldable pub contains : List String → String → Bool
contains [] a = false
contains (x ∷ xs) a = str_eq x a || contains xs a

abbrev pub lower : ℕ → ℕ
lower c = if leb b'A' c && leb c b'Z' then c + 32 else c

-- The code points of a text, in lower case.
pub folded : String → List ℕ
folded String.[] = []
folded (String.◌∷◌ c s) = lower (code c) ∷ folded s

pub codes_eq : List ℕ → List ℕ → Bool
codes_eq [] [] = true
codes_eq (a ∷ as') (b ∷ bs) = a == b && codes_eq as' bs
codes_eq [] (b ∷ bs) = false
codes_eq (a ∷ as') [] = false

codes_eq_refl : (as' : List ℕ) → codes_eq as' as' ≡ true
unfolding codes_eq
codes_eq_refl [] = refl
codes_eq_refl (a ∷ as') = ground (arith, codes_eq_refl as')

codes_eq_sound : (as' bs : List ℕ) → codes_eq as' bs ≡ true → as' ≡ bs
unfolding codes_eq
codes_eq_sound [] [] h = refl
codes_eq_sound (a ∷ as') (b ∷ bs) h = ground (arith, codes_eq_sound as' bs)
codes_eq_sound [] (b ∷ bs) h = cc
codes_eq_sound (a ∷ as') [] h = cc

-- `strings.EqualFold`.
unfoldable pub equal_fold : String → String → Bool
unfolding codes_eq folded
equal_fold s t = codes_eq (folded s) (folded t)

pub equal_fold_iff : (s t : String) → (equal_fold s t ≡ true) ↔ (folded s ≡ folded t)
unfolding equal_fold
equal_fold_iff s t =
    (codes_eq_sound (folded s) (folded t), λ e. ground (arith, codes_eq_refl (folded s)))

pub equal_fold_refl : (s : String) → equal_fold s s ≡ true
equal_fold_refl s = (equal_fold_iff s s).1 refl

pub equal_fold_sym : (s t : String) → equal_fold s t ≡ equal_fold t s
equal_fold_sym s t = ground (arith, equal_fold_iff s t, equal_fold_iff t s)

pub equal_fold_trans :
    (s t u : String) → equal_fold s t ≡ true → equal_fold t u ≡ true → equal_fold s u ≡ true
equal_fold_trans s t u p q =
    ground (arith, equal_fold_iff s t, equal_fold_iff t u, equal_fold_iff s u)

pub contains-append :
    (xs ys : List String) (a : String) → contains (xs ++ ys) a ≡ (contains xs a || contains ys a)
unfolding contains
contains-append [] ys a = refl
contains-append (x ∷ xs) ys a = ground (arith, contains-append xs ys a)

-- `slices.Sort` and `sort.Strings` at strings, in the order of their bytes
unfoldable pub insert_text : String → List String → List String
insert_text a [] = a ∷ []
insert_text a (b ∷ bs) = let rest = insert_text a bs in if str_le a b then a ∷ b ∷ bs else b ∷ rest

unfoldable pub sort_texts : List String → List String
unfolding insert_text
sort_texts [] = []
sort_texts (a ∷ as') = insert_text a (sort_texts as')

-- `a + b` of Go at strings. It computes by its clauses, beside the native one.
infixr 65 ◌<>◌
abbrev pub ◌<>◌ : String → String → String
String.[] <> t = t
(String.◌∷◌ c s) <> t = String.◌∷◌ c (s <> t)

pub text_assoc : (s t u : String) → ((s <> t) <> u) ≡ s <> (t <> u)
text_assoc String.[] t u = refl
text_assoc (String.◌∷◌ c s) t u = ap (String.◌∷◌ c) (text_assoc s t u)

pub text-nil : (s : String) → (s <> "") ≡ s
text-nil String.[] = refl
text-nil (String.◌∷◌ c s) = ap (String.◌∷◌ c) (text-nil s)

-- The number of characters of a text.
abbrev pub size : String → ℕ
size String.[] = 0
size (String.◌∷◌ c s) = suc (size s)

-- `strings.Join`
unfoldable pub join_with : String → List String → String
join_with sep [] = ""
join_with sep (a ∷ []) = a
join_with sep (a ∷ b ∷ parts) = a <> (sep <> join_with sep (b ∷ parts))

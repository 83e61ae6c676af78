-- ===== src/Qdata/Predicate/Meaning.antt =====
-- What a predicate tree selects, given which matchers a series satisfies.
use opentelemetry_querier.Base.{
  Bool, true, false, not, sym, ◌∙◌, Option, none, some, List, [], ◌∷◌, ◌++◌, map, ◌≡◌, refl, ap,
  arith, all, all-append,
}
use opentelemetry_querier.Qdata.Predicate.{
  LabelMatcher, BoolOp, conj, disj, negation, unknown, Predicate, Operands, nil, empty, leaf,
  nil_expr, bool_expr, end, operand, of_list, flatten_one, flatten_operands, flatten_conjunction,
  bool_predicate, concat,
}

-- The truth of a Boolean expression from the truth of its operands. A malformed one is false.
abbrev pub combine : BoolOp → List Bool → Bool
combine conj bs = all (λ b. b) bs
combine disj bs = not (all not bs)
combine negation (b ∷ []) = not b
combine negation [] = false
combine negation (b ∷ c ∷ bs) = false
combine (unknown n) bs = false

-- An absent predicate selects everything.
unfoldable mutual
  pub meaning : (LabelMatcher → Bool) → Predicate → Bool
  meaning sat nil = true
  meaning sat empty = false
  meaning sat (leaf none) = false
  meaning sat (leaf (some m)) = sat m
  meaning sat nil_expr = true
  meaning sat (bool_expr op ps) = combine op (meanings sat ps)

  pub meanings : (LabelMatcher → Bool) → Operands → List Bool
  meanings sat end = []
  meanings sat (operand p ps) = meaning sat p ∷ meanings sat ps

module _ (sat : LabelMatcher → Bool) where
  pub meanings-of_list : (ps : List Predicate) → meanings sat (of_list ps) ≡ map (meaning sat) ps
  unfolding meaning of_list
  meanings-of_list [] = refl
  meanings-of_list (p ∷ ps) = ap (◌∷◌ (meaning sat p)) (meanings-of_list ps)

  all-map : (ps : List Predicate) → all (λ b. b) (map (meaning sat) ps) ≡ all (meaning sat) ps
  all-map [] = refl
  all-map (p ∷ ps) = ground (arith, all-map ps)

  -- The conjunction of a list of predicates holds exactly if each of them does.
  pub meaning-conj :
      (ps : List Predicate) → meaning sat (bool_predicate conj ps) ≡ all (meaning sat) ps
  unfolding meaning bool_predicate
  meaning-conj ps = rw meanings-of_list (all-map ps)

concat-eq-some :
    (o p : Option (List LabelMatcher)) (ms : List LabelMatcher)
    → concat o p ≡ some ms
    → (xs : List LabelMatcher) × (ys : List LabelMatcher) × (o ≡ some xs)
      × (p ≡ some ys)
      × (ms ≡ xs ++ ys)
concat-eq-some (some xs) (some ys) ms h = (xs, ys, refl, refl, cc)
concat-eq-some none p ms h = cc
concat-eq-some (some xs) none ms h = cc

mutual
  unfolding meaning flatten_one

  flatten_one-meaning :
      (sat : LabelMatcher → Bool) (p : Predicate) (ms : List LabelMatcher)
      → flatten_one p ≡ some ms
      → meaning sat p ≡ all sat ms
  flatten_one-meaning sat nil ms h = cc
  flatten_one-meaning sat empty ms h = cc
  flatten_one-meaning sat (leaf none) ms h = cc
  flatten_one-meaning sat (leaf (some m)) ms h = ground arith
  flatten_one-meaning sat nil_expr ms h = ground arith
  flatten_one-meaning sat (bool_expr conj ps) ms h = flatten_operands-meaning sat ps ms h
  flatten_one-meaning sat (bool_expr disj ps) ms h = cc
  flatten_one-meaning sat (bool_expr negation ps) ms h = cc
  flatten_one-meaning sat (bool_expr (unknown n) ps) ms h = cc

  flatten_operands-meaning :
      (sat : LabelMatcher → Bool) (ps : Operands) (ms : List LabelMatcher)
      → flatten_operands ps ≡ some ms
      → all (λ b. b) (meanings sat ps) ≡ all sat ms
  flatten_operands-meaning sat end ms h = ground arith
  flatten_operands-meaning sat (operand p ps) ms h =
      let (xs, ys, hx, hy, e) = concat-eq-some (flatten_one p) (flatten_operands ps) ms h in
      ground (
        arith,
        flatten_one-meaning sat p xs hx,
        flatten_operands-meaning sat ps ys hy,
        all-append sat xs ys,
      )

-- The matchers that `flatten_conjunction` returns select exactly what the list of predicates, all
-- of them required, selects.
pub flatten_conjunction-meaning :
    (sat : LabelMatcher → Bool) (preds : List Predicate) (ms : List LabelMatcher)
    → flatten_conjunction preds ≡ some ms
    → all (meaning sat) preds ≡ all sat ms
unfolding flatten_conjunction
flatten_conjunction-meaning sat preds ms h =
    sym (all-map sat preds)
    ∙ sym (ap (all (λ b. b)) (meanings-of_list sat preds))
    ∙ flatten_operands-meaning sat (of_list preds) ms h

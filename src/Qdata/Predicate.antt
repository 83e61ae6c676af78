-- ===== src/Qdata/Predicate.antt =====
-- Predicate trees of qdata/qdata.go and gen/qdata/v1/query.pb.go. A value of `Predicate` is a Go
-- pointer: `nil` is the nil pointer, `empty` a message whose oneof is not set.
pub mod Meaning
pub mod Shape
use opentelemetry_querier.Base.{
  ℕ, zero, suc, String, Bool, true, false, Option, none, some, List, [], ◌∷◌, ◌++◌,
}

pub data MatchOp : Type 0 where
  equal not_equal regexp not_regexp : MatchOp
  unknown : ℕ → MatchOp

pub record LabelMatcher : Type 0 where
  pub name : String
  pub op : MatchOp
  pub value : String

-- `conj` is the zero value of the enumeration.
pub data BoolOp : Type 0 where
  conj disj negation : BoolOp
  unknown : ℕ → BoolOp

mutual
  pub data Predicate : Type 0 where
    nil : Predicate
    empty : Predicate
    leaf : Option LabelMatcher → Predicate
    nil_expr : Predicate
    bool_expr : BoolOp → Operands → Predicate

  pub data Operands : Type 0 where
    end : Operands
    operand : Predicate → Operands → Operands

unfoldable pub to_list : Operands → List Predicate
to_list end = []
to_list (operand p ps) = p ∷ to_list ps

unfoldable pub of_list : List Predicate → Operands
of_list [] = end
of_list (p ∷ ps) = operand p (of_list ps)

-- `LeafPredicate`
unfoldable pub leaf_predicate : LabelMatcher → Predicate
leaf_predicate m = leaf (some m)

-- `BoolPredicate`
unfoldable pub bool_predicate : BoolOp → List Predicate → Predicate
unfolding of_list
bool_predicate op operands = bool_expr op (of_list operands)

pub data PredicateError : Type 0 where
  nil_predicate empty_predicate nil_leaf not_arity bool_no_operands : PredicateError
  unknown_bool_op : PredicateError

-- the switch on the operator in `validateBoolExpr`
check_arity : BoolOp → Operands → Option PredicateError
check_arity negation end = some not_arity
check_arity negation (operand p end) = none
check_arity negation (operand p (operand q ps)) = some not_arity
check_arity conj end = some bool_no_operands
check_arity conj (operand p ps) = none
check_arity disj end = some bool_no_operands
check_arity disj (operand p ps) = none
check_arity (unknown n) ps = some unknown_bool_op

-- `ValidatePredicate`; `none` is the nil error.
unfoldable mutual
  unfolding check_arity

  pub validate_predicate : Predicate → Option PredicateError
  validate_predicate nil = some nil_predicate
  validate_predicate empty = some empty_predicate
  validate_predicate (leaf none) = some nil_leaf
  validate_predicate (leaf (some m)) = none
  validate_predicate nil_expr = some empty_predicate
  validate_predicate (bool_expr op ps) = elim (check_arity op ps) [
    | some e ↦ some e
    | none ↦ validate_operands ps
  ]

  pub validate_operands : Operands → Option PredicateError
  validate_operands end = none
  validate_operands (operand p ps) = elim (validate_predicate p) [
    | some e ↦ some e
    | none ↦ validate_operands ps
  ]

abbrev pub concat :
    Option (List LabelMatcher) → Option (List LabelMatcher) → Option (List LabelMatcher)
concat none ys = none
concat (some xs) none = none
concat (some xs) (some ys) = some (xs ++ ys)

-- `FlattenConjunction` on one predicate and on a list of operands; `none` is `ok == false`.
unfoldable mutual
  pub flatten_one : Predicate → Option (List LabelMatcher)
  flatten_one nil = none
  flatten_one empty = none
  flatten_one (leaf none) = none
  flatten_one (leaf (some m)) = some (m ∷ [])
  -- a nil expression has the zero operator, AND, and no operands
  flatten_one nil_expr = some []
  flatten_one (bool_expr conj ps) = flatten_operands ps
  flatten_one (bool_expr op ps) = none

  pub flatten_operands : Operands → Option (List LabelMatcher)
  flatten_operands end = some []
  flatten_operands (operand p ps) = concat (flatten_one p) (flatten_operands ps)

unfoldable pub flatten_conjunction : List Predicate → Option (List LabelMatcher)
unfolding of_list flatten_one
flatten_conjunction preds = flatten_operands (of_list preds)

-- The filter of a Select: an absent one is not validated.
unfoldable pub check_filter : Predicate → Option PredicateError
unfolding validate_predicate
check_filter nil = none
check_filter p = validate_predicate p

-- ===== src/Qdata/Predicate/Shape.antt =====
-- Well-formed predicate trees, described without the order in which the code checks.
use opentelemetry_querier.Base.{none, some, ◌≡◌, ◌↔◌, ◌≢◌, refl, arith, List, [], ◌∷◌, All}
use opentelemetry_querier.Qdata.Predicate.{
  LabelMatcher, BoolOp, conj, disj, negation, unknown, Predicate, Operands, nil, empty, leaf,
  nil_expr, bool_expr, end, operand, validate_predicate, validate_operands, of_list, bool_predicate,
  to_list,
}

-- The operators of any arity from one.
pub data IsJunction : BoolOp → Type 0 where
  by_conj : IsJunction conj
  by_disj : IsJunction disj

mutual
  pub data WellFormed : Predicate → Type 0 where
    matcher : (m : LabelMatcher) → WellFormed (leaf (some m))
    negated : {p : Predicate} → WellFormed p → WellFormed (bool_expr negation (operand p end))
    joined :
        {op : BoolOp} {p : Predicate} {ps : Operands}
        → IsJunction op
        → WellFormedAll (operand p ps)
        → WellFormed (bool_expr op (operand p ps))

  pub data WellFormedAll : Operands → Type 0 where
    nothing : WellFormedAll end
    also :
        {p : Predicate} {ps : Operands}
        → WellFormed p
        → WellFormedAll ps
        → WellFormedAll (operand p ps)

mutual
  unfolding validate_predicate

  accepted-WellFormed : (p : Predicate) → validate_predicate p ≡ none → WellFormed p
  accepted-WellFormed nil h = cc
  accepted-WellFormed empty h = cc
  accepted-WellFormed (leaf none) h = cc
  accepted-WellFormed (leaf (some m)) h = matcher m
  accepted-WellFormed nil_expr h = cc
  accepted-WellFormed (bool_expr negation end) h = cc
  accepted-WellFormed (bool_expr negation (operand p end)) h =
      negated (accepted-WellFormed p (ground arith))
  accepted-WellFormed (bool_expr negation (operand p (operand q ps))) h = cc
  accepted-WellFormed (bool_expr conj end) h = cc
  accepted-WellFormed (bool_expr conj (operand p ps)) h =
      joined by_conj (accepted-WellFormedAll (operand p ps) h)
  accepted-WellFormed (bool_expr disj end) h = cc
  accepted-WellFormed (bool_expr disj (operand p ps)) h =
      joined by_disj (accepted-WellFormedAll (operand p ps) h)
  accepted-WellFormed (bool_expr (unknown n) ps) h = cc

  accepted-WellFormedAll : (ps : Operands) → validate_operands ps ≡ none → WellFormedAll ps
  accepted-WellFormedAll end h = nothing
  accepted-WellFormedAll (operand p ps) h =
      also (accepted-WellFormed p (ground arith)) (accepted-WellFormedAll ps (ground arith))

mutual
  unfolding validate_predicate

  WellFormed-accepted : {p : Predicate} → WellFormed p → validate_predicate p ≡ none
  WellFormed-accepted (matcher m) = refl
  WellFormed-accepted (negated w) = ground (arith, WellFormed-accepted w)
  WellFormed-accepted (joined by_conj ws) = WellFormedAll-accepted ws
  WellFormed-accepted (joined by_disj ws) = WellFormedAll-accepted ws

  WellFormedAll-accepted : {ps : Operands} → WellFormedAll ps → validate_operands ps ≡ none
  WellFormedAll-accepted nothing = refl
  WellFormedAll-accepted (also w ws) =
      ground (arith, WellFormed-accepted w, WellFormedAll-accepted ws)

-- `validate_predicate` accepts exactly the well-formed trees: every node is a leaf with a matcher,
-- a negation of one well-formed tree, or a conjunction or disjunction of at least one.
pub validate_predicate-WellFormed : (p : Predicate) → (validate_predicate p ≡ none) ↔ WellFormed p
validate_predicate-WellFormed p = (accepted-WellFormed p, WellFormed-accepted)

accepted-of_list :
    (ps : List Predicate)
    → All (λ p. validate_predicate p ≡ none) ps
    → validate_operands (of_list ps) ≡ none
unfolding validate_predicate of_list
accepted-of_list [] h = refl
accepted-of_list (p ∷ ps) h = ground (arith, accepted-of_list ps h.1)

-- A conjunction of at least one valid predicate is valid.
pub bool_predicate-accepted :
    (ps : List Predicate)
    → ps ≢ []
    → All (λ p. validate_predicate p ≡ none) ps
    → validate_predicate (bool_predicate conj ps) ≡ none
unfolding validate_predicate bool_predicate of_list
bool_predicate-accepted [] h v = absurd (h refl)
bool_predicate-accepted (p ∷ ps) h v = ground (arith, accepted-of_list ps v.1)

-- The operands of a valid conjunction are valid.
pub to_list-accepted :
    (ps : Operands)
    → validate_operands ps ≡ none
    → All (λ p. validate_predicate p ≡ none) (to_list ps)
unfolding validate_predicate to_list
to_list-accepted end h = tt
to_list-accepted (operand p ps) h = (ground arith, to_list-accepted ps (ground arith))

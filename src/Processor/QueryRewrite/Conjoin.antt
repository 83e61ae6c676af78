-- ===== src/Processor/QueryRewrite/Conjoin.antt =====
-- What the combination of predicates by conjoin selects, and its validity.
use opentelemetry_querier.Base.{
  Bool, ◌&&◌, none, List, [], ◌∷◌, ◌++◌, map, ◌≡◌, ◌≢◌, ◌∙◌, sym, ap, refl, arith, all, all-append,
  All, All-append,
}
use opentelemetry_querier.Qdata.Predicate.{
  LabelMatcher, Predicate, Operands, nil, bool_expr, conj, end, operand, to_list, leaf_predicate,
  validate_predicate,
}
use opentelemetry_querier.Qdata.Predicate.Meaning.{meaning, meanings, meaning-conj}
use opentelemetry_querier.Qdata.Predicate.Shape.{bool_predicate-accepted, to_list-accepted}
use opentelemetry_querier.Qdata.Query.{Query}
use opentelemetry_querier.Processor.QueryRewrite.{
  combine_operands, enforcement, and_operands, conjoin,
}

module _ (sat : LabelMatcher → Bool) where
  meanings-to_list :
      (ps : Operands) → all (λ b. b) (meanings sat ps) ≡ all (meaning sat) (to_list ps)
  unfolding meaning to_list
  meanings-to_list end = refl
  meanings-to_list (operand p ps) = ap (λ b. meaning sat p && b) (meanings-to_list ps)

  one : (p : Predicate) → all (meaning sat) (p ∷ []) ≡ meaning sat p
  one p = ground arith

  all-and_operands : (p : Predicate) → all (meaning sat) (and_operands p) ≡ meaning sat p
  unfolding and_operands
  all-and_operands (bool_expr conj ps) = sym (meanings-to_list ps) ∙ (unfold meaning in refl)
  all-and_operands p = one p

  -- A Select that is guarded selects what it selected and the enforced predicate does.
  pub meaning-conjoin :
      (existing enforced : Predicate)
      → meaning sat (conjoin existing enforced) ≡ (meaning sat existing && meaning sat enforced)
  unfolding conjoin
  meaning-conjoin nil enforced = unfold meaning in refl
  meaning-conjoin existing enforced =
      meaning-conj sat (and_operands existing ++ and_operands enforced)
      ∙ all-append (meaning sat) (and_operands existing) (and_operands enforced)
      ∙ cc (all-and_operands existing, all-and_operands enforced)

  meaning-combine : (ps : List Predicate) → meaning sat (combine_operands ps) ≡ all (meaning sat) ps
  unfolding combine_operands
  meaning-combine [] = unfold meaning in refl
  meaning-combine (p ∷ []) = sym (one p)
  meaning-combine (p ∷ p' ∷ ps) = meaning-conj sat (p ∷ p' ∷ ps)

  all-leaves : (ms : List LabelMatcher) → all (meaning sat) (map leaf_predicate ms) ≡ all sat ms
  unfolding meaning leaf_predicate
  all-leaves [] = refl
  all-leaves (m ∷ ms) = ap (λ b. sat m && b) (all-leaves ms)

  -- The enforced predicate of a query asks for each of the matchers and for each of the query's
  -- enforced predicates.
  pub meaning-enforcement :
      (q : Query) (matchers : List LabelMatcher)
      → meaning sat (enforcement q matchers)
        ≡ (all sat matchers && all (meaning sat) q.enforced_predicates)
  unfolding enforcement
  meaning-enforcement q matchers =
      meaning-combine (map leaf_predicate matchers ++ q.enforced_predicates)
      ∙ all-append (meaning sat) (map leaf_predicate matchers) q.enforced_predicates
      ∙ ap (λ b. b && all (meaning sat) q.enforced_predicates) (all-leaves matchers)

and_operands-accepted :
    (p : Predicate)
    → validate_predicate p ≡ none
    → (and_operands p ≢ []) × All (λ p'. validate_predicate p' ≡ none) (and_operands p)
unfolding and_operands
and_operands-accepted (bool_expr conj end) h = unfold validate_predicate in cc
and_operands-accepted (bool_expr conj (operand p ps)) h =
    unfold to_list in (λ e. cc, unfold validate_predicate in to_list-accepted (operand p ps) h)
and_operands-accepted p h = (λ e. cc, (h, tt))

append-ne-nil {ℓ} : {A : Type ℓ} (xs ys : List A) → xs ≢ [] → xs ++ ys ≢ []
append-ne-nil [] ys h = absurd (h refl)
append-ne-nil (x ∷ xs) ys h = λ e. cc

-- A valid filter guarded by a valid predicate is valid.
pub conjoin-accepted :
    (existing enforced : Predicate)
    → validate_predicate existing ≡ none
    → validate_predicate enforced ≡ none
    → validate_predicate (conjoin existing enforced) ≡ none
unfolding conjoin
conjoin-accepted nil enforced h v = v
conjoin-accepted existing enforced h v =
    let (some_operand, valid) = and_operands-accepted existing h in
    let (_, valid') = and_operands-accepted enforced v in
    bool_predicate-accepted (and_operands existing ++ and_operands enforced)
      (append-ne-nil (and_operands existing) (and_operands enforced) some_operand)
      (All-append (λ p. validate_predicate p ≡ none) (and_operands existing) (and_operands enforced)
        valid valid')

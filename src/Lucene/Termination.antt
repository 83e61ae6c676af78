-- ===== src/Lucene/Termination.antt =====
-- acceptor/elasticsearchacceptor/lucene.go: that the parser ends, and what it returns.
use opentelemetry_querier.Base.{
  ℕ, zero, suc, ◌≤◌, String, none, List, [], ◌∷◌, length, ◌≡◌, refl, arith, All, inr,
}
use opentelemetry_querier.Golib.{Unicode}
use opentelemetry_querier.Qdata.Predicate.{
  Predicate, BoolOp, conj, disj, leaf_predicate, bool_predicate, nil, of_list, check_filter,
}
use opentelemetry_querier.Qdata.Predicate.Shape.{
  validate_predicate-WellFormed, WellFormed, WellFormedAll, matcher, negated, also, nothing,
  IsJunction, by_conj, by_disj,
}
use opentelemetry_querier.Qdata.Predicate.Shape as Shape
use opentelemetry_querier.Qdata.Plan.Shape.{validate_plan-WellFormed, at_select}
use opentelemetry_querier.Qdata.Plan.{
  QueryPlan, plan_of, validate_plan, validate_node, validate_select,
}
use opentelemetry_querier.Lucene.{
  syntax, trailing, unbalanced, Parsed, Tokens, term, colon, lparen, rparen, and_mark, or_mark,
  not_mark, parse_clause, joined, closed, skip_and, ends_and, parse_not, Operands, and_operands,
  parse_and, more_and, next_operand, or_operands, parse_or, select_logs, match_all_only, whole,
  parse_tokens, parse_lucene,
}
use opentelemetry_querier.Lucene.Returns.{Returns, returned, refused, Returns-bind, Returns-if}
use opentelemetry_querier.Lucene.Lexing.{tokenize-Returns}

-- A well-formed predicate, behind which there are fewer than `n` tokens.
abbrev Read : ℕ → Predicate × Tokens → Type 0
Read n x = WellFormed x.0 × (suc (length x.1) ≤ n)

abbrev ReadAll : ℕ → Operands → Type 0
ReadAll n (p, ps, rest) = WellFormed p × All WellFormed ps × (suc (length rest) ≤ n)

listed : (ps : List Predicate) → All WellFormed ps → WellFormedAll (of_list ps)
unfolding of_list
listed [] h = nothing
listed (p ∷ ps) (w, ws) = also w (listed ps ws)

joined-WellFormed :
    (op : BoolOp) (p : Predicate) (ps : List Predicate)
    → IsJunction op
    → WellFormed p
    → All WellFormed ps
    → WellFormed (joined op p ps)
unfolding joined bool_predicate of_list
joined-WellFormed op p [] j w ws = w
joined-WellFormed op p (q ∷ ps) j w ws = Shape.joined j (also w (listed (q ∷ ps) ws))

parse_clause-Returns : (ts : Tokens) → Returns (Read (length ts)) (parse_clause ts)
unfolding parse_clause leaf_predicate
parse_clause-Returns [] = refused syntax
parse_clause-Returns (colon ∷ ts) = refused syntax
parse_clause-Returns (lparen ∷ ts) = refused syntax
parse_clause-Returns (rparen ∷ ts) = refused syntax
parse_clause-Returns (and_mark ∷ ts) = refused syntax
parse_clause-Returns (or_mark ∷ ts) = refused syntax
parse_clause-Returns (not_mark ∷ ts) = refused syntax
parse_clause-Returns (term f q ∷ []) = returned _ (matcher _, omega arith)
parse_clause-Returns (term f q ∷ colon ∷ []) = refused syntax
parse_clause-Returns (term f q ∷ colon ∷ term v q' ∷ ts) = returned _ (matcher _, omega arith)
parse_clause-Returns (term f q ∷ colon ∷ colon ∷ ts) = refused syntax
parse_clause-Returns (term f q ∷ colon ∷ lparen ∷ ts) = refused syntax
parse_clause-Returns (term f q ∷ colon ∷ rparen ∷ ts) = refused syntax
parse_clause-Returns (term f q ∷ colon ∷ and_mark ∷ ts) = refused syntax
parse_clause-Returns (term f q ∷ colon ∷ or_mark ∷ ts) = refused syntax
parse_clause-Returns (term f q ∷ colon ∷ not_mark ∷ ts) = refused syntax
parse_clause-Returns (term f q ∷ term v q' ∷ ts) = returned _ (matcher _, omega arith)
parse_clause-Returns (term f q ∷ lparen ∷ ts) = returned _ (matcher _, omega arith)
parse_clause-Returns (term f q ∷ rparen ∷ ts) = returned _ (matcher _, omega arith)
parse_clause-Returns (term f q ∷ and_mark ∷ ts) = returned _ (matcher _, omega arith)
parse_clause-Returns (term f q ∷ or_mark ∷ ts) = returned _ (matcher _, omega arith)
parse_clause-Returns (term f q ∷ not_mark ∷ ts) = returned _ (matcher _, omega arith)

closed-Returns :
    (p : Predicate) (ts : Tokens) → WellFormed p → Returns (Read (length ts)) (closed p ts)
unfolding closed
closed-Returns p [] w = refused unbalanced
closed-Returns p (rparen ∷ ts) w = returned _ (w, omega arith)
closed-Returns p (term v q ∷ ts) w = refused unbalanced
closed-Returns p (colon ∷ ts) w = refused unbalanced
closed-Returns p (lparen ∷ ts) w = refused unbalanced
closed-Returns p (and_mark ∷ ts) w = refused unbalanced
closed-Returns p (or_mark ∷ ts) w = refused unbalanced
closed-Returns p (not_mark ∷ ts) w = refused unbalanced

skip_and_size : (ts : Tokens) → length (skip_and ts) ≤ length ts
unfolding skip_and
skip_and_size [] = omega arith
skip_and_size (term v q ∷ ts) = omega arith
skip_and_size (colon ∷ ts) = omega arith
skip_and_size (lparen ∷ ts) = omega arith
skip_and_size (rparen ∷ ts) = omega arith
skip_and_size (and_mark ∷ ts) = omega arith
skip_and_size (or_mark ∷ ts) = omega arith
skip_and_size (not_mark ∷ ts) = omega arith

Read-weak :
    {n m : ℕ} (x : Parsed (Predicate × Tokens)) → n ≤ m → Returns (Read n) x → Returns (Read m) x
Read-weak _ le (returned a (w, h)) = returned a (w, omega (arith, le, h))
Read-weak _ le (refused e) = refused e

module _ (inner : Tokens → Parsed (Predicate × Tokens)) where
  parse_not-Returns :
      (ts : Tokens)
      → ((ts' : Tokens) → suc (length ts') ≤ length ts → Returns (Read (length ts')) (inner ts'))
      → Returns (Read (length ts)) (parse_not inner ts)
  unfolding parse_not bool_predicate of_list
  parse_not-Returns [] h = parse_clause-Returns []
  parse_not-Returns (not_mark ∷ ts) h =
      Returns-bind (parse_not-Returns ts (λ ts' le. h ts' (omega (arith, le))))
        (λ x (w, le). returned _ (negated w, omega (arith, le)))
  parse_not-Returns (lparen ∷ ts) h =
      Returns-bind (h ts (omega arith))
        (λ x (w, le). Read-weak (closed x.0 x.1) (omega (arith, le)) (closed-Returns x.0 x.1 w))
  parse_not-Returns (term v q ∷ ts) h = parse_clause-Returns (term v q ∷ ts)
  parse_not-Returns (colon ∷ ts) h = parse_clause-Returns (colon ∷ ts)
  parse_not-Returns (rparen ∷ ts) h = parse_clause-Returns (rparen ∷ ts)
  parse_not-Returns (and_mark ∷ ts) h = parse_clause-Returns (and_mark ∷ ts)
  parse_not-Returns (or_mark ∷ ts) h = parse_clause-Returns (or_mark ∷ ts)

  more_and-Returns :
      (loop : Tokens → Parsed Operands) (n : ℕ) (p : Predicate) (ts : Tokens)
      → WellFormed p
      → suc (length ts) ≤ n
      → Returns (ReadAll (length ts)) (loop ts)
      → Returns (ReadAll n) (more_and inner loop p ts)
  unfolding more_and
  more_and-Returns loop n p ts w le h =
      Returns-if (ends_and ts) (returned (p, [], ts) (w, tt, le)) (
        Returns-bind h (λ (q, ps, rest) (w', ws, k).
          returned (p, q ∷ ps, rest) (w, (w', ws), omega (arith, le, k))))

  and_operands-Returns :
      (fuel : ℕ) (ts : Tokens)
      → ((ts' : Tokens) → suc (length ts') ≤ length ts → Returns (Read (length ts')) (inner ts'))
      → suc (length ts) ≤ fuel
      → Returns (ReadAll (length ts)) (and_operands inner fuel ts)
  unfolding and_operands
  and_operands-Returns zero ts h le = absurd (omega (arith, le))
  and_operands-Returns (suc fuel) ts h le =
      Returns-bind (parse_not-Returns ts h) (λ (p, rest) (w, le').
        more_and-Returns (and_operands inner fuel) (length ts) p (skip_and rest) w
          (omega (arith, le', skip_and_size rest))
          (and_operands-Returns fuel (skip_and rest)
            (λ ts' k. h ts' (omega (arith, k, le', skip_and_size rest)))
            (omega (arith, le, le', skip_and_size rest))))

  parse_and-Returns :
      (ts : Tokens)
      → ((ts' : Tokens) → suc (length ts') ≤ length ts → Returns (Read (length ts')) (inner ts'))
      → Returns (Read (length ts)) (parse_and inner ts)
  unfolding parse_and
  parse_and-Returns ts h =
      Returns-bind (and_operands-Returns (suc (length ts)) ts h (omega arith))
        (λ (p, ps, rest) (w, ws, le).
          returned (joined conj p ps, rest) (joined-WellFormed conj p ps by_conj w ws, le))

  next_operand-Returns :
      (loop : Tokens → Parsed Operands) (n : ℕ) (p : Predicate) (ts : Tokens)
      → WellFormed p
      → suc (length ts) ≤ n
      → ((ts' : Tokens) → suc (length ts') ≤ length ts → Returns (ReadAll (length ts')) (loop ts'))
      → Returns (ReadAll n) (next_operand inner loop p ts)
  unfolding next_operand
  next_operand-Returns loop n p [] w le h = returned (p, [], []) (w, tt, le)
  next_operand-Returns loop n p (or_mark ∷ ts) w le h =
      Returns-bind (h ts (omega arith)) (λ (q, ps, rest) (w', ws, k).
        returned (p, q ∷ ps, rest) (w, (w', ws), omega (arith, le, k)))
  next_operand-Returns loop n p (term v q ∷ ts) w le h = returned (p, [], term v q ∷ ts) (w, tt, le)
  next_operand-Returns loop n p (colon ∷ ts) w le h = returned (p, [], colon ∷ ts) (w, tt, le)
  next_operand-Returns loop n p (lparen ∷ ts) w le h = returned (p, [], lparen ∷ ts) (w, tt, le)
  next_operand-Returns loop n p (rparen ∷ ts) w le h = returned (p, [], rparen ∷ ts) (w, tt, le)
  next_operand-Returns loop n p (and_mark ∷ ts) w le h = returned (p, [], and_mark ∷ ts) (w, tt, le)
  next_operand-Returns loop n p (not_mark ∷ ts) w le h = returned (p, [], not_mark ∷ ts) (w, tt, le)

  or_operands-Returns :
      (fuel : ℕ) (ts : Tokens)
      → ((ts' : Tokens) → suc (length ts') ≤ length ts → Returns (Read (length ts')) (inner ts'))
      → suc (length ts) ≤ fuel
      → Returns (ReadAll (length ts)) (or_operands inner fuel ts)
  unfolding or_operands
  or_operands-Returns zero ts h le = absurd (omega (arith, le))
  or_operands-Returns (suc fuel) ts h le =
      Returns-bind (parse_and-Returns ts h) (λ (p, rest) (w, le').
        next_operand-Returns (or_operands inner fuel) (length ts) p rest w le' (λ ts' k.
          or_operands-Returns fuel ts' (λ ts'' k'. h ts'' (omega (arith, k, k', le')))
            (omega (arith, le, le', k))))

parse_or-Returns :
    (fuel : ℕ) (ts : Tokens)
    → suc (length ts) ≤ fuel
    → Returns (Read (length ts)) (parse_or fuel ts)
unfolding parse_or
parse_or-Returns zero ts le = absurd (omega (arith, le))
parse_or-Returns (suc fuel) ts le =
    Returns-bind
      (or_operands-Returns (parse_or fuel) (suc (length ts)) ts
        (λ ts' k. parse_or-Returns fuel ts' (omega (arith, le, k))) (omega arith))
      (λ (p, ps, rest) (w, ws, k).
        returned (joined disj p ps, rest) (joined-WellFormed disj p ps by_disj w ws, k))

abbrev pub IsValid : QueryPlan → Type 0
IsValid plan = validate_plan plan ≡ none

whole-Returns : (p : Predicate) (ts : Tokens) → WellFormed p → Returns IsValid (whole p ts)
unfolding whole plan_of
whole-Returns p [] w = returned _ ((validate_plan-WellFormed _).1 (at_select _ (inr w)))
whole-Returns p (t ∷ ts) w = refused trailing

parse_tokens-Returns : (ts : Tokens) → Returns IsValid (parse_tokens ts)
unfolding parse_tokens validate_plan plan_of validate_node validate_select check_filter
parse_tokens-Returns ts = Returns-if (match_all_only ts) (returned (select_logs nil) refl) (
    Returns-bind (parse_or-Returns (suc (length ts)) ts (omega arith))
      (λ (p, rest) (w, k). whole-Returns p rest w))

-- The parser ends within its fuel, on every text: with an error, or with a plan that validation
-- accepts.
pub parse_lucene-IsValid : (u : Unicode) (s : String) → Returns IsValid (parse_lucene u s)
unfolding parse_lucene
parse_lucene-IsValid u s = Returns-bind (tokenize-Returns u s) (λ ts _. parse_tokens-Returns ts)

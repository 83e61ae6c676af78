-- ===== src/Elasticsearch/Meaning.antt =====
-- What the clauses of dispatcher/elasticsearchdispatcher/esquery.go find, by the documented meaning of
-- boolean queries.
use opentelemetry_querier.Base.{
  String, Bool, true, false, ◌&&◌, ◌||◌, not, none, List, [], ◌∷◌, all, Bool-cases, inl, inr, ◌==◌,
  ◌≡◌, refl, ap, sym, ◌∙◌, arith,
}
use opentelemetry_querier.Qerror.{ok, ◌>>=◌}
use opentelemetry_querier.Qdata.Predicate.{
  MatchOp, equal, not_equal, regexp, not_regexp, LabelMatcher, Predicate, Operands, nil, empty,
  leaf, nil_expr, bool_expr, end, operand, conj, disj, negation, validate_predicate, check_filter,
}
use opentelemetry_querier.Qdata.Predicate.Meaning.{meaning, meanings}
use opentelemetry_querier.Qerror.Steps.{bind-ok, ok-injective}
use opentelemetry_querier.Qdata.Predicate.Shape.{
  WellFormed, WellFormedAll, matcher, negated, joined, nothing, also, by_conj, by_disj,
  validate_predicate-WellFormed,
}
use opentelemetry_querier.Qdata.Plan.{LineMatch, Select, validate_select, signal_logs}
use opentelemetry_querier.Elasticsearch.{
  Clause, Clauses, must, must_not, should, term, matches, match_phrase, match_all, last, clause,
  message_field, matcher_to_es, line_to_es, alone, bool_clause, predicate_to_es, operands_to_es,
  lines_to_es, with_filter, together, render_select,
}

-- What a document satisfies: terms and regular expressions at a field, and phrases of the message.
pub record Document : Type 0 where
  pub has_term : String → String → Bool
  pub has_match : String → String → Bool
  pub has_phrase : String → Bool

-- The document is found by the clause.
unfoldable mutual
  pub finds : Document → Clause → Bool
  finds d (must cs) = finds_all d cs
  finds d (must_not cs) = finds_none d cs
  finds d (should cs) = finds_some d cs
  finds d (term f v) = d.has_term f v
  finds d (matches f v) = d.has_match f v
  finds d (match_phrase v) = d.has_phrase v
  finds d match_all = true

  pub finds_all : Document → Clauses → Bool
  finds_all d last = true
  finds_all d (clause c cs) = finds d c && finds_all d cs

  finds_none : Document → Clauses → Bool
  finds_none d last = true
  finds_none d (clause c cs) = not (finds d c) && finds_none d cs

  finds_some : Document → Clauses → Bool
  finds_some d last = false
  finds_some d (clause c cs) = finds d c || finds_some d cs

-- the operators of matchers, and of line filters
unfoldable pub satisfies : Document → LabelMatcher → Bool
satisfies d m = elim m.op [
  | equal ↦ d.has_term m.name m.value
  | not_equal ↦ not (d.has_term m.name m.value)
  | regexp ↦ d.has_match m.name m.value
  | not_regexp ↦ not (d.has_match m.name m.value)
  | MatchOp.unknown n ↦ false
]

unfoldable pub passes : Document → LineMatch → Bool
passes d l = elim l.op [
  | equal ↦ d.has_phrase l.value
  | not_equal ↦ not (d.has_phrase l.value)
  | regexp ↦ d.has_match message_field l.value
  | not_regexp ↦ not (d.has_match message_field l.value)
  | MatchOp.unknown n ↦ false
]

and_true : (b : Bool) → (b && true) ≡ b
and_true b = ground arith

op-finds :
    (d : Document) (op : MatchOp) (n v : String) (c : Clause)
    → matcher_to_es (record { name = n; op = op; value = v }) ≡ ok c
    → finds d c ≡ satisfies d (record { name = n; op = op; value = v })
unfolding matcher_to_es finds satisfies
op-finds d equal n v c h = ap (finds d) (sym (ok-injective (term n v) c h))
op-finds d not_equal n v c h =
    ap (finds d) (sym (ok-injective (must_not (alone (term n v))) c h))
    ∙ and_true (not (d.has_term n v))
op-finds d regexp n v c h = ap (finds d) (sym (ok-injective (matches n v) c h))
op-finds d not_regexp n v c h =
    ap (finds d) (sym (ok-injective (must_not (alone (matches n v))) c h))
    ∙ and_true (not (d.has_match n v))
op-finds d (MatchOp.unknown k) n v c h = cc

line-finds :
    (d : Document) (op : MatchOp) (v : String) (c : Clause)
    → line_to_es (record { op = op; value = v }) ≡ ok c
    → finds d c ≡ passes d (record { op = op; value = v })
unfolding line_to_es finds passes
line-finds d equal v c h = ap (finds d) (sym (ok-injective (match_phrase v) c h))
line-finds d not_equal v c h =
    ap (finds d) (sym (ok-injective (must_not (alone (match_phrase v))) c h))
    ∙ and_true (not (d.has_phrase v))
line-finds d regexp v c h = ap (finds d) (sym (ok-injective (matches message_field v) c h))
line-finds d not_regexp v c h =
    ap (finds d) (sym (ok-injective (must_not (alone (matches message_field v))) c h))
    ∙ and_true (not (d.has_match message_field v))
line-finds d (MatchOp.unknown k) v c h = cc

-- The clauses of operands, under each occurrence.
abbrev Found : Document → Clauses → List Bool → Type 0
Found d cs bs =
    (finds_all d cs ≡ all (λ b. b) bs)
    × (finds_none d cs ≡ all not bs)
    × (finds_some d cs ≡ not (all not bs))

Found-clause :
    (d : Document) (c : Clause) (cs : Clauses) (b : Bool) (bs : List Bool)
    → finds d c ≡ b
    → Found d cs bs
    → Found d (clause c cs) (b ∷ bs)
unfolding finds
Found-clause d c cs b bs e (p, q, r) =
    (ground (arith, e, p), ground (arith, e, q), ground (arith, e, r))

mutual
  unfolding predicate_to_es bool_clause meaning finds

  predicate-finds :
      (d : Document) (p : Predicate)
      → WellFormed p
      → (c : Clause) → predicate_to_es p ≡ ok c
      → finds d c ≡ meaning (satisfies d) p
  predicate-finds d _ (matcher m) c h = op-finds d m.op m.name m.value c h
  predicate-finds d _ (negated {p} w) c h =
      let (cs, hc, e) = bind-ok (operands_to_es (operand p end)) (bool_clause negation) c h in
      let (c', h1, e') = bind-ok (predicate_to_es p) (λ c. ok (clause c last)) cs hc in
      ap (finds d) (sym (ok-injective (must_not cs) c e))
      ∙ ap (finds_none d) (sym (ok-injective (clause c' last) cs e'))
      ∙ ap (λ b. not b && true) (predicate-finds d p w c' h1)
      ∙ and_true (not (meaning (satisfies d) p))
  predicate-finds d _ (joined {p = p} {ps = ps} by_conj w) c h =
      let (cs, hc, e) = bind-ok (operands_to_es (operand p ps)) (bool_clause conj) c h in
      ap (finds d) (sym (ok-injective (must cs) c e)) ∙ (operands-find d (operand p ps) w cs hc).0
  predicate-finds d _ (joined {p = p} {ps = ps} by_disj w) c h =
      let (cs, hc, e) = bind-ok (operands_to_es (operand p ps)) (bool_clause disj) c h in
      ap (finds d) (sym (ok-injective (should cs) c e)) ∙ (operands-find d (operand p ps) w cs hc).2

  operands-find :
      (d : Document) (ps : Operands)
      → WellFormedAll ps
      → (cs : Clauses) → operands_to_es ps ≡ ok cs
      → Found d cs (meanings (satisfies d) ps)
  operands-find d _ nothing cs h =
      let e : last ≡ cs = ok-injective last cs h in rw (sym e) (refl, refl, refl)
  operands-find d _ (also {p} {ps} w ws) cs h =
      let (c, hc, h') =
        bind-ok (predicate_to_es p) (λ c. operands_to_es ps >>= λ r. ok (clause c r)) cs h in
      let (rest, hr, e) = bind-ok (operands_to_es ps) (λ r. ok (clause c r)) cs h' in
      rw (sym (ok-injective (clause c rest) cs e)) (
        Found-clause d c rest (meaning (satisfies d) p) (meanings (satisfies d) ps)
          (predicate-finds d p w c hc) (operands-find d ps ws rest hr))

lines-find :
    (d : Document) (ls : List LineMatch) (cs : Clauses)
    → lines_to_es ls ≡ ok cs
    → finds_all d cs ≡ all (passes d) ls
unfolding lines_to_es finds
lines-find d [] cs h = ap (finds_all d) (sym (ok-injective last cs h))
lines-find d (l ∷ ls) cs h =
    let (c, hc, h') = bind-ok (line_to_es l) (λ c. lines_to_es ls >>= λ r. ok (clause c r)) cs h in
    let (rest, hr, e) = bind-ok (lines_to_es ls) (λ r. ok (clause c r)) cs h' in
    ap (finds_all d) (sym (ok-injective (clause c rest) cs e))
    ∙ ground (arith, line-finds d l.op l.value c hc, lines-find d ls rest hr)

together-finds : (d : Document) (cs : Clauses) → finds d (together cs) ≡ finds_all d cs
unfolding together finds
together-finds d last = refl
together-finds d (clause c last) = sym (and_true (finds d c))
together-finds d (clause c (clause c' cs)) = refl

filter_in_front :
    (d : Document) (p : Predicate) (ls : List LineMatch) (cs : Clauses)
    → validate_predicate p ≡ none
    → (predicate_to_es p >>= λ c. lines_to_es ls >>= λ r. ok (clause c r)) ≡ ok cs
    → finds_all d cs ≡ (meaning (satisfies d) p && all (passes d) ls)
unfolding finds
filter_in_front d p ls cs v h =
    let (c, hc, h') =
      bind-ok (predicate_to_es p) (λ c. lines_to_es ls >>= λ r. ok (clause c r)) cs h in
    let (rest, hr, e) = bind-ok (lines_to_es ls) (λ r. ok (clause c r)) cs h' in
    ap (finds_all d) (sym (ok-injective (clause c rest) cs e))
    ∙ ground (
      arith,
      predicate-finds d p ((validate_predicate-WellFormed p).0 v) c hc,
      lines-find d ls rest hr,
    )

filter-finds :
    (d : Document) (p : Predicate) (ls : List LineMatch) (cs : Clauses)
    → check_filter p ≡ none
    → with_filter p (lines_to_es ls) ≡ ok cs
    → finds_all d cs ≡ (meaning (satisfies d) p && all (passes d) ls)
unfolding with_filter check_filter meaning finds
filter-finds d nil ls cs v h = lines-find d ls cs h
filter-finds d empty ls cs v h = filter_in_front d empty ls cs v h
filter-finds d (leaf m) ls cs v h = filter_in_front d (leaf m) ls cs v h
filter-finds d nil_expr ls cs v h = filter_in_front d nil_expr ls cs v h
filter-finds d (bool_expr op ps) ls cs v h = filter_in_front d (bool_expr op ps) ls cs v h

-- A document is found by the clause of a valid selector exactly if the filter selects it, an absent one
-- everything, and every line filter passes it.
pub finds-render_select :
    (d : Document) (s : Select) (c : Clause)
    → validate_select s ≡ none
    → render_select s ≡ ok c
    → finds d c ≡ (meaning (satisfies d) s.filter && all (passes d) s.line)
unfolding render_select validate_select
finds-render_select d s c v h = elim (Bool-cases (s.signal == signal_logs)) [
  | inl t ↦
      (let (cs, hc, e) =
          bind-ok (with_filter s.filter (lines_to_es s.line)) (λ cs. ok (together cs)) c
            (rw t at h) in
        ap (finds d) (sym (ok-injective (together cs) c e))
        ∙ together-finds d cs
        ∙ filter-finds d s.filter s.line cs (ground (arith, v)) hc)
  | inr f ↦ (let e = rw f at h in cc)
]

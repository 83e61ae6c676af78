-- ===== src/Elasticsearch.antt =====
-- dispatcher/elasticsearchdispatcher/esquery.go: the query clause of a plan. A clause is the JSON object
-- that the source builds out of maps.
pub mod Meaning
use opentelemetry_querier.Base.{
  ℕ, String, Bool, true, false, Option, none, some, List, [], ◌∷◌, ◌==◌, if◌then◌else◌,
}
use opentelemetry_querier.Qerror.{Outcome, ok, err, ◌>>=◌, invalid}
use opentelemetry_querier.Qdata.Predicate.{
  MatchOp, equal, not_equal, regexp, not_regexp, LabelMatcher, Predicate, Operands, BoolOp, nil,
  empty, leaf, nil_expr, bool_expr, end, operand, conj, disj, negation,
}
use opentelemetry_querier.Qdata.Plan.{LineMatch, Select, Node, QueryPlan, signal_logs}

mutual
  pub data Clause : Type 0 where
    -- `{"bool": {"must": ...}}` and `{"bool": {"must_not": ...}}`
    must : Clauses → Clause
    must_not : Clauses → Clause
    -- `{"bool": {"should": ..., "minimum_should_match": 1}}`
    should : Clauses → Clause
    -- the field and the value
    term : String → String → Clause
    matches : String → String → Clause
    -- the phrase in the field of messages
    match_phrase : String → Clause
    match_all : Clause

  pub data Clauses : Type 0 where
    last : Clauses
    clause : Clause → Clauses → Clauses

abbrev pub message_field : String
message_field = "message"

abbrev pub alone : Clause → Clauses
alone c = clause c last

-- `matcherToES`
unfoldable pub matcher_to_es : LabelMatcher → Outcome Clause
matcher_to_es m = elim m.op [
  | equal ↦ ok (term m.name m.value)
  | not_equal ↦ ok (must_not (alone (term m.name m.value)))
  | regexp ↦ ok (matches m.name m.value)
  | not_regexp ↦ ok (must_not (alone (matches m.name m.value)))
  | MatchOp.unknown n ↦ invalid "elasticsearchdispatcher: unknown match operator"
]

-- `lineToES`
unfoldable pub line_to_es : LineMatch → Outcome Clause
line_to_es l = elim l.op [
  | equal ↦ ok (match_phrase l.value)
  | not_equal ↦ ok (must_not (alone (match_phrase l.value)))
  | regexp ↦ ok (matches message_field l.value)
  | not_regexp ↦ ok (must_not (alone (matches message_field l.value)))
  | MatchOp.unknown n ↦ invalid "elasticsearchdispatcher: unknown line-filter operator"
]

-- the switch on the operator in `boolExprToES`
unfoldable pub bool_clause : BoolOp → Clauses → Outcome Clause
bool_clause conj cs = ok (must cs)
bool_clause disj cs = ok (should cs)
bool_clause negation cs = ok (must_not cs)
bool_clause (BoolOp.unknown n) cs = invalid "elasticsearchdispatcher: unknown bool op"

-- the getters of a nil matcher return the zero values
abbrev pub zero_matcher : LabelMatcher
zero_matcher = record { name = ""; op = equal; value = "" }

-- `predicateToES`, with `boolExprToES`
unfoldable mutual
  unfolding matcher_to_es bool_clause

  pub predicate_to_es : Predicate → Outcome Clause
  predicate_to_es nil = invalid "elasticsearchdispatcher: empty predicate node"
  predicate_to_es empty = invalid "elasticsearchdispatcher: empty predicate node"
  predicate_to_es (leaf none) = matcher_to_es zero_matcher
  predicate_to_es (leaf (some m)) = matcher_to_es m
  predicate_to_es nil_expr = bool_clause conj last
  predicate_to_es (bool_expr op ps) = operands_to_es ps >>= bool_clause op

  pub operands_to_es : Operands → Outcome Clauses
  operands_to_es end = ok last
  operands_to_es (operand p ps) =
      let first = predicate_to_es p in
      let rest = operands_to_es ps in do c ← first; cs ← rest; ok (clause c cs)

-- the clauses of the line filters
unfoldable pub lines_to_es : List LineMatch → Outcome Clauses
unfolding line_to_es
lines_to_es [] = ok last
lines_to_es (l ∷ ls) = do c ← line_to_es l; cs ← lines_to_es ls; ok (clause c cs)

-- the clause of the filter, which an absent one has not, in front of the others
unfoldable pub with_filter : Predicate → Outcome Clauses → Outcome Clauses
unfolding predicate_to_es
with_filter nil lines = lines
with_filter p lines = do c ← predicate_to_es p; cs ← lines; ok (clause c cs)

-- the switch on the number of clauses in `renderSelect`
unfoldable pub together : Clauses → Clause
together last = match_all
together (clause c last) = c
together (clause c (clause d cs)) = must (clause c (clause d cs))

-- `renderSelect`
unfoldable pub render_select : Select → Outcome Clause
unfolding with_filter lines_to_es together
render_select s =
    if s.signal == signal_logs
    then (do cs ← with_filter s.filter (lines_to_es s.line); ok (together cs))
    else invalid "elasticsearchdispatcher: Elasticsearch serves logs, not %s"

-- `planToESQuery`
unfoldable pub plan_to_es : QueryPlan → Outcome Clause
unfolding render_select
plan_to_es plan = elim plan.root [
  | Node.select s ↦ render_select s
  | _ ↦
      invalid
        "elasticsearchdispatcher: only a Select plan is supported (no metric aggregation over Elasticsearch)"
]

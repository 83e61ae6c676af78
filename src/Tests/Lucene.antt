-- ===== src/Tests/Lucene.antt =====
-- A query of Lucene at concrete inputs.
use opentelemetry_querier.Base.{String, equal_fold, [], ◌∷◌, ◌≡◌, refl}
use opentelemetry_querier.Qdata.Predicate.{
  equal, Predicate, leaf_predicate, bool_predicate, conj, disj, negation,
}
use opentelemetry_querier.Lucene.{ok, failed, unbalanced, parse_lucene, select_logs}
use opentelemetry_querier.Lucene.Returns.{Returns}
use opentelemetry_querier.Lucene.Termination.{IsValid, parse_lucene-IsValid}
use opentelemetry_querier.Tests.PlainText.{ascii}

abbrev is : String → String → Predicate
is name value = leaf_predicate (record { name = name; op = equal; value = value })

-- AND binds tighter than OR, a term without a field is one of the message, and a minus negates.
nested_query :
    parse_lucene ascii "level:\"a b\" x OR (-y and + z)"
    ≡ ok (
        select_logs (
          bool_predicate disj (
            bool_predicate conj (is "level" "a b" ∷ is "message" "x" ∷ [])
            ∷ bool_predicate conj
                (bool_predicate negation (is "message" "y" ∷ []) ∷ is "message" "z" ∷ [])
            ∷ [])))
unfolding parse_lucene leaf_predicate bool_predicate equal_fold
nested_query = refl

open_parenthesis : parse_lucene ascii "(x" ≡ failed unbalanced
unfolding parse_lucene equal_fold
open_parenthesis = refl

parse_lucene-IsValid_example :
    Returns IsValid (parse_lucene ascii "level:\"a b\" x OR (-y and + z)")
parse_lucene-IsValid_example = parse_lucene-IsValid ascii "level:\"a b\" x OR (-y and + z)"

-- ===== src/Tests/Logql.antt =====
-- A plan in LogQL at concrete inputs.
use opentelemetry_querier.Base.{pos, String, Bool, [], ◌∷◌, map, ◌≡◌, ◌≢◌, refl}
use opentelemetry_querier.Qdata.Predicate.{
  MatchOp, equal, regexp, LabelMatcher, leaf_predicate, bool_predicate, conj,
}
use opentelemetry_querier.Qdata.Plan.{
  TimeAggOp, AggOp, select, time_agg, aggregate, QueryPlan, plan_of, signal_logs,
}
use opentelemetry_querier.Loki.Scan.{ok, out_of_fuel}
use opentelemetry_querier.Loki.Parse.{parse_logql}
use opentelemetry_querier.Loki.Render.{plan_to_logql}
use opentelemetry_querier.Loki.Canonical.{is_logql}
use opentelemetry_querier.Loki.Meaning.{selected, parse_logql-selected}
use opentelemetry_querier.Qdata.Signals.{selects}
use opentelemetry_querier.Loki.Termination.{parse_logql_terminates}
use opentelemetry_querier.Tests.PlainText.{escape, ones, plain_lib, ascii, plain_laws, ascii_laws}

abbrev labelled : String → MatchOp → String → LabelMatcher
labelled name op value = record { name = name; op = op; value = value }

-- sum by(app,ns) (topk without(pod) (2, rate({...} |= "a\"b" [5s])))
abbrev nested : QueryPlan
nested = plan_of (
    aggregate AggOp.sum ("app" ∷ "ns" ∷ []) [] 7 (
      aggregate AggOp.topk [] ("pod" ∷ []) 2 (
        time_agg TimeAggOp.rate (pos 5000000000) (
          select (record {
            signal = signal_logs;
            filter = bool_predicate conj (
                leaf_predicate (labelled "ns" regexp "p.*")
                ∷ leaf_predicate (labelled "app" equal "x")
                ∷ []);
            line = record { op = equal; value = "a\"b" } ∷ [];
          })))))

nested_text : String
nested_text =
    "sum by(app,ns)(topk without(pod)(111, rate({app=\"x\",ns=~\"p.*\"} |= \"a\\\"b\"[111111s])))"

parse_logql_terminates_example : parse_logql plain_lib ascii "sum((" ≢ out_of_fuel
parse_logql_terminates_example = parse_logql_terminates plain_lib ascii "sum(("

parse_logql-selected_example :
    (plan' : QueryPlan) × (parse_logql plain_lib ascii nested_text ≡ ok plan')
    × ((sat : LabelMatcher → Bool)
        → map (selected sat) (selects plan'.root) ≡ map (selected sat) (selects nested.root))
unfolding plan_to_logql is_logql nested_text plan_of leaf_predicate bool_predicate escape ones
parse_logql-selected_example =
    parse_logql-selected plain_lib ascii ascii_laws plain_laws nested nested_text refl refl

-- ===== src/Tests/Renders.antt =====
-- Plans for Prometheus and Elasticsearch, component ids and a configuration at concrete inputs.
use opentelemetry_querier.Base.{
  String, false, ◌&&◌, none, some, [], ◌∷◌, all, str_eq, pos, if◌then◌else◌, ◌≡◌, ◌≢◌, ◌↔◌, refl,
  All,
}
use opentelemetry_querier.Base.Assoc.{Assoc}
use opentelemetry_querier.Qerror.{ok, invalid_argument}
use opentelemetry_querier.Qerror.Steps.{refusal}
use opentelemetry_querier.Qdata.Predicate.{
  not_equal, leaf_predicate, bool_predicate, disj, negation,
}
use opentelemetry_querier.Qdata.Predicate.Meaning.{meaning}
use opentelemetry_querier.Qdata.Plan.{
  BinOp, TimeAggOp, MatchCardinality, binary, literal, select, time_agg, Select, QueryPlan, plan_of,
  validate_select, signal_metrics, signal_logs,
}
use opentelemetry_querier.Prometheus.Render.{plan_to_promql}
use opentelemetry_querier.Prometheus.Expressible.{is_promql}
use opentelemetry_querier.Prometheus.Closed.{refusal-plan_to_promql}
use opentelemetry_querier.Elasticsearch.{
  Clause, must, must_not, should, term, match_phrase, clause, alone, render_select,
}
use opentelemetry_querier.Elasticsearch.Meaning.{
  Document, finds, satisfies, passes, finds-render_select,
}
use opentelemetry_querier.Component.{ComponentId, id_string, parse_id}
use opentelemetry_querier.Component.RoundTrip.{parse_id-id_string}
use opentelemetry_querier.Component.Config.{
  PipelineConfig, Runnable, validate_config, validate_config-Runnable,
}
use opentelemetry_querier.Tests.Fixtures.{matcher}
use opentelemetry_querier.Tests.PlainText.{plain_lib, ascii, ascii_laws}

abbrev ratio : String → QueryPlan
ratio label = plan_of (
    binary BinOp.div
      (time_agg TimeAggOp.increase (pos 60000000000) (
        select (record {
          signal = signal_metrics;
          filter = leaf_predicate (matcher "job" "a");
          line = [];
        })))
      (literal 1)
      (some (record {
        on = label ∷ [];
        ignoring = [];
        cardinality = MatchCardinality.one_to_one;
        include = [];
      })))

refusal-plan_to_promql_example :
    refusal (plan_to_promql plain_lib (ratio "job) or up"))
    ≡ (if is_promql (ratio "job) or up").root then none else some invalid_argument)
refusal-plan_to_promql_example = refusal-plan_to_promql plain_lib (ratio "job) or up")

abbrev errors : Select
errors = record {
  signal = signal_logs;
  filter = bool_predicate disj (
      leaf_predicate (matcher "app" "a")
      ∷ bool_predicate negation (leaf_predicate (matcher "app" "b") ∷ [])
      ∷ []);
  line = record { op = not_equal; value = "debug" } ∷ [];
}

abbrev errors_clause : Clause
errors_clause = must (
    clause (should (clause (term "app" "a") (alone (must_not (alone (term "app" "b"))))))
      (alone (must_not (alone (match_phrase "debug")))))

abbrev document : Document
document = record {
  has_term = λ f v. str_eq f "app" && str_eq v "c";
  has_match = λ f v. false;
  has_phrase = λ v. str_eq v "start";
}

finds-render_select_example :
    finds document errors_clause
    ≡ (meaning (satisfies document) errors.filter && all (passes document) errors.line)
unfolding validate_select render_select leaf_predicate bool_predicate
finds-render_select_example = finds-render_select document errors errors_clause refl refl

abbrev metrics_id : ComponentId
metrics_id = record { typ = "metrics"; name = "eu 1" }

parse_id-id_string_example : parse_id ascii (id_string metrics_id) ≡ ok metrics_id
unfolding parse_id
parse_id-id_string_example = parse_id-id_string ascii ascii_laws " metrics / eu 1 " metrics_id refl

abbrev pipelines : Assoc PipelineConfig
pipelines =
    ("logs/a", record { acceptors = "loki" ∷ []; processors = []; dispatchers = "loki" ∷ [] })
    ∷ ("metrics", record { acceptors = "otqp" ∷ []; processors = []; dispatchers = "a" ∷ "b" ∷ [] })
    ∷ []

validate_config-Runnable_example :
    (validate_config ascii pipelines ≡ none) ↔ ((pipelines ≢ []) × All (Runnable ascii) pipelines)
validate_config-Runnable_example = validate_config-Runnable ascii pipelines

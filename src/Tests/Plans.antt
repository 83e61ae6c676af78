-- ===== src/Tests/Plans.antt =====
-- Predicates, plans, signals and tables at concrete inputs.
use opentelemetry_querier.Base.{
  true, false, ℕ, String, Bool, ◌||◌, none, some, [], ◌∷◌, ◌≡◌, ◌↔◌, refl, all, contains, str_eq,
}
use opentelemetry_querier.Qdata.Predicate.{
  LabelMatcher, Predicate, BoolOp, leaf, bool_expr, operand, end, validate_predicate,
  flatten_conjunction,
}
use opentelemetry_querier.Qdata.Predicate.Meaning.{meaning, flatten_conjunction-meaning}
use opentelemetry_querier.Qdata.Predicate.Shape.{WellFormed, validate_predicate-WellFormed}
use opentelemetry_querier.Qdata.Identifier.{valid_identifier, Starts, AllWord, valid_identifier_iff}
use opentelemetry_querier.Qdata.Plan.{PlanError, validate_plan, signal_metrics, signal_logs}
use opentelemetry_querier.Qdata.Plan.Shape.{WellFormedNode, validate_plan-WellFormed}
use opentelemetry_querier.Qdata.Signals.{has, plan_signals, selects}
use opentelemetry_querier.Qdata.Signals.Order.{Ascending, signals_of, plan_signals_lem}
use opentelemetry_querier.Qdata.Attrs.{text, Attrs, attr_get, attr_delete}
use opentelemetry_querier.Qdata.Result.{Table}
use opentelemetry_querier.Qdata.Table.{table_columns}
use opentelemetry_querier.Qdata.Table.Columns.{DistinctColumns, row_has, table_columns_lem}
use opentelemetry_querier.Tests.Fixtures.{matcher, joined, windowless}

abbrev both : Predicate
both =
    bool_expr BoolOp.conj
      (operand (leaf (some (matcher "a" "1"))) (operand (leaf (some (matcher "b" "2"))) end))

abbrev is_a : LabelMatcher → Bool
is_a m = str_eq m.name "a"

validate_predicate-WellFormed_example : (validate_predicate both ≡ none) ↔ WellFormed both
validate_predicate-WellFormed_example = validate_predicate-WellFormed both

flattened : flatten_conjunction (both ∷ []) ≡ some (matcher "a" "1" ∷ matcher "b" "2" ∷ [])
unfolding flatten_conjunction
flattened = refl

flatten_conjunction-meaning_example :
    all (meaning is_a) (both ∷ []) ≡ all is_a (matcher "a" "1" ∷ matcher "b" "2" ∷ [])
flatten_conjunction-meaning_example =
    flatten_conjunction-meaning is_a (both ∷ []) (matcher "a" "1" ∷ matcher "b" "2" ∷ []) flattened

validate_plan-WellFormed_example : (validate_plan joined ≡ none) ↔ WellFormedNode joined.root
validate_plan-WellFormed_example = validate_plan-WellFormed joined

joined_accepted : validate_plan joined ≡ none
unfolding validate_plan
joined_accepted = refl

windowless_refused : validate_plan windowless ≡ some PlanError.time_agg_window
unfolding validate_plan
windowless_refused = refl

plan_signals_example :
    Ascending (plan_signals joined)
    × ((s : ℕ) → has s (plan_signals joined) ≡ has s (signals_of (selects joined.root)))
plan_signals_example = plan_signals_lem joined

joined_signals : plan_signals joined ≡ signal_metrics ∷ signal_logs ∷ []
unfolding plan_signals
joined_signals = refl

abbrev two_rows : Table
two_rows = record {
  columns = "job" ∷ [];
  rows =
      some (record { values = ("job", text "api") ∷ ("pod", text "p1") ∷ [] })
      ∷ none
      ∷ some (record { values = ("job", text "db") ∷ [] })
      ∷ [];
}

table_columns_example :
    DistinctColumns (table_columns two_rows)
    × ((c : String)
        → contains (table_columns two_rows) c
          ≡ (contains two_rows.columns c || row_has two_rows.rows c))
table_columns_example = table_columns_lem two_rows

two_rows_columns : table_columns two_rows ≡ "job" ∷ "pod" ∷ []
unfolding table_columns contains
two_rows_columns = refl

abbrev labels : Attrs
labels = ("job", text "api") ∷ ("pod", text "p1") ∷ []

-- With a key that stands twice, a delete leaves its second value behind.
second_value_stays :
    attr_get "job" (attr_delete "job" (("job", text "a") ∷ labels)) ≡ some (text "api")
unfolding attr_get attr_delete
second_value_stays = refl

valid_identifier_iff_example :
    (valid_identifier "http_2xx" ≡ true) ↔ (Starts "http_2xx" × AllWord "http_2xx")
valid_identifier_iff_example = valid_identifier_iff "http_2xx"

http_valid : valid_identifier "http_2xx" ≡ true
unfolding valid_identifier
http_valid = refl

escape_refused : valid_identifier "job}" ≡ false
unfolding valid_identifier
escape_refused = refl

-- ===== src/Tests/Results.antt =====
-- The response path at concrete inputs.
use opentelemetry_querier.Base.{
  false, none, some, [], ◌∷◌, map, ◌≡◌, refl, All, contains, if◌then◌else◌,
}
use opentelemetry_querier.Qdata.Attrs.{text, Attrs, attr_get}
use opentelemetry_querier.Qdata.Attrs.Laws.{DistinctKeys}
use opentelemetry_querier.Qdata.Result.{QueryResult, Table, table}
use opentelemetry_querier.Processor.ResponseFilter.{Config, scrub, process_result}
use opentelemetry_querier.Processor.ResponseFilter.Scrub.{masked, attr_get-scrub}
use opentelemetry_querier.Processor.ResponseFilter.Everywhere.{
  attr_lists, Clean, process_result-scrub, process_result-Clean,
}

abbrev cfg : Config
cfg = record {
  drop_labels = "pod" ∷ [];
  mask_labels = "user" ∷ [];
  mask_with = "***";
  warn_counter_without_rate = false;
}

abbrev row : Attrs
row = ("job", text "api") ∷ ("pod", text "p1") ∷ ("user", text "ann") ∷ []

abbrev rows : Table
rows = record {
  columns = "job" ∷ "pod" ∷ "user" ∷ [];
  rows = some (record { values = row }) ∷ none ∷ [];
}

abbrev result : QueryResult
result = record { signal = 0; payload = table rows; feedback = [] }

row_distinct : DistinctKeys row
unfolding contains
row_distinct = (refl, (refl, (refl, tt)))

passes : (process_result cfg result).0 ≡ none
unfolding process_result
passes = refl

attr_get-scrub_example : attr_get "user" (scrub cfg row) ≡ (
    if contains cfg.drop_labels "user"
    then none
    else if contains cfg.mask_labels "user"
    then masked cfg.mask_with (attr_get "user" row)
    else attr_get "user" row)
attr_get-scrub_example = attr_get-scrub cfg "user" row row_distinct

process_result-scrub_example :
    attr_lists (process_result cfg result).1.payload ≡ map (scrub cfg) (attr_lists result.payload)
process_result-scrub_example = process_result-scrub cfg result passes

process_result-Clean_example : All (Clean cfg) (attr_lists (process_result cfg result).1.payload)
process_result-Clean_example = process_result-Clean cfg result (row_distinct, tt) passes

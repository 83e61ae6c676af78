-- ===== src/Processor/ResponseFilter/Everywhere.antt =====
-- The attribute lists of a result, and what ProcessResult of responsefilterprocessor leaves of them.
use mathlib.Core.List.{map-append}
use mathlib.Core.Path.{subst}
use opentelemetry_querier.Base.{
  String, true, Option, none, some, List, [], ◌∷◌, ◌++◌, map, ◌≡◌, ◌∙◌, ◌⊎◌, sym, ap, refl, arith,
  All, contains,
}
use opentelemetry_querier.Qdata.Attrs.{text, Attrs, attr_get}
use opentelemetry_querier.Qdata.Attrs.Laws.{DistinctKeys}
use opentelemetry_querier.Qdata.Result.{
  MetricSeries, MetricPoint, Exemplar, LogRecord, Span, SpanEvent, SpanLink, Row, Payload, absent,
  metrics, logs, spans, table, other, QueryResult,
}
use opentelemetry_querier.Processor.ResponseFilter.{
  Config, scrub, scrub_exemplar, scrub_point, scrub_series, scrub_log, scrub_event, scrub_link,
  scrub_span, scrub_row, process_metrics, warn_series, process_result,
}
use opentelemetry_querier.Processor.ResponseFilter.Scrub.{attr_get-scrub}

-- The attribute lists of a result, each once.
abbrev pub of_exemplars : List Exemplar → List Attrs
of_exemplars = map (λ e. e.attributes)

abbrev pub of_points : List MetricPoint → List Attrs
of_points [] = []
of_points (p ∷ ps) = of_exemplars p.exemplars ++ of_points ps

abbrev pub of_series : List MetricSeries → List Attrs
of_series [] = []
of_series (s ∷ ss) = s.attributes ∷ (of_points s.points ++ of_series ss)

abbrev pub of_spans : List Span → List Attrs
of_spans [] = []
of_spans (s ∷ ss) =
    s.attributes
    ∷ (map (λ e. e.attributes) s.events ++ (map (λ l. l.attributes) s.links ++ of_spans ss))

abbrev pub of_rows : List (Option Row) → List Attrs
of_rows [] = []
of_rows (none ∷ rows) = of_rows rows
of_rows (some r ∷ rows) = r.values ∷ of_rows rows

abbrev pub attr_lists : Payload → List Attrs
attr_lists absent = []
attr_lists (metrics ss) = of_series ss
attr_lists (logs ls) = map (λ l. l.attributes) ls
attr_lists (spans ss) = of_spans ss
attr_lists (table t) = of_rows t.rows
attr_lists other = []

module _ (cfg : Config) where
  of_exemplars-scrub :
      (es : List Exemplar)
      → of_exemplars (map (scrub_exemplar cfg) es) ≡ map (scrub cfg) (of_exemplars es)
  of_exemplars-scrub [] = refl
  of_exemplars-scrub (e ∷ es) = ap (◌∷◌ (scrub cfg e.attributes)) (of_exemplars-scrub es)

  of_points-scrub :
      (ps : List MetricPoint)
      → of_points (map (scrub_point cfg) ps) ≡ map (scrub cfg) (of_points ps)
  of_points-scrub [] = refl
  of_points-scrub (p ∷ ps) = simp (of_exemplars-scrub p.exemplars, of_points-scrub ps, map-append)

  of_series-scrub :
      (ss : List MetricSeries)
      → of_series (map (scrub_series cfg) ss) ≡ map (scrub cfg) (of_series ss)
  of_series-scrub [] = refl
  of_series-scrub (s ∷ ss) = simp (of_points-scrub s.points, of_series-scrub ss, map-append)

  of_logs-scrub :
      (ls : List LogRecord)
      → attr_lists (logs (map (scrub_log cfg) ls)) ≡ map (scrub cfg) (attr_lists (logs ls))
  of_logs-scrub [] = refl
  of_logs-scrub (l ∷ ls) = ap (◌∷◌ (scrub cfg l.attributes)) (of_logs-scrub ls)

  events-scrub :
      (es : List SpanEvent)
      → map (λ e. e.attributes) (map (scrub_event cfg) es)
        ≡ map (scrub cfg) (map (λ e. e.attributes) es)
  events-scrub [] = refl
  events-scrub (e ∷ es) = ap (◌∷◌ (scrub cfg e.attributes)) (events-scrub es)

  links-scrub :
      (ls : List SpanLink)
      → map (λ l. l.attributes) (map (scrub_link cfg) ls)
        ≡ map (scrub cfg) (map (λ l. l.attributes) ls)
  links-scrub [] = refl
  links-scrub (l ∷ ls) = ap (◌∷◌ (scrub cfg l.attributes)) (links-scrub ls)

  of_spans-scrub :
      (ss : List Span) → of_spans (map (scrub_span cfg) ss) ≡ map (scrub cfg) (of_spans ss)
  of_spans-scrub [] = refl
  of_spans-scrub (s ∷ ss) =
      simp (events-scrub s.events, links-scrub s.links, of_spans-scrub ss, map-append)

  of_rows-scrub :
      (rows : List (Option Row))
      → of_rows (map (scrub_row cfg) rows) ≡ map (scrub cfg) (of_rows rows)
  of_rows-scrub [] = refl
  of_rows-scrub (none ∷ rows) = of_rows-scrub rows
  of_rows-scrub (some r ∷ rows) = ap (◌∷◌ (scrub cfg r.values)) (of_rows-scrub rows)

  process_metrics-series :
      (r : QueryResult) (ss : List MetricSeries)
      → (process_metrics cfg r ss).0 ≡ map (scrub_series cfg) ss
  unfolding process_metrics
  process_metrics-series r [] = refl
  process_metrics-series r (s ∷ ss) =
      ap (◌∷◌ (scrub_series cfg s)) (process_metrics-series (warn_series cfg r s) ss)

  payload-scrub :
      (r : QueryResult) (p : Payload)
      → (process_result cfg (record r { payload = p })).0 ≡ none
      → attr_lists (process_result cfg (record r { payload = p })).1.payload
        ≡ map (scrub cfg) (attr_lists p)
  unfolding process_result
  payload-scrub r absent h = refl
  payload-scrub r (metrics ss) h =
      ap of_series (process_metrics-series (record r { payload = metrics ss }) ss)
      ∙ of_series-scrub ss
  payload-scrub r (logs ls) h = of_logs-scrub ls
  payload-scrub r (spans ss) h = of_spans-scrub ss
  payload-scrub r (table t) h = of_rows-scrub t.rows
  payload-scrub r other h = cc

  -- If a result passes, every attribute list in it has been scrubbed: those of the series, of the
  -- exemplars of their points, of the log records, of the spans, their events and links, and of the
  -- rows of a table.
  pub process_result-scrub :
      (r : QueryResult)
      → (process_result cfg r).0 ≡ none
      → attr_lists (process_result cfg r).1.payload ≡ map (scrub cfg) (attr_lists r.payload)
  process_result-scrub r h = payload-scrub r r.payload h

  -- What may be left of a list: no dropped key, and the mask in place of each masked value.
  abbrev pub Clean : Attrs → Type 0
  Clean kvs =
      (k : String)
      → (contains cfg.drop_labels k ≡ true → attr_get k kvs ≡ none)
        × (contains cfg.mask_labels k ≡ true
            → (attr_get k kvs ≡ none) ⊎ (attr_get k kvs ≡ some (text cfg.mask_with)))

  scrub-Clean : (kvs : Attrs) → DistinctKeys kvs → Clean (scrub cfg kvs)
  scrub-Clean kvs d k = (
    λ h. ground (arith, attr_get-scrub cfg k kvs d),
    λ h. ground (arith, attr_get-scrub cfg k kvs d),
  )

  All-Clean : (ls : List Attrs) → All DistinctKeys ls → All Clean (map (scrub cfg) ls)
  All-Clean [] d = tt
  All-Clean (kvs ∷ ls) d = (scrub-Clean kvs d.0, All-Clean ls d.1)

  -- If a result passes in whose attribute lists no key stands twice, then none of the lists that it
  -- leaves has a dropped key, and a masked key is absent or has the mask for its value.
  pub process_result-Clean :
      (r : QueryResult)
      → All DistinctKeys (attr_lists r.payload)
      → (process_result cfg r).0 ≡ none
      → All Clean (attr_lists (process_result cfg r).1.payload)
  process_result-Clean r d h =
      subst (All Clean) (sym (process_result-scrub r h)) (All-Clean (attr_lists r.payload) d)

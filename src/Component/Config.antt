-- ===== src/Component/Config.antt =====
-- querier/config.go: the check of the configured pipelines. The configuration is taken as decoded.
use opentelemetry_querier.Base.{
  String, Option, none, some, List, [], ◌∷◌, ◌==◌, length, is_nil, str_eq, if◌then◌else◌, ◌≡◌, ◌≢◌,
  ◌↔◌, All, refl, arith,
}
use opentelemetry_querier.Base.Assoc.{Assoc}
use opentelemetry_querier.Qerror.{Error, plain, wrapped, Outcome, ok, err, ◌>>=◌}
use opentelemetry_querier.Golib.{Unicode}
use opentelemetry_querier.Qdata.Plan.{
  Signal, signal_metrics, signal_logs, signal_spans, signal_profiles,
}
use opentelemetry_querier.Component.{ComponentId, parse_id}

-- `PipelineConfig`
pub record PipelineConfig : Type 0 where
  pub acceptors : List String
  pub processors : List String
  pub dispatchers : List String

-- the table in `pipelineSignal`
unfoldable pub signal_of_type : String → Option Signal
signal_of_type t =
    if str_eq t "metrics"
    then some signal_metrics
    else if str_eq t "logs"
    then some signal_logs
    else if str_eq t "traces"
    then some signal_spans
    else if str_eq t "profiles"
    then some signal_profiles
    else none

abbrev signal_or_error : Option Signal → Outcome Signal
signal_or_error (some s) = ok s
signal_or_error none = err (
    wrapped "%w: %q (want metrics/logs/traces/profiles)"
      (plain "querier: pipeline id type must name a signal"))

-- `parseID`
unfoldable pub parse_pipeline_id : Unicode → String → Outcome ComponentId
unfolding parse_id
parse_pipeline_id u raw = elim (parse_id u raw) [
  | ok id ↦ ok id
  | err e ↦ err (wrapped "querier: %w" e)
]

-- `pipelineSignal`
unfoldable pub pipeline_signal : Unicode → String → Outcome Signal
unfolding parse_pipeline_id signal_of_type
pipeline_signal u raw = do id ← parse_pipeline_id u raw; signal_or_error (signal_of_type id.typ)

-- the round of the loop in `Config.validate`, from the signal of the id and the lists
unfoldable pub check_lists : Outcome Signal → List String → List String → Option Error
check_lists (err e) acceptors dispatchers = some e
check_lists (ok s) acceptors dispatchers =
    if is_nil acceptors
    then some (wrapped "%w: %q" (plain "querier: pipeline has no acceptors"))
    else if length dispatchers == 1
    then none
    else some (wrapped "%w: %q" (plain "querier: pipeline must list exactly one dispatcher"))

unfoldable pub check_pipeline : Unicode → String → PipelineConfig → Option Error
unfolding pipeline_signal check_lists
check_pipeline u name pipe = check_lists (pipeline_signal u name) pipe.acceptors pipe.dispatchers

-- the loop
unfoldable pub check_pipelines : Unicode → Assoc PipelineConfig → Option Error
unfolding check_pipeline
check_pipelines u [] = none
check_pipelines u ((name, pipe) ∷ pipes) =
    let rest = check_pipelines u pipes in
    elim (check_pipeline u name pipe) [ some e ↦ some e | none ↦ rest ]

-- `Config.validate`, of the pipelines of the service
unfoldable pub validate_config : Unicode → Assoc PipelineConfig → Option Error
unfolding check_pipelines
validate_config u [] = some (plain "querier: service.pipelines is empty")
validate_config u (p ∷ pipes) = check_pipelines u (p ∷ pipes)

-- A pipeline that can run: its id names a signal, and it has an acceptor and one dispatcher.
abbrev pub Runnable : Unicode → String × PipelineConfig → Type 0
Runnable u (name, pipe) =
    ((s : Signal) × (pipeline_signal u name ≡ ok s))
    × (pipe.acceptors ≢ [])
    × ((d : String) × (pipe.dispatchers ≡ d ∷ []))

abbrev Complete : Outcome Signal → List String → List String → Type 0
Complete signal acceptors dispatchers =
    ((s : Signal) × (signal ≡ ok s)) × (acceptors ≢ []) × ((d : String) × (dispatchers ≡ d ∷ []))

check_lists-Complete :
    (signal : Outcome Signal) (acceptors dispatchers : List String)
    → check_lists signal acceptors dispatchers ≡ none
    → Complete signal acceptors dispatchers
unfolding check_lists
check_lists-Complete (err e) as' ds h = cc
check_lists-Complete (ok s) [] ds h = cc
check_lists-Complete (ok s) (a ∷ as') [] h = cc
check_lists-Complete (ok s) (a ∷ as') (d ∷ []) h = ((s, refl), λ e. cc, (d, refl))
check_lists-Complete (ok s) (a ∷ as') (d ∷ d' ∷ ds) h = absurd (ground arith)

Complete-check_lists :
    (signal : Outcome Signal) (acceptors dispatchers : List String)
    → Complete signal acceptors dispatchers
    → check_lists signal acceptors dispatchers ≡ none
unfolding check_lists
Complete-check_lists signal [] ds (s, a, d) = absurd (a refl)
Complete-check_lists signal (a ∷ as') ds ((s, es), na, (d, ed)) = rw es (rw ed refl)

check_pipelines-Runnable :
    (u : Unicode) (pipes : Assoc PipelineConfig)
    → check_pipelines u pipes ≡ none
    → All (Runnable u) pipes
unfolding check_pipelines check_pipeline
check_pipelines-Runnable u [] h = tt
check_pipelines-Runnable u ((name, pipe) ∷ pipes) h = (
  check_lists-Complete (pipeline_signal u name) pipe.acceptors pipe.dispatchers (ground arith),
  check_pipelines-Runnable u pipes (ground arith),
)

Runnable-check_pipelines :
    (u : Unicode) (pipes : Assoc PipelineConfig)
    → All (Runnable u) pipes
    → check_pipelines u pipes ≡ none
unfolding check_pipelines check_pipeline
Runnable-check_pipelines u [] h = refl
Runnable-check_pipelines u ((name, pipe) ∷ pipes) (r, rs) =
    rw
      (
        Complete-check_lists (pipeline_signal u name) pipe.acceptors pipe.dispatchers r,
        check_pipelines,
      )
      (Runnable-check_pipelines u pipes rs)

-- The configuration is accepted exactly if it has a pipeline and every pipeline can run, in whichever
-- order the map is visited.
pub validate_config-Runnable :
    (u : Unicode) (pipes : Assoc PipelineConfig)
    → (validate_config u pipes ≡ none) ↔ ((pipes ≢ []) × All (Runnable u) pipes)
unfolding validate_config
validate_config-Runnable u [] = (λ h. cc, λ (h, a). absurd (h refl))
validate_config-Runnable u (p ∷ pipes) = (
  λ h. (λ e. cc, check_pipelines-Runnable u (p ∷ pipes) h),
  λ (h, a). Runnable-check_pipelines u (p ∷ pipes) a,
)

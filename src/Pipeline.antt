-- ===== src/Pipeline.antt =====
-- pipeline/pipeline.go: a chain of processors that ends in a dispatcher. `W` is the state that the
-- processors and the dispatcher keep between queries.
pub mod Order
pub mod Checks
pub mod Runs
use opentelemetry_querier.Base.{
  ℕ, String, Bool, true, false, ◌&&◌, Option, none, some, List, [], ◌∷◌, ◌++◌, ◌==◌, if◌then◌else◌,
}
use mathlib.Core.List.{reverse}
use opentelemetry_querier.Qerror.{Error, Outcome, ok, err, coded, wrapped, invalid_argument}
use opentelemetry_querier.Qdata.Plan.{QueryPlan, PlanError, validate_plan, signal_unspecified}
use opentelemetry_querier.Qdata.Query.{Query, sync_plan_signals}
use opentelemetry_querier.Qdata.Result.{QueryResult, Payload, table}
use opentelemetry_querier.Processor.{Processor}

-- `dispatcher.Dispatcher`. One that reports no error returns a result.
pub record Dispatcher (W : Type 0) : Type 0 where
  pub start : W → Option Error × W
  pub shutdown : W → Option Error × W
  pub dispatch : W → Query → Outcome QueryResult × W × Query

pub record Pipeline (W : Type 0) : Type 0 where
  pub name : String
  pub processors : List (Processor W)
  pub dispatcher : Dispatcher W

abbrev pub in_pipeline : Error → Error
in_pipeline e = wrapped "pipeline %q: %w" e

-- `validatePlan`
unfoldable pub check_plan : Query → Option Error
check_plan q = elim q.plan [
  | none ↦ none
  | some plan ↦ elim (validate_plan plan) [
    | none ↦ none
    | some e ↦ some (coded invalid_argument "pipeline %q: invalid query plan: %v")
  ]
]

abbrev pub is_table : Payload → Bool
is_table (table t) = true
is_table _ = false

-- The signal of a result that has none is the query's, unless the result is a table.
unfoldable pub backfill : Query → QueryResult → QueryResult
backfill q r =
    if r.signal == signal_unspecified
    then (if is_table r.payload then r else record r { signal = q.signal })
    else r

module _ {W : Type 0} where
  -- the request path: the processors in order, up to the first error
  unfoldable pub request : List (Processor W) → W → Query → Option Error × W × Query
  request [] w q = (none, w, q)
  request (p ∷ ps) w q =
      let (e, w', q') = p.process_query w q in
      elim e [ some e' ↦ (some (in_pipeline e'), w', q') | none ↦ request ps w' q' ]

  -- the response path, over the processors in the order in which they are asked
  unfoldable pub respond : List (Processor W) → W → Query → QueryResult → Outcome QueryResult × W
  respond [] w q r = (ok r, w)
  respond (p ∷ ps) w q r =
      let (e, w', q', r') = p.process_result w q r in
      elim e [ some e' ↦ (err (in_pipeline e'), w') | none ↦ respond ps w' q' r' ]

  -- the part of `Handle` behind the dispatcher
  unfoldable pub answer : Pipeline W → Outcome QueryResult → W → Query → Outcome QueryResult × W
  unfolding respond backfill
  answer p (err e) w q = (err (in_pipeline e), w)
  answer p (ok r) w q = respond (reverse p.processors) w q (backfill q r)

  -- the part of `Handle` behind the request path
  unfoldable pub forward : Pipeline W → Option Error → W → Query → Outcome QueryResult × W
  unfolding answer
  forward p (some e) w q = (err e, w)
  forward p none w q = let (result, w', q') = p.dispatcher.dispatch w q in answer p result w' q'

  -- `Handle`
  unfoldable pub handle : Pipeline W → W → Query → Outcome QueryResult × W
  unfolding check_plan request forward
  handle p w q = elim (check_plan q) [
    | some e ↦ (err e, w)
    | none ↦ let (e, w', q') = request p.processors w (sync_plan_signals q) in forward p e w' q'
  ]

  start_processors : List (Processor W) → W → Option Error × W
  start_processors [] w = (none, w)
  start_processors (p ∷ ps) w =
      let (e, w') = p.start w in
      elim e [
        | some e' ↦ (some (wrapped "pipeline %q: start processor: %w" e'), w')
        | none ↦ start_processors ps w'
      ]

  -- `Start`: the dispatcher, then the processors from the last to the first
  unfoldable pub start : Pipeline W → W → Option Error × W
  unfolding start_processors
  start p w =
      let (e, w') = p.dispatcher.start w in
      elim e [
        | some e' ↦ (some (wrapped "pipeline %q: start dispatcher: %w" e'), w')
        | none ↦ start_processors (reverse p.processors) w'
      ]

  -- the loop of `Shutdown`, which drops the errors
  shutdown_processors : List (Processor W) → W → W
  shutdown_processors [] w = w
  shutdown_processors (p ∷ ps) w = shutdown_processors ps (p.shutdown w).1

  -- `Shutdown`
  unfoldable pub shutdown : Pipeline W → W → Option Error × W
  unfolding shutdown_processors
  shutdown p w =
      let (e, w') = p.dispatcher.shutdown (shutdown_processors p.processors w) in
      elim e [
        | some e' ↦ (some (wrapped "pipeline %q: shutdown dispatcher: %w" e'), w')
        | none ↦ (none, w')
      ]

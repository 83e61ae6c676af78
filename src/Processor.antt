-- ===== src/Processor.antt =====
-- processor/processor.go: what a pipeline asks of a processor, and its processors, one child for
-- each. `W` is the state that processors and dispatchers keep between queries.
pub mod Header
pub mod Tenant
pub mod SimpleAuthz
pub mod QueryRewrite
pub mod ResponseFilter
pub mod RateLimit
use opentelemetry_querier.Base.{Option, none, some}
use opentelemetry_querier.Qerror.{Error}
use opentelemetry_querier.Qdata.Query.{Query}
use opentelemetry_querier.Qdata.Result.{QueryResult}

-- What a method on a query returns: its error, if any, and the query as it left it.
abbrev pub Verdict : Type 0
Verdict = Option Error × Query

-- `Processor`; each method returns its error and the values as it left them.
pub record Processor (W : Type 0) : Type 0 where
  pub start : W → Option Error × W
  pub shutdown : W → Option Error × W
  pub process_query : W → Query → Option Error × W × Query
  pub process_result : W → Query → QueryResult → Option Error × W × Query × QueryResult

module _ {W : Type 0} where
  -- `Base.Start` and `Base.Shutdown`
  unfoldable pub base_lifecycle : W → Option Error × W
  base_lifecycle w = (none, w)

  -- `Base.ProcessQuery`
  unfoldable pub base_process_query : W → Query → Option Error × W × Query
  base_process_query w q = (none, w, q)

  -- `Base.ProcessResult`
  unfoldable pub base_process_result :
      W → Query → QueryResult → Option Error × W × Query × QueryResult
  base_process_result w q r = (none, w, q, r)

  -- A processor that overrides `ProcessQuery` alone and keeps no state.
  unfoldable pub on_query : (Query → Verdict) → Processor W
  unfolding base_lifecycle base_process_result
  on_query f = record {
    start = base_lifecycle;
    shutdown = base_lifecycle;
    process_query = λ w q. let (e, q') = f q in (e, w, q');
    process_result = base_process_result;
  }

  -- A processor that overrides `ProcessResult` alone and keeps no state.
  unfoldable pub on_result : (QueryResult → Option Error × QueryResult) → Processor W
  unfolding base_lifecycle base_process_query
  on_result f = record {
    start = base_lifecycle;
    shutdown = base_lifecycle;
    process_query = base_process_query;
    process_result = λ w q r. let (e, r') = f r in (e, w, q, r');
  }

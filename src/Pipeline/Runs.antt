-- ===== src/Pipeline/Runs.antt =====
-- The runs of a pipeline as relations on its state, which name no function of pipeline/pipeline.go
-- but those of the processors and the dispatcher.
use opentelemetry_querier.Base.{
  none, some, Option, List, [], ◌∷◌, ◌≡◌, ◌↔◌, refl, ap, ◌∙◌, sym, Option-cases, inl, inr,
}
use mathlib.Core.List.{reverse}
use mathlib.Core.Path.{subst}
use opentelemetry_querier.Qerror.{Error, Outcome, ok, err, coded, wrapped, invalid_argument}
use opentelemetry_querier.Qdata.Query.{Query, sync_plan_signals}
use opentelemetry_querier.Qdata.Result.{QueryResult}
use opentelemetry_querier.Processor.{Processor}
use opentelemetry_querier.Pipeline.Checks.{
  IsAdmissible, IsMalformed, check_plan-cases, admissible_passes, malformed_fails, Backfilled,
  backfill-Backfilled, Backfilled-backfill,
}
use opentelemetry_querier.Pipeline.{
  Pipeline, backfill, request, respond, answer, forward, handle, in_pipeline,
}

module _ {W : Type 0} where
  -- The processors of a list take a query in order, and each of them passes it, or one refuses it
  -- with a cause and the ones behind it are not asked.
  pub data Asked : List (Processor W) → W → Query → Option Error → W → Query → Type 0 where
    finished :
        {w w' : W} {q q' : Query} {e : Option Error}
        → ◌≡◌ {A = Option Error × W × Query} (none, w, q) (e, w', q')
        → Asked [] w q e w' q'
    refused :
        {p : Processor W} {ps : List (Processor W)} {w w' : W} {q q' : Query} {e : Option Error}
        → (cause : Error) → p.process_query w q ≡ (some cause, w', q')
        → e ≡ some (wrapped "pipeline %q: %w" cause)
        → Asked (p ∷ ps) w q e w' q'
    passed :
        {p : Processor W} {ps : List (Processor W)} {w w' : W} {q q' : Query} {e : Option Error}
        → (w1 : W) (q1 : Query) → p.process_query w q ≡ (none, w1, q1)
        → Asked ps w1 q1 e w' q'
        → Asked (p ∷ ps) w q e w' q'

  -- The processors of a list take a result in order, each what the one before it left, up to the
  -- first that fails.
  pub data Answered
      : List (Processor W) → W → Query → QueryResult → Outcome QueryResult → W → Type 0 where
    finished :
        {w w' : W} {q : Query} {r : QueryResult} {o : Outcome QueryResult}
        → ◌≡◌ {A = Outcome QueryResult × W} (ok r, w) (o, w')
        → Answered [] w q r o w'
    refused :
        {p : Processor W} {ps : List (Processor W)} {w w' : W} {q : Query} {r : QueryResult}
        {o : Outcome QueryResult}
        → (cause : Error) (q' : Query) (r' : QueryResult)
        → p.process_result w q r ≡ (some cause, w', q', r')
        → o ≡ err (wrapped "pipeline %q: %w" cause)
        → Answered (p ∷ ps) w q r o w'
    passed :
        {p : Processor W} {ps : List (Processor W)} {w w' : W} {q : Query} {r : QueryResult}
        {o : Outcome QueryResult}
        → (w1 : W) (q1 : Query) (r1 : QueryResult) → p.process_result w q r ≡ (none, w1, q1, r1)
        → Answered ps w1 q1 r1 o w'
        → Answered (p ∷ ps) w q r o w'

  request-Asked :
      (ps : List (Processor W)) (w : W) (q : Query)
      → Asked ps w q (request ps w q).0 (request ps w q).1 (request ps w q).2
  unfolding request
  request-Asked [] w q = finished refl
  request-Asked (p ∷ ps) w q = elim (Option-cases (p.process_query w q).0) [
    | inl e ↦
        rw (e, request)
          (passed (p.process_query w q).1 (p.process_query w q).2
            (ap (λ o. (o, (p.process_query w q).1, (p.process_query w q).2)) e)
            (request-Asked ps (p.process_query w q).1 (p.process_query w q).2))
    | inr (cause, e) ↦
        rw (e, request)
          (refused cause (ap (λ o. (o, (p.process_query w q).1, (p.process_query w q).2)) e) refl)
  ]

  Asked-request :
      {ps : List (Processor W)} {w w' : W} {q q' : Query} {e : Option Error}
      → Asked ps w q e w' q'
      → request ps w q ≡ (e, w', q')
  unfolding request
  Asked-request (finished h) = h
  Asked-request {w' = w'} {q' = q'} (refused cause h k) =
      rw (h, request)
        (ap (λ (v : Option Error × W × Query). (some (in_pipeline cause), v.1, v.2)) h
          ∙ ap (λ o. (o, w', q')) (sym k))
  Asked-request {ps = _ ∷ ps} (passed w1 q1 h a) =
      rw (h, request)
        (ap (λ (v : Option Error × W × Query). request ps v.1 v.2) h ∙ Asked-request a)

  respond-Answered :
      (ps : List (Processor W)) (w : W) (q : Query) (r : QueryResult)
      → Answered ps w q r (respond ps w q r).0 (respond ps w q r).1
  unfolding respond
  respond-Answered [] w q r = finished refl
  respond-Answered (p ∷ ps) w q r =
      let (e', w1, q1, r1) = p.process_result w q r in
      elim (Option-cases (p.process_result w q r).0) [
        | inl e ↦
            rw (e, respond)
              (passed w1 q1 r1 (ap (λ o. (o, w1, q1, r1)) e) (respond-Answered ps w1 q1 r1))
        | inr (cause, e) ↦ rw (e, respond) (refused cause q1 r1 (ap (λ o. (o, w1, q1, r1)) e) refl)
      ]

  Answered-respond :
      {ps : List (Processor W)} {w w' : W} {q : Query} {r : QueryResult} {o : Outcome QueryResult}
      → Answered ps w q r o w'
      → respond ps w q r ≡ (o, w')
  unfolding respond
  Answered-respond (finished h) = h
  Answered-respond {w' = w'} (refused cause q' r' h k) =
      rw (h, respond)
        (ap {B = Outcome QueryResult × W}
            (λ (v : Option Error × W × Query × QueryResult). (err (in_pipeline cause), v.1)) h
          ∙ ap (λ o. (o, w')) (sym k))
  Answered-respond {ps = _ ∷ ps} (passed w1 q1 r1 h a) =
      rw (h, respond)
        (ap (λ (v : Option Error × W × Query × QueryResult). respond ps v.1 v.2 v.3) h
          ∙ Answered-respond a)

  -- How a pipeline answers a query, and the state in which it is left.
  pub data Handled (p : Pipeline W) (w : W) (q : Query) (o : Outcome QueryResult) (w' : W)
      : Type 0 where
    malformed :
        IsMalformed q
        → o ≡ err (coded invalid_argument "pipeline %q: invalid query plan: %v")
        → w' ≡ w
        → Handled p w q o w'
    refused :
        (e : Error) (q' : Query)
        → IsAdmissible q
        → Asked p.processors w (sync_plan_signals q) (some e) w' q'
        → o ≡ err e
        → Handled p w q o w'
    failed :
        (w1 : W) (q1 q2 : Query) (cause : Error)
        → IsAdmissible q
        → Asked p.processors w (sync_plan_signals q) none w1 q1
        → p.dispatcher.dispatch w1 q1 ≡ (err cause, w', q2)
        → o ≡ err (wrapped "pipeline %q: %w" cause)
        → Handled p w q o w'
    answered :
        (w1 w2 : W) (q1 q2 : Query) (r r' : QueryResult)
        → IsAdmissible q
        → Asked p.processors w (sync_plan_signals q) none w1 q1
        → p.dispatcher.dispatch w1 q1 ≡ (ok r, w2, q2)
        → Backfilled q2 r r'
        → Answered (reverse p.processors) w2 q2 r' o w'
        → Handled p w q o w'

  -- An admissible query is handled by what follows the request path.
  handle-Asked :
      (p : Pipeline W) (w w1 : W) (q q1 : Query) (e : Option Error)
      → IsAdmissible q
      → Asked p.processors w (sync_plan_signals q) e w1 q1
      → handle p w q ≡ forward p e w1 q1
  unfolding handle
  handle-Asked p w w1 q q1 e a run =
      rw (admissible_passes q a, handle)
        (ap (λ (v : Option Error × W × Query). forward p v.0 v.1 v.2) (Asked-request run))

  -- The relation determines the answer of a pipeline and the state in which it is left.
  Handled-handle :
      (p : Pipeline W) (w w' : W) (q : Query) (o : Outcome QueryResult)
      → Handled p w q o w'
      → handle p w q ≡ (o, w')
  unfolding handle forward answer
  Handled-handle p w w' q o (malformed m e k) = rw (malformed_fails q m, handle) (cc (e, k))
  Handled-handle p w w' q o (refused e q' a run k) =
      handle-Asked p w w' q q' (some e) a run ∙ ap (λ x. (x, w')) (sym k)
  Handled-handle p w w' q o (failed w1 q1 q2 cause a run sent k) =
      handle-Asked p w w1 q q1 none a run
      ∙ ap (λ (v : Outcome QueryResult × W × Query). answer p v.0 v.1 v.2) sent
      ∙ ap (λ x. (x, w')) (sym k)
  Handled-handle p w w' q o (answered w1 w2 q1 q2 r r' a run sent filled back) =
      handle-Asked p w w1 q q1 none a run
      ∙ ap (λ (v : Outcome QueryResult × W × Query). answer p v.0 v.1 v.2) sent
      ∙ ap (respond (reverse p.processors) w2 q2) (sym (Backfilled-backfill q2 r r' filled))
      ∙ Answered-respond back

  answer-Handled :
      (p : Pipeline W) (w w1 : W) (q q1 : Query) (v : Outcome QueryResult × W × Query)
      → IsAdmissible q
      → Asked p.processors w (sync_plan_signals q) none w1 q1
      → p.dispatcher.dispatch w1 q1 ≡ v
      → Handled p w q (answer p v.0 v.1 v.2).0 (answer p v.0 v.1 v.2).1
  unfolding answer
  answer-Handled p w w1 q q1 (err cause, w2, q2) a run sent = failed w1 q1 q2 cause a run sent refl
  answer-Handled p w w1 q q1 (ok r, w2, q2) a run sent =
      answered w1 w2 q1 q2 r (backfill q2 r) a run sent (backfill-Backfilled q2 r)
        (respond-Answered (reverse p.processors) w2 q2 (backfill q2 r))

  forward-Handled :
      (p : Pipeline W) (w w1 : W) (q q1 : Query) (e : Option Error)
      → IsAdmissible q
      → Asked p.processors w (sync_plan_signals q) e w1 q1
      → Handled p w q (forward p e w1 q1).0 (forward p e w1 q1).1
  unfolding forward
  forward-Handled p w w1 q q1 none a run =
      answer-Handled p w w1 q q1 (p.dispatcher.dispatch w1 q1) a run refl
  forward-Handled p w w1 q q1 (some e) a run = refused e q1 a run refl

  handle-runs :
      (p : Pipeline W) (w : W) (q : Query) → Handled p w q (handle p w q).0 (handle p w q).1
  unfolding handle
  handle-runs p w q = elim (check_plan-cases q) [
    | inl (a, e) ↦
        let run = request-Asked p.processors w (sync_plan_signals q) in
        rw (e, handle) (forward-Handled p w _ q _ _ a run)
    | inr (m, e) ↦ rw (e, handle) (malformed m refl refl)
  ]

  -- A pipeline answers a query with an outcome and is left in a state exactly if one of these is so:
  -- the plan is malformed, the outcome is an invalid argument, and the state is the old one; the plan
  -- is absent or well formed and the first processor that refuses has stopped the run, with its
  -- error, wrapped, for the outcome; all processors have passed the query and the dispatcher has
  -- failed, with its error, wrapped, for the outcome; or the result of the dispatcher, with the
  -- signal filled in, has gone back through the processors from the last to the first, and the
  -- outcome is the error of the first that fails, wrapped, or the result that they leave.
  pub handle-Handled :
      (p : Pipeline W) (w w' : W) (q : Query) (o : Outcome QueryResult)
      → (handle p w q ≡ (o, w')) ↔ Handled p w q o w'
  handle-Handled p w w' q o =
      (λ h. subst (λ v. Handled p w q v.0 v.1) h (handle-runs p w q), Handled-handle p w w' q o)

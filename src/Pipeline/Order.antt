-- ===== src/Pipeline/Order.antt =====
-- The order in which a pipeline calls its parts: each part is wrapped to note its calls in a log.
use opentelemetry_querier.Base.{
  String, Bool, true, false, Option, none, some, List, [], ◌∷◌, ◌++◌, map, ◌≡◌, ◌∙◌, sym, ap, refl,
  append-nil, append_assoc, Option-cases, inl, inr,
}
use mathlib.Core.List.{reverse, map-append, reverse-append}
use opentelemetry_querier.Qerror.{Error, Outcome, ok, err}
use opentelemetry_querier.Qdata.Query.{Query, sync_plan_signals}
use opentelemetry_querier.Qdata.Result.{QueryResult}
use opentelemetry_querier.Processor.{Processor}
use opentelemetry_querier.Pipeline.{
  Dispatcher, Pipeline, check_plan, backfill, request, respond, answer, forward, handle,
}

pub data Event : Type 0 where
  asked : String → Event
  dispatched : Event
  answered : String → Event

-- The calls added to a log are the first ones of `full`, and all of them if the run succeeded.
abbrev pub Performed : List Event → List Event → List Event → Bool → Type 0
Performed full log log' good =
    (done : List Event) × (rest : List Event) × (log' ≡ log ++ done)
    × (full ≡ done ++ rest)
    × (good ≡ true → rest ≡ [])

abbrev pub is_ok {ℓ} : {A : Type ℓ} → Outcome A → Bool
is_ok (ok a) = true
is_ok (err e) = false

abbrev pub is_none {ℓ} : {A : Type ℓ} → Option A → Bool
is_none none = true
is_none (some a) = false

-- A step that was performed, and a part of what comes after it.
extend :
    (first later log log1 log2 : List Event) (good : Bool)
    → log1 ≡ log ++ first
    → Performed later log1 log2 good
    → Performed (first ++ later) log log2 good
extend first later log log1 log2 good e (done, rest, run, order, complete) = (
  first ++ done,
  rest,
  run ∙ ap (λ l. l ++ done) e ∙ append_assoc log first done,
  ap (λ l. first ++ l) order ∙ sym (append_assoc first done rest),
  complete,
)

module _ {W : Type 0} where
  -- A processor that notes its calls under a name.
  abbrev pub logged : String × Processor W → Processor (List Event × W)
  logged (name, p) = record {
    start = λ s. let (e, w) = p.start s.1 in (e, (s.0, w));
    shutdown = λ s. let (e, w) = p.shutdown s.1 in (e, (s.0, w));
    process_query =
        λ s q. let (e, w, q') = p.process_query s.1 q in (e, (s.0 ++ asked name ∷ [], w), q');
    process_result = λ s q r.
        let (e, w, q', r') = p.process_result s.1 q r in
        (e, (s.0 ++ answered name ∷ [], w), q', r');
  }

  abbrev pub logged_dispatcher : Dispatcher W → Dispatcher (List Event × W)
  logged_dispatcher d = record {
    start = λ s. let (e, w) = d.start s.1 in (e, (s.0, w));
    shutdown = λ s. let (e, w) = d.shutdown s.1 in (e, (s.0, w));
    dispatch = λ s q. let (r, w, q') = d.dispatch s.1 q in (r, (s.0 ++ dispatched ∷ [], w), q');
  }

  abbrev pub logged_pipeline :
      String → List (String × Processor W) → Dispatcher W → Pipeline (List Event × W)
  logged_pipeline name ps d = record {
    name = name;
    processors = map logged ps;
    dispatcher = logged_dispatcher d;
  }

  abbrev pub names : List (String × Processor W) → List String
  names = map (λ p. p.0)

  -- The order of a run that succeeds: the processors in order, the dispatcher, the processors in
  -- reverse.
  abbrev pub full_order : List (String × Processor W) → List Event
  full_order ps = map asked (names ps) ++ dispatched ∷ map answered (names (reverse ps))

  request-order :
      (ps : List (String × Processor W)) (log : List Event) (w : W) (q : Query)
      → Performed
          (map asked (names ps))
          log
          (request (map logged ps) (log, w) q).1.0
          (is_none (request (map logged ps) (log, w) q).0)
  unfolding request
  request-order [] log w q = ([], [], sym (append-nil log), refl, λ _. refl)
  request-order ((name, p) ∷ ps) log w q = elim (Option-cases (p.process_query w q).0) [
    | inl h ↦
        let (done, rest, run, order, complete) =
          request-order ps (log ++ asked name ∷ []) (p.process_query w q).1
            (p.process_query w q).2 in
        (
          asked name ∷ done,
          rest,
          rw (h, request) (run ∙ append_assoc log (asked name ∷ []) done),
          ap (◌∷◌ (asked name)) order,
          λ x. complete (rw (h, request, is_none) at x),
        )
    | inr (e, h) ↦ (
      asked name ∷ [],
      map asked (names ps),
      rw (h, request) refl,
      refl,
      λ x. cc (rw (h, request, is_none) at x),
    )
  ]

  respond-order :
      (ps : List (String × Processor W)) (log : List Event) (w : W) (q : Query) (r : QueryResult)
      → Performed
          (map answered (names ps))
          log
          (respond (map logged ps) (log, w) q r).1.0
          (is_ok (respond (map logged ps) (log, w) q r).0)
  unfolding respond
  respond-order [] log w q r = ([], [], sym (append-nil log), refl, λ _. refl)
  respond-order ((name, p) ∷ ps) log w q r = elim (Option-cases (p.process_result w q r).0) [
    | inl h ↦
        let (done, rest, run, order, complete) =
          respond-order ps (log ++ answered name ∷ []) (p.process_result w q r).1
            (p.process_result w q r).2 (p.process_result w q r).3 in
        (
          answered name ∷ done,
          rest,
          rw (h, respond) (run ∙ append_assoc log (answered name ∷ []) done),
          ap (◌∷◌ (answered name)) order,
          λ x. complete (rw (h, respond, is_ok) at x),
        )
    | inr (e, h) ↦ (
      answered name ∷ [],
      map answered (names ps),
      rw (h, respond) refl,
      refl,
      λ x. cc (rw (h, respond, is_ok) at x),
    )
  ]

  reverse-map :
      (ps : List (String × Processor W)) → reverse (map logged ps) ≡ map logged (reverse ps)
  reverse-map [] = refl
  reverse-map (p ∷ ps) =
      reverse-append (logged p ∷ []) (map logged ps)
      ∙ ap (λ l. l ++ logged p ∷ []) (reverse-map ps)
      ∙ sym (map-append logged (reverse ps) (p ∷ []))
      ∙ ap (map logged) (sym (reverse-append (p ∷ []) ps))

  module _ (name : String) (ps : List (String × Processor W)) (d : Dispatcher W) where
    abbrev pipe : Pipeline (List Event × W)
    pipe = logged_pipeline name ps d

    answer-order :
        (result : Outcome QueryResult) (log : List Event) (w : W) (q : Query)
        → Performed
            (map answered (names (reverse ps)))
            log
            (answer pipe result (log, w) q).1.0
            (is_ok (answer pipe result (log, w) q).0)
    unfolding answer
    answer-order (err e) log w q =
        ([], map answered (names (reverse ps)), sym (append-nil log), refl, λ x. cc)
    answer-order (ok r) log w q =
        rw (reverse-map ps) (respond-order (reverse ps) log w q (backfill q r))

    forward-order :
        (log : List Event) (w : W) (q : Query)
        → Performed
            (dispatched ∷ map answered (names (reverse ps)))
            log
            (forward pipe none (log, w) q).1.0
            (is_ok (forward pipe none (log, w) q).0)
    unfolding forward
    forward-order log w q =
        extend (dispatched ∷ []) (map answered (names (reverse ps))) log (log ++ dispatched ∷ []) _
          _ refl
          (answer-order (d.dispatch w q).0 (log ++ dispatched ∷ []) (d.dispatch w q).1
            (d.dispatch w q).2)

    after_request :
        (e : Option Error) (log log' : List Event) (w : W) (q : Query)
        → Performed (map asked (names ps)) log log' (is_none e)
        → Performed
            (full_order ps)
            log
            (forward pipe e (log', w) q).1.0
            (is_ok (forward pipe e (log', w) q).0)
    unfolding forward
    after_request (some e) log log' w q (done, rest, run, order, complete) = (
      done,
      rest ++ dispatched ∷ map answered (names (reverse ps)),
      run,
      ap (λ l. l ++ dispatched ∷ map answered (names (reverse ps))) order
          ∙ append_assoc done rest (dispatched ∷ map answered (names (reverse ps))),
      λ x. cc,
    )
    after_request none log log' w q (done, rest, run, order, complete) =
        let all_asked : map asked (names ps) ≡ done =
          order ∙ ap (λ l. done ++ l) (complete refl) ∙ append-nil done in
        extend (map asked (names ps)) (dispatched ∷ map answered (names (reverse ps))) log log' _ _
          (run ∙ ap (λ l. log ++ l) (sym all_asked)) (forward-order log' w q)

    -- Every run calls the parts of the pipeline in the order: the processors in order, the
    -- dispatcher, the processors in reverse. It stops at some point of that order, and reaches the
    -- end if it succeeds.
    pub handle-order :
        (log : List Event) (w : W) (q : Query)
        → Performed
            (full_order ps)
            log
            (handle (logged_pipeline name ps d) (log, w) q).1.0
            (is_ok (handle (logged_pipeline name ps d) (log, w) q).0)
    unfolding handle
    handle-order log w q = elim (Option-cases (check_plan q)) [
      | inl h ↦
          rw (h, handle)
            (after_request (request (map logged ps) (log, w) (sync_plan_signals q)).0 log
              (request (map logged ps) (log, w) (sync_plan_signals q)).1.0
              (request (map logged ps) (log, w) (sync_plan_signals q)).1.1
              (request (map logged ps) (log, w) (sync_plan_signals q)).2
              (request-order ps log w (sync_plan_signals q)))
      | inr (e, h) ↦ (
        [],
        full_order ps,
        rw (h, handle) (sym (append-nil log)),
        refl,
        λ x. cc (rw (h, handle, is_ok) at x),
      )
    ]

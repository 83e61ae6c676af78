-- ===== src/Loki/Meaning.antt =====
-- What the selector that acceptor/lokiacceptor/logqlparse.go returns for a rendered one selects.
use opentelemetry_querier.Base.{
  String, Bool, true, ◌&&◌, some, List, [], ◌∷◌, map, all, ◌≡◌, refl, ap, sym, ◌∙◌, arith,
  Option-cases, inl, inr,
}
use opentelemetry_querier.Qerror.{ok}
use opentelemetry_querier.Golib.{Strconv, Unicode}
use opentelemetry_querier.Golib.Literals.{StrconvLaws, UnicodeLaws}
use opentelemetry_querier.Qdata.Predicate.{
  LabelMatcher, Predicate, leaf_predicate, flatten_conjunction,
}
use opentelemetry_querier.Qdata.Predicate.Meaning.{
  meaning, meaning-conj, flatten_conjunction-meaning,
}
use opentelemetry_querier.Qdata.Plan.{
  Select, Node, select, time_agg, aggregate, nil, empty, function, binary, literal, QueryPlan,
  plan_of, Signal, LineMatch,
}
use opentelemetry_querier.Qdata.Signals.{selects}
use opentelemetry_querier.Loki.Parse.{filter_of}
use opentelemetry_querier.Loki.Matchers.{sort_matchers, all-sort_matchers}
use opentelemetry_querier.Loki.Canonical.{ordered_select, ordered_filter, canonical, is_logql}
use opentelemetry_querier.Loki.Parse.{parse_logql}
use opentelemetry_querier.Loki.Scan as Scan
use opentelemetry_querier.Loki.Render.{plan_to_logql}
use opentelemetry_querier.Loki.RoundTrip.{parse_logql-plan_to_logql}

filter_of-meaning :
    (sat : LabelMatcher → Bool) (p : Predicate) (ps : List Predicate)
    → meaning sat (filter_of p ps) ≡ all (meaning sat) (p ∷ ps)
unfolding filter_of
filter_of-meaning sat p [] = ground arith
filter_of-meaning sat p (q ∷ ps) = meaning-conj sat (p ∷ q ∷ ps)

leaves-meaning :
    (sat : LabelMatcher → Bool) (ms : List LabelMatcher)
    → all (meaning sat) (map leaf_predicate ms) ≡ all sat ms
unfolding meaning leaf_predicate
leaves-meaning sat [] = refl
leaves-meaning sat (m ∷ ms) = ap (λ b. sat m && b) (leaves-meaning sat ms)

ordered_filter-meaning :
    (sat : LabelMatcher → Bool) (p : Predicate) (qs : List Predicate)
    → meaning sat p ≡ all (meaning sat) qs
    → meaning sat (ordered_filter p qs) ≡ meaning sat p
ordered_filter-meaning sat p [] h = refl
ordered_filter-meaning sat p (q ∷ qs) h = filter_of-meaning sat q qs ∙ sym h

some_filter :
    (lib : Strconv) (s : Select) (ms : List LabelMatcher)
    → flatten_conjunction (s.filter ∷ []) ≡ some ms
    → (ordered_select lib s).filter
      ≡ ordered_filter s.filter (map leaf_predicate (sort_matchers lib ms))
unfolding ordered_select
some_filter lib s ms h = rw (h, ordered_select) refl

-- The ordered selector selects what the selector does, whichever matchers a stream satisfies.
pub ordered_select-meaning :
    (lib : Strconv) (sat : LabelMatcher → Bool) (s : Select)
    → meaning sat (ordered_select lib s).filter ≡ meaning sat s.filter
unfolding ordered_select
ordered_select-meaning lib sat s = elim (Option-cases (flatten_conjunction (s.filter ∷ []))) [
  | inl e ↦ rw (e, ordered_select) refl
  | inr (ms, e) ↦
      (let flat : all (meaning sat) (s.filter ∷ []) ≡ all sat ms =
          flatten_conjunction-meaning sat (s.filter ∷ []) ms e in
        let sorted : all (meaning sat) (map leaf_predicate (sort_matchers lib ms)) ≡ all sat ms =
          leaves-meaning sat (sort_matchers lib ms) ∙ all-sort_matchers lib sat ms in
        let same : meaning sat s.filter
            ≡ all (meaning sat) (map leaf_predicate (sort_matchers lib ms)) =
          ground (arith, flat, sorted) in
        ap (meaning sat) (some_filter lib s ms e)
        ∙ ordered_filter-meaning sat s.filter (map leaf_predicate (sort_matchers lib ms)) same)
]

-- What a selector selects, where `sat` says which matchers a stream satisfies: its signal, its line
-- filters, and whether the stream is selected.
abbrev pub selected : (LabelMatcher → Bool) → Select → Signal × List LineMatch × Bool
selected sat s = (s.signal, s.line, meaning sat s.filter)

ordered_select-selected :
    (lib : Strconv) (sat : LabelMatcher → Bool) (s : Select)
    → selected sat (ordered_select lib s) ≡ selected sat s
unfolding ordered_select
ordered_select-selected lib sat s =
    ap (λ b. ((ordered_select lib s).signal, (ordered_select lib s).line, b))
      (ordered_select-meaning lib sat s)
    ∙ (elim (Option-cases (flatten_conjunction (s.filter ∷ []))) [
      | inl e ↦ rw (e, ordered_select) refl
      | inr (ms, e) ↦ rw (e, ordered_select) refl
    ])

canonical-selected :
    (lib : Strconv) (sat : LabelMatcher → Bool) (n : Node)
    → map (selected sat) (selects (canonical lib n)) ≡ map (selected sat) (selects n)
unfolding selects canonical
canonical-selected lib sat (select s) = ap (λ x. x ∷ []) (ordered_select-selected lib sat s)
canonical-selected lib sat (time_agg op w n) = canonical-selected lib sat n
canonical-selected lib sat (aggregate op by without param n) = canonical-selected lib sat n
canonical-selected lib sat nil = refl
canonical-selected lib sat empty = refl
canonical-selected lib sat (function name args strings) = refl
canonical-selected lib sat (binary op l r m) = refl
canonical-selected lib sat (literal v) = refl

-- If a plan in LogQL's fragment (`is_logql`) is rendered as LogQL text, then under the documented
-- laws of the packages strconv, time and unicode the parser of the acceptor returns for that text a
-- plan, and its Selects have, in order, the signals and the line filters of the Selects of the
-- plan that was rendered, and select the same streams, whichever matchers a stream satisfies.
pub parse_logql-selected :
    (lib : Strconv) (u : Unicode)
    → UnicodeLaws u
    → StrconvLaws lib
    → (plan : QueryPlan) (text : String) → is_logql lib plan.root ≡ true
    → plan_to_logql lib plan ≡ ok text
    → (plan' : QueryPlan) × (parse_logql lib u text ≡ Scan.ok plan')
      × ((sat : LabelMatcher → Bool)
          → map (selected sat) (selects plan'.root) ≡ map (selected sat) (selects plan.root))
parse_logql-selected lib u laws slaws plan text h e = (
  plan_of (canonical lib plan.root),
  parse_logql-plan_to_logql lib u laws slaws plan text h e,
  λ sat. unfold plan_of in canonical-selected lib sat plan.root,
)

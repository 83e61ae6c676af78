-- ===== src/Pipeline/Checks.antt =====
-- pipeline/pipeline.go: the guard on the plan and the signal of a result, without the tests of the
-- code.
use opentelemetry_querier.Base.{
  none, some, true, false, ◌≡◌, ◌≢◌, ◌⊎◌, ◌==◌, refl, ap, ◌∙◌, Option-cases, Bool-cases, inl, inr,
  arith,
}
use opentelemetry_querier.Qerror.{coded, invalid_argument}
use opentelemetry_querier.Qdata.Plan.{QueryPlan, validate_plan, signal_unspecified}
use opentelemetry_querier.Qdata.Plan.Shape.{WellFormedNode, validate_plan-WellFormed}
use opentelemetry_querier.Qdata.Query.{Query}
use opentelemetry_querier.Qdata.Result.{QueryResult, Payload, Table, table}
use opentelemetry_querier.Pipeline.{check_plan, backfill, is_table}

-- The query has no plan, or one that is well formed.
abbrev pub IsAdmissible : Query → Type 0
IsAdmissible q =
    (q.plan ≡ none) ⊎ ((plan : QueryPlan) × (q.plan ≡ some plan) × WellFormedNode plan.root)

-- The query has a plan that is not well formed.
abbrev pub IsMalformed : Query → Type 0
IsMalformed q = (plan : QueryPlan) × (q.plan ≡ some plan) × (WellFormedNode plan.root → ⊥)

pub check_plan-cases :
    (q : Query)
    → (IsAdmissible q × (check_plan q ≡ none))
      ⊎ (IsMalformed q
          × (check_plan q ≡ some (coded invalid_argument "pipeline %q: invalid query plan: %v")))
unfolding check_plan
check_plan-cases q = elim (Option-cases q.plan) [
  | inl e ↦ inl (inl e, rw (e, check_plan) refl)
  | inr (plan, e) ↦ elim (Option-cases (validate_plan plan)) [
    | inl v ↦
        inl (inr (plan, e, (validate_plan-WellFormed plan).0 v), rw (e, check_plan) (rw v refl))
    | inr (bad, v) ↦ inr (
      (plan, e, λ f. cc (v, (validate_plan-WellFormed plan).1 f)),
      rw (e, check_plan) (rw v refl),
    )
  ]
]

malformed_not :
    (q : Query) (plan plan' : QueryPlan)
    → q.plan ≡ some plan
    → q.plan ≡ some plan'
    → (WellFormedNode plan.root → ⊥)
    → WellFormedNode plan'.root
    → ⊥
malformed_not q plan plan' h h' bad good =
    let same : validate_plan plan ≡ validate_plan plan' = cc (h, h') in
    bad ((validate_plan-WellFormed plan).0 (same ∙ (validate_plan-WellFormed plan').1 good))

pub admissible_passes : (q : Query) → IsAdmissible q → check_plan q ≡ none
admissible_passes q a = elim (check_plan-cases q) [
  | inl (b, e) ↦ e
  | inr ((plan, h, bad), e) ↦ elim a [
    | inl n ↦ cc (n, h)
    | inr (plan', h', good) ↦ absurd (malformed_not q plan plan' h h' bad good)
  ]
]

pub malformed_fails :
    (q : Query)
    → IsMalformed q
    → check_plan q ≡ some (coded invalid_argument "pipeline %q: invalid query plan: %v")
malformed_fails q (plan, h, bad) = elim (check_plan-cases q) [
  | inl (inl n, e) ↦ cc (n, h)
  | inl (inr (plan', h', good), e) ↦ absurd (malformed_not q plan plan' h h' bad good)
  | inr (m, e) ↦ e
]

-- The payload of the result is a table.
abbrev pub IsTable : QueryResult → Type 0
IsTable r = (t : Table) × (r.payload ≡ table t)

-- A result without a signal takes the query's, unless it is a table.
abbrev pub Backfilled : Query → QueryResult → QueryResult → Type 0
Backfilled q r r' =
    (((r.signal ≢ signal_unspecified) ⊎ IsTable r) × (r' ≡ r))
    ⊎ ((r.signal ≡ signal_unspecified) × (IsTable r → ⊥) × (r' ≡ record r { signal = q.signal }))

table_of : (p : Payload) → is_table p ≡ true → (t : Table) × (p ≡ table t)
table_of (table t) e = (t, refl)
table_of p e = absurd (ground arith)

is_table-cases :
    (r : QueryResult)
    → (IsTable r × (is_table r.payload ≡ true)) ⊎ ((IsTable r → ⊥) × (is_table r.payload ≡ false))
is_table-cases r = elim (Bool-cases (is_table r.payload)) [
  | inl e ↦ inl (table_of r.payload e, e)
  | inr e ↦ inr (λ (t, p). cc (e, ap is_table p), e)
]

pub backfill-Backfilled : (q : Query) (r : QueryResult) → Backfilled q r (backfill q r)
unfolding backfill
backfill-Backfilled q r = elim (is_table-cases r) [
  | inl (t, e) ↦ inl (inr t, ground (arith, e))
  | inr (t, e) ↦ elim (Bool-cases (r.signal == signal_unspecified)) [
    | inl z ↦ inr (ground (arith, z), t, ground (arith, e, z))
    | inr z ↦ inl (inl (ground (arith, z)), ground (arith, z))
  ]
]

pub Backfilled-backfill : (q : Query) (r r' : QueryResult) → Backfilled q r r' → r' ≡ backfill q r
unfolding backfill
Backfilled-backfill q r r' (inl (inl s, e)) = ground (arith, s, e)
Backfilled-backfill q r r' (inl (inr t, e)) = ground (arith, e, ap is_table t.1)
Backfilled-backfill q r r' (inr (s, t, e)) = elim (is_table-cases r) [
  | inl (u, k) ↦ absurd (t u)
  | inr (u, k) ↦ ground (arith, s, e, k)
]

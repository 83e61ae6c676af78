-- ===== src/Processor/RateLimit/Bearer.antt =====
-- What authratelimitprocessor asks of a query: its token and its tenant.
use opentelemetry_querier.Base.{
  ℤ, String, Bool, true, false, ◌&&◌, not, Option, none, some, List, ◌≡◌, ◌≢◌, ◌↔◌, ◌⊎◌, ◌∙◌, sym,
  ap, refl, arith, contains, str_eq, str_eq_iff, Bool-cases, inl, inr,
}
use Prim.Native.String.{◌++◌ as ◌<>◌, len, slice}
use text.Mathlib.Text.{starts_with}
use text.Mathlib.TextEquality.{starts_with_iff}
use text.Mathlib.TextPositions.{len-append, slice-append_right}
use opentelemetry_querier.Qdata.Query.{Query, tenant_id}
use opentelemetry_querier.Processor.Header.{header_value}
use opentelemetry_querier.Processor.RateLimit.{
  Arith, Config, Limiter, bearer_prefix, authorized, process_query,
}

-- The query's authorization header holds one of the tokens behind the prefix.
abbrev pub ShowsToken : List String → Query → Type 0
ShowsToken tokens q =
    (token : String) × (header_value q.header "Authorization" ≡ bearer_prefix <> token)
    × (contains tokens token ≡ true)

suffix : (s t : String) → slice (s <> t) (len s) (len (s <> t)) ≡ t
suffix s t = ap (slice (s <> t) (len s)) (len-append s t) ∙ slice-append_right s t

after_prefix :
    (raw token : String)
    → raw ≡ bearer_prefix <> token
    → slice raw (len bearer_prefix) (len raw) ≡ token
after_prefix raw token e =
    ap (λ r. slice r (len bearer_prefix) (len r)) e ∙ suffix bearer_prefix token

and_true : (a b : Bool) → a ≡ true → b ≡ true → (a && b) ≡ true
and_true a b h h' = ground arith

and_left : (a b : Bool) → (a && b) ≡ true → a ≡ true
and_left a b h = ground arith

and_right : (a b : Bool) → (a && b) ≡ true → b ≡ true
and_right a b h = ground arith

-- `authorized` accepts exactly the queries that show a token.
pub authorized-ShowsToken :
    (tokens : List String) (q : Query) → (authorized tokens q ≡ true) ↔ ShowsToken tokens q
unfolding authorized
authorized-ShowsToken tokens q =
    let raw = header_value q.header "Authorization" in
    let first = starts_with raw bearer_prefix in
    let second = contains tokens (slice raw (len bearer_prefix) (len raw)) in
    (
      λ h.
          let (token, split) = (starts_with_iff raw bearer_prefix).0 (and_left first second h) in
          (
            token,
            sym split,
            sym (ap (contains tokens) (after_prefix raw token (sym split)))
                ∙ and_right first second h,
          ),
      λ (token, e, known).
          and_true first second ((starts_with_iff raw bearer_prefix).1 (token, sym e))
            (ap (contains tokens) (after_prefix raw token e) ∙ known),
    )

module _ {F : Type 0} (a : Arith F) (digest : String → String) (cfg : Config F) (now : ℤ) where
  -- Whom a query must be from, to pass.
  abbrev pub Authenticated : Option (Limiter F) → Query → Type 0
  Authenticated limiter q =
      ((cfg.require_bearer ≡ false) ⊎ ShowsToken cfg.tokens q)
      × ((limiter ≡ none) ⊎ (cfg.per_tenant ≡ false) ⊎ (tenant_id q ≢ ""))

  token_shown :
      (limiter : Option (Limiter F)) (q : Query)
      → (process_query a digest cfg now limiter q).0 ≡ none
      → (cfg.require_bearer && not (authorized cfg.tokens q)) ≡ false
  unfolding process_query
  token_shown limiter q h =
      elim (Bool-cases (cfg.require_bearer && not (authorized cfg.tokens q))) [
        | inl e ↦ cc (rw (e, process_query) at h)
        | inr e ↦ e
      ]

  tenant_shown :
      (limiter : Option (Limiter F)) (q : Query)
      → (process_query a digest cfg now limiter q).0 ≡ none
      → (cfg.require_bearer && not (authorized cfg.tokens q)) ≡ false
      → (limiter ≡ none) ⊎ (cfg.per_tenant ≡ false) ⊎ (tenant_id q ≢ "")
  unfolding process_query
  tenant_shown none q h shown = inl refl
  tenant_shown (some l) q h shown = elim (Bool-cases cfg.per_tenant) [
    | inr global ↦ inr (inl global)
    | inl each ↦ elim (Bool-cases (str_eq (tenant_id q) "")) [
      | inl e ↦ cc (rw (shown, each, e, process_query) at h)
      | inr e ↦ inr (inr (λ p. ground (arith, e, str_eq_iff (tenant_id q) "")))
    ]
  ]

  -- A query that passes shows one of the tokens where a token is required, and has a tenant where
  -- there is a limit for each tenant.
  pub process_query-Authenticated :
      (limiter : Option (Limiter F)) (q : Query)
      → (process_query a digest cfg now limiter q).0 ≡ none
      → Authenticated limiter q
  process_query-Authenticated limiter q h =
      let shown = token_shown limiter q h in
      (
        elim (Bool-cases cfg.require_bearer) [
          | inr e ↦ inl e
          | inl e ↦ inr ((authorized-ShowsToken cfg.tokens q).0 (ground (arith, shown, e)))
        ],
        tenant_shown limiter q h shown,
      )

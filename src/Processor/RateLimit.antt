-- ===== src/Processor/RateLimit.antt =====
-- processor/authratelimitprocessor/authratelimitprocessor.go: bearer tokens and the limiter. The
-- map of the keys and the linked list that orders its entries are one list of entries, the most
-- recently used first. Floating-point arithmetic, the clock and the digest of package sha256 are
-- parameters.
pub mod Recency
pub mod Held
pub mod Bearer
use opentelemetry_querier.Base.{
  ℕ, suc, ℤ, pos, negsuc, is_positive, String, Bool, true, false, ◌&&◌, not, Option, none, some,
  List, [], ◌∷◌, length, leb, contains, str_eq, if◌then◌else◌,
}
use opentelemetry_querier.Base.Assoc.{Assoc, lookup, delete}
use Prim.Native.String.{len, slice}
use text.Mathlib.Text.{starts_with}
use opentelemetry_querier.Qerror.{Error, coded, unauthenticated, resource_exhausted}
use opentelemetry_querier.Qdata.Query.{Query, tenant_id}
use opentelemetry_querier.Processor.Header.{header_value}

-- What the code does with float64 values and instants: `seconds` is `now.Sub(last).Seconds()`.
pub record Arith (F : Type 0) : Type 0 where
  pub add : F → F → F
  pub sub : F → F → F
  pub mul : F → F → F
  pub less : F → F → Bool
  pub seconds : ℤ → ℤ → F
  pub of_int : ℤ → F
  pub ceil : F → ℤ

pub record Config (F : Type 0) : Type 0 where
  pub require_bearer : Bool
  pub tokens : List String
  pub requests_per_second : F
  pub burst : ℤ
  pub per_tenant : Bool
  pub max_keys : ℤ

-- `bucket`
pub record Bucket (F : Type 0) : Type 0 where
  pub tokens : F
  pub last : ℤ

-- `limiter`
pub record Limiter (F : Type 0) : Type 0 where
  pub rate : F
  pub burst : F
  pub max_keys : ℕ
  pub entries : Assoc (Bucket F)
  pub admission : Bucket F

abbrev pub default_max_keys : ℕ
default_max_keys = 10000

abbrev pub max_key_bytes : ℕ
max_key_bytes = 256

-- `boundKey`
unfoldable pub bound_key : (String → String) → String → String
bound_key digest key = if leb (len key) max_key_bytes then key else digest key

-- `evictOldest`, of the entries
unfoldable pub evict_oldest {ℓ} : {A : Type ℓ} → List A → List A
evict_oldest [] = []
evict_oldest (e ∷ []) = []
evict_oldest (e ∷ e' ∷ es) = e ∷ evict_oldest (e' ∷ es)

abbrev pub bearer_prefix : String
bearer_prefix = "Bearer "

-- `authorized`
unfoldable pub authorized : List String → Query → Bool
unfolding header_value contains
authorized tokens q =
    let raw = header_value q.header "Authorization" in
    starts_with raw bearer_prefix && contains tokens (slice raw (len bearer_prefix) (len raw))

abbrev magnitude : ℤ → ℕ
magnitude (pos n) = n
magnitude (negsuc n) = suc n

module _ {F : Type 0} (a : Arith F) where
  -- `newLimiter`
  unfoldable pub new_limiter : F → F → ℕ → ℤ → Limiter F
  new_limiter rate burst max_keys now = record {
    rate = rate;
    burst = burst;
    max_keys = max_keys;
    entries = [];
    admission = record { tokens = burst; last = now };
  }

  -- the limiter that `New` gives the processor, none if there is no rate
  unfoldable pub new : Config F → ℤ → Option (Limiter F)
  unfolding new_limiter
  new cfg now =
      let whole = a.ceil cfg.requests_per_second in
      let burst =
        (if is_positive cfg.burst then cfg.burst else if is_positive whole then whole else pos 1) in
      let max_keys =
        (if is_positive cfg.max_keys then magnitude cfg.max_keys else default_max_keys) in
      if a.less (a.of_int (pos 0)) cfg.requests_per_second
      then some (new_limiter cfg.requests_per_second (a.of_int burst) max_keys now)
      else none

  -- `take`
  unfoldable pub take : ℤ → F → F → Bucket F → Bool × Bucket F
  take now rate burst b =
      let refilled = a.add b.tokens (a.mul (a.seconds now b.last) rate) in
      let tokens = (if a.less burst refilled then burst else refilled) in
      if a.less tokens (a.of_int (pos 1))
      then (false, record { tokens = tokens; last = now })
      else (true, record { tokens = a.sub tokens (a.of_int (pos 1)); last = now })

  -- the end of `allow` for an unseen key
  unfoldable pub mint : ℤ → String → Limiter F → Bool × Limiter F
  unfolding take
  mint now key l =
      let (taken, b) = take now l.rate l.burst (record { tokens = l.burst; last = now }) in
      (taken, record l { entries = (key, b) ∷ l.entries })

  -- `allow` for an unseen key
  unfoldable pub allow_new : ℤ → String → Limiter F → Bool × Limiter F
  unfolding mint evict_oldest
  allow_new now key l =
      if leb l.max_keys (length l.entries)
      then (let (admitted, b) = take now l.rate l.burst l.admission in
          if admitted
          then mint now key (record l { entries = evict_oldest l.entries; admission = b })
          else (false, record l { admission = b }))
      else mint now key l

  -- `allow`, of the bounded key
  unfoldable pub allow : ℤ → String → Limiter F → Bool × Limiter F
  unfolding allow_new lookup delete
  allow now key l = elim (lookup key l.entries) [
    | some bucket ↦
        (let (taken, b) = take now l.rate l.burst bucket in
          (taken, record l { entries = (key, b) ∷ delete key l.entries }))
    | none ↦ allow_new now key l
  ]

  module _ (digest : String → String) where
    abbrev missing_bearer : Error
    missing_bearer = coded unauthenticated "authratelimit: missing or invalid bearer token"

    abbrev missing_tenant : Error
    missing_tenant =
        coded unauthenticated "authratelimit: per-tenant limiting requires a resolved tenant"

    abbrev exceeded : Error
    exceeded = coded resource_exhausted "authratelimit: rate limit exceeded"

    -- the verdict on a key
    unfoldable pub limit : ℤ → String → Limiter F → Option Error × Option (Limiter F)
    unfolding allow bound_key
    limit now key l =
        let (allowed, l') = allow now (bound_key digest key) l in
        if allowed then (none, some l') else (some exceeded, some l')

    -- `ProcessQuery`, of which the query is left as it is
    unfoldable pub process_query :
        Config F → ℤ → Option (Limiter F) → Query → Option Error × Option (Limiter F)
    unfolding authorized limit
    process_query cfg now limiter q =
        if cfg.require_bearer && not (authorized cfg.tokens q)
        then (some missing_bearer, limiter)
        else elim limiter [
          | none ↦ (none, none)
          | some l ↦
              (if cfg.per_tenant && str_eq (tenant_id q) ""
                then (some missing_tenant, some l)
                else limit now (if cfg.per_tenant then tenant_id q else "global") l)
        ]

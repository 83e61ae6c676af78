-- ===== src/Tests/Limits.antt =====
-- The limiter and the bearer check of authratelimitprocessor at concrete inputs, with whole numbers
-- for its floating-point ones.
use opentelemetry_querier.Base.{
  ℕ, ◌+◌, ◌-◌, ◌*◌, ℤ, pos, negsuc, true, false, none, some, [], ◌∷◌, ltb, ◌≡◌, ◌↔◌, refl, arith,
  contains, equal_fold,
}
use opentelemetry_querier.Base.Assoc.{lookup}
use opentelemetry_querier.Qdata.Query.{Query}
use opentelemetry_querier.Processor.RateLimit.{
  Arith, Bucket, Config, Limiter, authorized, allow, process_query,
}
use opentelemetry_querier.Processor.RateLimit.Held.{IsBounded, Held, allow-Held, allow-IsBounded}
use opentelemetry_querier.Processor.RateLimit.Bearer.{
  ShowsToken, authorized-ShowsToken, Authenticated, process_query-Authenticated,
}
use opentelemetry_querier.Tests.Fixtures.{admitted}

abbrev whole : ℤ → ℕ
whole (pos n) = n
whole (negsuc n) = 0

abbrev ar : Arith ℕ
ar = record {
  add = λ x y. x + y;
  sub = λ x y. x - y;
  mul = λ x y. x * y;
  less = ltb;
  seconds = λ now last. whole now - whole last;
  of_int = whole;
  ceil = pos;
}

abbrev full_bucket : Bucket ℕ
full_bucket = record { tokens = 2; last = pos 0 }

abbrev two_keys : Limiter ℕ
two_keys = record {
  rate = 1;
  burst = 2;
  max_keys = 2;
  entries = ("a", full_bucket) ∷ ("b", full_bucket) ∷ [];
  admission = full_bucket;
}

two_keys-IsBounded : IsBounded two_keys
unfolding contains
two_keys-IsBounded = ((refl, (refl, tt)), omega arith, omega arith)

allow-Held_example : Held ar (pos 1) "c" two_keys (allow ar (pos 1) "c" two_keys)
allow-Held_example = allow-Held ar (pos 1) "c" two_keys two_keys-IsBounded

allow-IsBounded_example : IsBounded (allow ar (pos 1) "c" two_keys).1
allow-IsBounded_example = allow-IsBounded ar (pos 1) "c" two_keys two_keys-IsBounded

-- The key used longest ago makes room.
oldest_leaves :
    (allow ar (pos 1) "c" two_keys).1.entries
    ≡ ("c", record { tokens = 1; last = pos 1 }) ∷ ("a", full_bucket) ∷ []
unfolding allow lookup
oldest_leaves = refl

abbrev bearer : Query
bearer = record admitted { header = ("authorization", "Bearer t1" ∷ []) ∷ [] }

abbrev cfg : Config ℕ
cfg = record {
  require_bearer = true;
  tokens = "t0" ∷ "t1" ∷ [];
  requests_per_second = 1;
  burst = pos 2;
  per_tenant = false;
  max_keys = pos 2;
}

authorized-ShowsToken_example : (authorized cfg.tokens bearer ≡ true) ↔ ShowsToken cfg.tokens bearer
authorized-ShowsToken_example = authorized-ShowsToken cfg.tokens bearer

bearer_passes : (process_query ar (λ s. s) cfg (pos 1) (some two_keys) bearer).0 ≡ none
unfolding process_query lookup contains equal_fold
bearer_passes = refl

process_query-Authenticated_example : Authenticated ar (λ s. s) cfg (pos 1) (some two_keys) bearer
process_query-Authenticated_example =
    process_query-Authenticated ar (λ s. s) cfg (pos 1) (some two_keys) bearer bearer_passes

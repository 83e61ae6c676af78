-- ===== src/Qerror.antt =====
-- qerror/qerror.go: the coded errors that flow out of processors and the pipeline, and the plain
-- and wrapped errors of Go around them. A message is kept as its format, without its arguments.
pub mod Steps
use opentelemetry_querier.Base.{ℕ, String, Option, none, some}

pub data Code : Type 0 where
  internal invalid_argument unauthenticated permission_denied : Code
  resource_exhausted unavailable deadline_exceeded : Code
  -- an integer that is no declared class
  other : ℕ → Code

-- `wrapped` is `fmt.Errorf("...: %w", err)`, `plain` an error with no code.
pub data Error : Type 0 where
  coded : Code → String → Error
  plain : String → Error
  wrapped : String → Error → Error

unfoldable pub http_status : Code → ℕ
http_status internal = 500
http_status invalid_argument = 400
http_status unauthenticated = 401
http_status permission_denied = 403
http_status resource_exhausted = 429
http_status unavailable = 502
http_status deadline_exceeded = 504
http_status (other n) = 500

-- The first coded error on the chain of wrapped errors, as `errors.As` finds it.
unfoldable pub code_of : Error → Code
code_of (coded c msg) = c
code_of (plain msg) = internal
code_of (wrapped msg e) = code_of e

-- What a Go function that returns a value and an error returns.
pub data Outcome {ℓ} (A : Type ℓ) : Type ℓ where
  ok : A → Outcome A
  err : Error → Outcome A

infixl 5 ◌>>=◌
abbrev pub ◌>>=◌ {ℓ κ} : {A : Type ℓ} {B : Type κ} → Outcome A → (A → Outcome B) → Outcome B
ok a >>= f = f a
err e >>= f = err e

-- `qerror.New(qerror.CodeInvalidArgument, msg)`
abbrev pub invalid {ℓ} : {A : Type ℓ} → String → Outcome A
invalid msg = err (coded invalid_argument msg)

-- what a table says, or the error where it has no entry
abbrev pub found_or : String → Option String → Outcome String
found_or msg (some name) = ok name
found_or msg none = invalid msg

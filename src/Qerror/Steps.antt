-- ===== src/Qerror/Steps.antt =====
-- qerror/qerror.go: steps of which each may fail, one behind the other.
use opentelemetry_querier.Base.{
  Bool, true, false, ◌&&◌, Option, none, some, String, if◌then◌else◌, ◌≡◌, refl,
}
use opentelemetry_querier.Qerror.{Code, invalid_argument, Outcome, ok, err, ◌>>=◌, code_of, invalid}

-- What a step with a result had.
pub bind-ok {ℓ κ} :
    {A : Type ℓ} {B : Type κ} (x : Outcome A) (f : A → Outcome B) (b : B)
    → (x >>= f) ≡ ok b
    → (a : A) × (x ≡ ok a) × (f a ≡ ok b)
bind-ok (ok a) f b h = (a, refl, h)
bind-ok (err e) f b h = cc

pub ok-injective {ℓ} : {A : Type ℓ} (a b : A) → ok a ≡ ok b → a ≡ b
ok-injective a b h = cc

-- The class of the error, if it is one.
unfoldable pub refusal {ℓ} : {A : Type ℓ} → Outcome A → Option Code
unfolding code_of
refusal (ok a) = none
refusal (err e) = some (code_of e)

-- The test decides whether the outcome is a result, or an error for an invalid argument.
pub data Verdict {ℓ} {A : Type ℓ} : Bool → Outcome A → Type ℓ where
  passed : (a : A) → Verdict true (ok a)
  refused : (msg : String) → Verdict false (invalid msg)

pub Verdict-bind {ℓ κ} :
    {A : Type ℓ} {B : Type κ} {b c : Bool} {x : Outcome A} {f : A → Outcome B}
    → Verdict b x
    → ((a : A) → Verdict c (f a))
    → Verdict (b && c) (x >>= f)
Verdict-bind (passed a) h = h a
Verdict-bind (refused msg) h = refused msg

pub Verdict-map {ℓ κ} :
    {A : Type ℓ} {B : Type κ} {b : Bool} {x : Outcome A}
    → (f : A → B) → Verdict b x
    → Verdict b (x >>= λ a. ok (f a))
Verdict-map f (passed a) = passed (f a)
Verdict-map f (refused msg) = refused msg

pub Verdict-if {ℓ} :
    {A : Type ℓ} {c : Bool} {x : Outcome A} (b : Bool) (msg : String)
    → Verdict c x
    → Verdict (b && c) (if b then x else invalid msg)
Verdict-if true msg h = h
Verdict-if false msg h = refused msg

pub refusal-Verdict {ℓ} :
    {A : Type ℓ} {b : Bool} {x : Outcome A}
    → Verdict b x
    → refusal x ≡ (if b then none else some invalid_argument)
unfolding refusal
refusal-Verdict (passed a) = refl
refusal-Verdict (refused msg) = refl

-- ===== src/Lucene/Returns.antt =====
-- Results of the parser of acceptor/elasticsearchacceptor/lucene.go that pass a test.
use opentelemetry_querier.Base.{Bool, true, false, if◌then◌else◌}
use opentelemetry_querier.Lucene.{LuceneError, Parsed, ok, failed, ◌>>=◌}

-- The parser ends, and what it returns, if anything, passes the test.
pub data Returns {ℓ κ} {A : Type ℓ} (P : A → Type κ) : Parsed A → Type (ℓ ⊔ κ) where
  returned : (a : A) → P a → Returns P (ok a)
  refused : (e : LuceneError) → Returns P (failed e)

pub Returns-bind {ℓ κ ℓ' κ'} :
    {A : Type ℓ} {B : Type κ} {P : A → Type ℓ'} {Q : B → Type κ'} {x : Parsed A} {f : A → Parsed B}
    → Returns P x
    → ((a : A) → P a → Returns Q (f a))
    → Returns Q (x >>= f)
Returns-bind (returned a p) h = h a p
Returns-bind (refused e) h = refused e

pub Returns-if {ℓ κ} :
    {A : Type ℓ} {P : A → Type κ} {x y : Parsed A} (b : Bool)
    → Returns P x
    → Returns P y
    → Returns P (if b then x else y)
Returns-if true h k = h
Returns-if false h k = k

-- ===== src/Processor/RateLimit/Recency.antt =====
-- The order of recent use over a list of keys: the specification of the cache of the limiter.
use opentelemetry_querier.Base.{
  ℕ, zero, suc, ◌≤◌, String, true, false, ◌&&◌, not, none, some, List, [], ◌∷◌, map, length, ◌≡◌,
  ap, refl, arith, keep, contains, str_eq, str_eq_iff, str_eq_refl, Bool-cases, inl, inr,
}
use opentelemetry_querier.Base.Assoc.{Assoc, lookup, delete}
use opentelemetry_querier.Processor.RateLimit.{evict_oldest}

-- The first elements of a list.
abbrev pub first {ℓ} : {A : Type ℓ} → ℕ → List A → List A
first zero xs = []
first (suc n) [] = []
first (suc n) (x ∷ xs) = x ∷ first n xs

abbrev pub without : String → List String → List String
without key = keep (λ k. not (str_eq k key))

-- The keys that a cache of the given size holds after a use of a key, the last used first.
abbrev pub recent : ℕ → String → List String → List String
recent n key ks = first n (key ∷ without key ks)

abbrev pub keys {ℓ} : {V : Type ℓ} → Assoc V → List String
keys = map (λ e. e.0)

abbrev pub Distinct : List String → Type 0
Distinct [] = Unit
Distinct (k ∷ ks) = (contains ks k ≡ false) × Distinct ks

pub first-short {ℓ} : {A : Type ℓ} (n : ℕ) (xs : List A) → length xs ≤ n → xs ≡ first n xs
first-short zero [] h = refl
first-short zero (x ∷ xs) h = absurd (omega (arith, h))
first-short (suc n) [] h = refl
first-short (suc n) (x ∷ xs) h = ap (◌∷◌ x) (first-short n xs (omega (arith, h)))

pub length-first {ℓ} : {A : Type ℓ} (n : ℕ) (xs : List A) → length (first n xs) ≤ n
length-first zero xs = omega arith
length-first (suc n) [] = omega arith
length-first (suc n) (x ∷ xs) = omega (arith, length-first n xs)

pub evict_oldest-first {ℓ} :
    {A : Type ℓ} (n : ℕ) (xs : List A) → length xs ≡ suc n → evict_oldest xs ≡ first n xs
unfolding evict_oldest
evict_oldest-first n [] h = absurd (omega (arith, h))
evict_oldest-first zero (x ∷ []) h = refl
evict_oldest-first (suc n) (x ∷ []) h = absurd (omega (arith, h))
evict_oldest-first zero (x ∷ y ∷ xs) h = absurd (omega (arith, h))
evict_oldest-first (suc n) (x ∷ y ∷ xs) h =
    ap (◌∷◌ x) (evict_oldest-first n (y ∷ xs) (omega (arith, h)))

pub keys-evict_oldest {ℓ} :
    {V : Type ℓ} (m : Assoc V) → keys (evict_oldest m) ≡ evict_oldest (keys m)
unfolding evict_oldest
keys-evict_oldest [] = refl
keys-evict_oldest (e ∷ []) = refl
keys-evict_oldest (e ∷ e' ∷ m) = ap (◌∷◌ e.0) (keys-evict_oldest (e' ∷ m))

pub keys-delete {ℓ} :
    {V : Type ℓ} (key : String) (m : Assoc V) → keys (delete key m) ≡ without key (keys m)
unfolding delete
keys-delete key [] = refl
keys-delete key ((k, v) ∷ m) = elim (Bool-cases (str_eq k key)) [
  | inl e ↦ rw e (keys-delete key m)
  | inr e ↦ rw e (ap (◌∷◌ k) (keys-delete key m))
]

pub contains-lookup {ℓ} :
    {V : Type ℓ} (key : String) (m : Assoc V) → lookup key m ≡ none → contains (keys m) key ≡ false
unfolding lookup contains
contains-lookup key [] h = refl
contains-lookup key ((k, v) ∷ m) h = elim (Bool-cases (str_eq k key)) [
  | inl e ↦ cc (rw e at h)
  | inr e ↦ rw e (contains-lookup key m (rw e at h))
]

pub lookup-contains {ℓ} :
    {V : Type ℓ} (key : String) (v : V) (m : Assoc V)
    → lookup key m ≡ some v
    → contains (keys m) key ≡ true
unfolding lookup contains
lookup-contains key v [] h = cc
lookup-contains key v ((k, w) ∷ m) h = elim (Bool-cases (str_eq k key)) [
  | inl e ↦ rw e refl
  | inr e ↦ rw e (lookup-contains key v m (rw e at h))
]

pub without-absent :
    (key : String) (ks : List String) → contains ks key ≡ false → ks ≡ without key ks
unfolding contains
without-absent key [] h = refl
without-absent key (k ∷ ks) h = elim (Bool-cases (str_eq k key)) [
  | inl e ↦ cc (rw e at h)
  | inr e ↦ rw e (ap (◌∷◌ k) (without-absent key ks (rw e at h)))
]

length-without : (key : String) (ks : List String) → length (without key ks) ≤ length ks
length-without key [] = omega arith
length-without key (k ∷ ks) = elim (Bool-cases (str_eq k key)) [
  | inl e ↦ rw e (omega (arith, length-without key ks))
  | inr e ↦ rw e (omega (arith, length-without key ks))
]

pub length-without_present :
    (key : String) (ks : List String)
    → contains ks key ≡ true
    → suc (length (without key ks)) ≤ length ks
unfolding contains
length-without_present key [] h = cc
length-without_present key (k ∷ ks) h = elim (Bool-cases (str_eq k key)) [
  | inl e ↦ rw e (omega (arith, length-without key ks))
  | inr e ↦ rw e (omega (arith, length-without_present key ks (rw e at h)))
]

contains-without :
    (key : String) (ks : List String) (c : String)
    → contains (without key ks) c ≡ (contains ks c && not (str_eq c key))
unfolding contains
contains-without key [] c = refl
contains-without key (k ∷ ks) c = elim (Bool-cases (str_eq k key)) [
  | inl e ↦ rw e (ground (arith, e, str_eq_iff k c, contains-without key ks c))
  | inr e ↦ rw e (ground (arith, e, str_eq_iff k c, contains-without key ks c))
]

without-Distinct : (key : String) (ks : List String) → Distinct ks → Distinct (without key ks)
without-Distinct key [] d = tt
without-Distinct key (k ∷ ks) d = elim (Bool-cases (str_eq k key)) [
  | inl e ↦ rw e (without-Distinct key ks d.1)
  | inr e ↦ rw e (ground (arith, contains-without key ks k, d.0), without-Distinct key ks d.1)
]

contains-first :
    (n : ℕ) (ks : List String) (c : String)
    → contains ks c ≡ false
    → contains (first n ks) c ≡ false
unfolding contains
contains-first zero ks c h = refl
contains-first (suc n) [] c h = refl
contains-first (suc n) (k ∷ ks) c h = ground (arith, h, contains-first n ks c)

first-Distinct : (n : ℕ) (ks : List String) → Distinct ks → Distinct (first n ks)
first-Distinct zero ks d = tt
first-Distinct (suc n) [] d = tt
first-Distinct (suc n) (k ∷ ks) d = (contains-first n ks k d.0, first-Distinct n ks d.1)

pub recent-Distinct :
    (n : ℕ) (key : String) (ks : List String) → Distinct ks → Distinct (recent n key ks)
recent-Distinct n key ks d =
    first-Distinct n (key ∷ without key ks)
      (ground (arith, contains-without key ks key, str_eq_refl key), without-Distinct key ks d)

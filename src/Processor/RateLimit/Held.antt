-- ===== src/Processor/RateLimit/Held.antt =====
-- The keys that the limiter of authratelimitprocessor holds.
use opentelemetry_querier.Base.{
  ℕ, zero, suc, ◌≤◌, ℤ, String, Bool, true, false, some, [], ◌∷◌, length, leb, ◌≡◌, ◌⊎◌, ◌∙◌, ap,
  refl, arith, contains, Bool-cases, Option-cases, inl, inr,
}
use opentelemetry_querier.Base.Assoc.{Assoc, lookup, delete}
use opentelemetry_querier.Processor.RateLimit.{
  Arith, Bucket, Limiter, evict_oldest, take, mint, allow_new, allow,
}
use opentelemetry_querier.Processor.RateLimit.Recency.{
  first, without, recent, keys, Distinct, first-short, evict_oldest-first, keys-evict_oldest,
  keys-delete, contains-lookup, lookup-contains, without-absent, length-without_present,
  length-first, recent-Distinct,
}

-- No key is held twice, and there are no more of them than the limit, which is not zero.
abbrev pub IsBounded : {F : Type 0} → Limiter F → Type 0
IsBounded l =
    Distinct (keys l.entries) × (length (keys l.entries) ≤ l.max_keys) × (suc zero ≤ l.max_keys)

is_suc : (n : ℕ) → suc zero ≤ n → (m : ℕ) × (n ≡ suc m)
is_suc zero h = absurd (omega (arith, h))
is_suc (suc m) h = (m, refl)

length-keys {ℓ} : {V : Type ℓ} (m : Assoc V) → length (keys m) ≡ length m
length-keys [] = refl
length-keys (e ∷ m) = ap suc (length-keys m)

module _ {F : Type 0} (a : Arith F) (now : ℤ) (key : String) where
  -- The keys after a request for a key: those of a cache that has used the key, or, for a key
  -- that is not held and is refused, those that were held.
  abbrev pub Held : Limiter F → Bool × Limiter F → Type 0
  Held l out =
      (keys out.1.entries ≡ recent l.max_keys key (keys l.entries))
      ⊎ (out.0 ≡ false) × (contains (keys l.entries) key ≡ false) × (out.1.entries ≡ l.entries)

  used :
      (l : Limiter F) (bucket : Bucket F)
      → IsBounded l
      → lookup key l.entries ≡ some bucket
      → key ∷ keys (delete key l.entries) ≡ recent l.max_keys key (keys l.entries)
  used l bucket (d, bound, some_key) h =
      ap (◌∷◌ key) (keys-delete key l.entries)
      ∙ first-short l.max_keys (key ∷ without key (keys l.entries)) (
          omega (
            arith,
            length-without_present key (keys l.entries) (lookup-contains key bucket l.entries h),
          ))

  room :
      (l : Limiter F)
      → IsBounded l
      → contains (keys l.entries) key ≡ false
      → leb l.max_keys (length (keys l.entries)) ≡ false
      → key ∷ keys l.entries ≡ recent l.max_keys key (keys l.entries)
  room l (d, bound, some_key) h free =
      first-short l.max_keys (key ∷ keys l.entries) (ground (arith, free))
      ∙ ap (λ ks. first l.max_keys (key ∷ ks)) (without-absent key (keys l.entries) h)

  evicted_at :
      (n : ℕ) (m : Assoc (Bucket F))
      → contains (keys m) key ≡ false
      → length (keys m) ≡ suc n
      → key ∷ keys (evict_oldest m) ≡ recent (suc n) key (keys m)
  evicted_at n m h full = ap (◌∷◌ key) (
      keys-evict_oldest m
      ∙ evict_oldest-first n (keys m) full
      ∙ ap (first n) (without-absent key (keys m) h))

  evicted :
      (l : Limiter F)
      → IsBounded l
      → contains (keys l.entries) key ≡ false
      → leb l.max_keys (length (keys l.entries)) ≡ true
      → key ∷ keys (evict_oldest l.entries) ≡ recent l.max_keys key (keys l.entries)
  evicted l (d, bound, some_key) h full =
      let (n, e) = is_suc l.max_keys some_key in
      rw e (evicted_at n l.entries h (ground (arith, full, e, bound)))

  mint-keys : (l : Limiter F) → keys (mint a now key l).1.entries ≡ key ∷ keys l.entries
  unfolding mint
  mint-keys l = refl

  allow_new-Held :
      (l : Limiter F)
      → IsBounded l
      → contains (keys l.entries) key ≡ false
      → Held l (allow_new a now key l)
  unfolding allow_new
  allow_new-Held l b h = elim (Bool-cases (leb l.max_keys (length l.entries))) [
    | inr free ↦
        rw free
          (inl (mint-keys l ∙ room l b h (ap (leb l.max_keys) (length-keys l.entries) ∙ free)))
    | inl full ↦ rw full (elim (Bool-cases (take a now l.rate l.burst l.admission).0) [
      | inr refused ↦ rw refused (inr (refl, h, refl))
      | inl admitted ↦ rw admitted (
          inl (
            mint-keys (record l {
              entries = evict_oldest l.entries;
              admission = (take a now l.rate l.burst l.admission).1;
            })
            ∙ evicted l b h (ap (leb l.max_keys) (length-keys l.entries) ∙ full)))
    ])
  ]

  -- A bounded limiter holds, after a request for a key, the keys that a cache of its size holds
  -- after a use of that key, so that only the key used longest ago is evicted; or it refuses a key
  -- that it does not hold, and its entries stay.
  pub allow-Held : (l : Limiter F) → IsBounded l → Held l (allow a now key l)
  unfolding allow
  allow-Held l b = elim (Option-cases (lookup key l.entries)) [
    | inl absent ↦ rw (absent, allow) (allow_new-Held l b (contains-lookup key l.entries absent))
    | inr (bucket, present) ↦ rw (present, allow) (inl (used l bucket b present))
  ]

  max_keys-allow : (l : Limiter F) → (allow a now key l).1.max_keys ≡ l.max_keys
  unfolding allow allow_new mint
  max_keys-allow l = ground arith

  Held-IsBounded :
      (l : Limiter F) (out : Bool × Limiter F)
      → IsBounded l
      → out.1.max_keys ≡ l.max_keys
      → Held l out
      → IsBounded out.1
  Held-IsBounded l (allowed, l') (d, bound, some_key) same (inl e) =
      rw (same, e)
        (
          recent-Distinct l.max_keys key (keys l.entries) d,
          length-first l.max_keys (key ∷ without key (keys l.entries)),
          some_key,
        )
  Held-IsBounded l (allowed, l') b same (inr (refused, absent, e)) = rw (same, e) b

  -- A request keeps a limiter bounded: whichever keys it is asked for, it never holds more buckets
  -- than its limit, nor two for one key.
  pub allow-IsBounded : (l : Limiter F) → IsBounded l → IsBounded (allow a now key l).1
  allow-IsBounded l b = Held-IsBounded l (allow a now key l) b (max_keys-allow l) (allow-Held l b)

-- ===== src/Lucene/Lexing.antt =====
-- The tokenizer of acceptor/elasticsearchacceptor/lucene.go: what its rounds leave of the text, and
-- that it ends.
use opentelemetry_querier.Base.{
  ℕ, zero, suc, ◌≤◌, String, false, [], ◌∷◌, ◌==◌, size, ◌≡◌, arith, Bool-cases, inl, inr,
}
use Prim.Native.Char.{Char, code}
use opentelemetry_querier.Golib.{Unicode}
use opentelemetry_querier.Lucene.{
  Step, skipped, scanned, scan_quoted, scan_bareword, punct_token, mark_or_word, next_step,
  after_step, tokenize_from, Parsed, Tokens, tokenize,
}
use opentelemetry_querier.Lucene.Returns.{Returns, returned, Returns-bind}

-- The number of characters that a round leaves.
unfoldable left_size : Step → ℕ
left_size (skipped rest) = size rest
left_size (scanned t rest) = size rest

quoted_rest : (s : String) → size (scan_quoted s).1 ≤ size s
unfolding scan_quoted
quoted_rest String.[] = omega arith
quoted_rest (String.◌∷◌ c String.[]) = elim (Bool-cases (code c == b'"')) [
  | inl q ↦ rw q (omega arith)
  | inr q ↦ rw q (omega arith)
]
quoted_rest (String.◌∷◌ c (String.◌∷◌ d s)) =
    let shorter = quoted_rest s in
    let short = quoted_rest (String.◌∷◌ d s) in
    elim (Bool-cases (code c == b'\\')) [
      | inl e ↦ rw (e, scan_quoted) (omega (arith, shorter))
      | inr e ↦
          rw (e, scan_quoted)
            (elim (Bool-cases (code c == b'"')) [
              | inl q ↦ rw q (omega arith)
              | inr q ↦ rw q (omega (arith, short))
            ])
    ]

module _ (u : Unicode) where
  bareword_rest : (s : String) → size (scan_bareword u s).1 ≤ size s
  unfolding scan_bareword
  bareword_rest String.[] = omega arith
  bareword_rest (String.◌∷◌ c s) = ground (arith, bareword_rest s)

  -- A mark is one character, and a word at a character that bounds no word has one at least.
  mark_rest :
      (c : Char) (s : String)
      → u.is_space (code c) ≡ false
      → (code c == b'"') ≡ false
      → left_size (mark_or_word u c s) ≤ size s
  unfolding mark_or_word punct_token scan_bareword left_size
  mark_rest c s h k = ground (arith, bareword_rest s)

  next_step-rest : (c : Char) (s : String) → left_size (next_step u c s) ≤ size s
  unfolding next_step left_size
  next_step-rest c s = ground (arith, quoted_rest s, mark_rest c s)

  after_step-Returns :
      (loop : String → Parsed Tokens) (st : Step) (n : ℕ)
      → ((s : String) → size s ≤ n → Returns (λ _. Unit {0}) (loop s))
      → left_size st ≤ n
      → Returns (λ _. Unit {0}) (after_step u loop st)
  unfolding after_step left_size
  after_step-Returns loop (skipped rest) n h le = h rest le
  after_step-Returns loop (scanned t rest) n h le =
      Returns-bind (h rest le) (λ ts _. returned (t ∷ ts) tt)

  tokenize_from-Returns :
      (fuel : ℕ) (s : String) → size s ≤ fuel → Returns (λ _. Unit {0}) (tokenize_from u fuel s)
  unfolding tokenize_from
  tokenize_from-Returns fuel String.[] le = returned [] tt
  tokenize_from-Returns zero (String.◌∷◌ c s) le = ground arith
  tokenize_from-Returns (suc fuel) (String.◌∷◌ c s) le =
      let shorter = next_step-rest c s in
      after_step-Returns (tokenize_from u fuel) (next_step u c s) fuel (tokenize_from-Returns fuel)
        (omega arith)

  -- The tokenizer ends within its fuel, on every text.
  pub tokenize-Returns : (s : String) → Returns (λ _. Unit {0}) (tokenize u s)
  unfolding tokenize
  tokenize-Returns s = tokenize_from-Returns (size s) s (omega arith)

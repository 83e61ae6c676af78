-- ===== src/Loki/Lexing.antt =====
-- The tokenizer of acceptor/lokiacceptor/logqlparse.go: what its rounds leave of the text, and the
-- tokens of a text as a relation without fuel.
use opentelemetry_querier.Base.{
  ℕ, zero, suc, ◌≤◌, String, Bool, true, ◌||◌, Option, none, some, List, [], ◌∷◌, ◌==◌, size, ◌≡◌,
  ◌≢◌, refl, ap, arith,
}
use Prim.Native.Char.{Char, code}
use opentelemetry_querier.Golib.{Strconv, Unicode}
use opentelemetry_querier.Loki.Scan.{
  Run, ok, out_of_fuel, Token, Step, skipped, scanned, refused, put, scan_body, scan_while,
  scan_string, scan_number, scan_ident, is_ident_rune, next_step, tokenize_from, after_step,
  tokenize, lone_operator, scan_operator,
}

-- The number of characters that a round leaves.
unfoldable pub step_size : Step → ℕ
step_size (skipped rest) = size rest
step_size (scanned t rest) = size rest
step_size refused = 0

left_size : Option (String × String) → ℕ
left_size none = 0
left_size (some (raw, rest)) = size rest

while_size : (keep : ℕ → Bool) (s : String) → size (scan_while keep s).1 ≤ size s
unfolding scan_while
while_size keep String.[] = omega arith
while_size keep (String.◌∷◌ c s) = grind (arith, while_size keep s)

put_size : (c : Char) (o : Option (String × String)) → left_size (put c o) ≡ left_size o
unfolding left_size
put_size c none = refl
put_size c (some (raw, rest)) = refl

body_size : (quote : ℕ) (s : String) → left_size (scan_body quote s) ≤ size s
unfolding scan_body left_size
body_size quote String.[] = omega arith
body_size quote (String.◌∷◌ c String.[]) = ground arith
body_size quote (String.◌∷◌ c (String.◌∷◌ d s)) = ground (
  arith,
  body_size quote s,
  body_size quote (String.◌∷◌ d s),
  put_size c (scan_body quote (String.◌∷◌ d s)),
  put_size d (scan_body quote s),
  put_size c (put d (scan_body quote s)),
)

module _ (lib : Strconv) (u : Unicode) where
  operator_size : (c : Char) (s : String) → step_size (scan_operator c s) ≤ size s
  unfolding scan_operator step_size lone_operator
  operator_size c String.[] = ground arith
  operator_size c (String.◌∷◌ d s) = ground arith

  string_size : (c : Char) (s : String) → step_size (scan_string lib u c s) ≤ size s
  unfolding scan_string step_size left_size
  string_size c s = grind (arith, body_size (code c) s)

  number_size :
      (c : Char) (s : String)
      → u.is_digit (code c) ≡ true
      → step_size (scan_number lib u (String.◌∷◌ c s)) ≤ size s
  unfolding scan_number step_size scan_while
  number_size c s h =
      let digits = scan_while (λ c. u.is_digit c || c == b'.') s in
      ground (
        arith,
        while_size (λ c. u.is_digit c || c == b'.') s,
        while_size (λ c. u.is_letter c || u.is_digit c) digits.1,
      )

  ident_size : (c : Char) (s : String) → step_size (scan_ident lib u c s) ≤ size s
  unfolding scan_ident step_size
  ident_size c s = ground (arith, while_size (is_ident_rune lib u) s)

  next_step-size : (c : Char) (s : String) → step_size (next_step lib u c s) ≤ size s
  unfolding next_step step_size
  next_step-size c s =
      ground (arith, operator_size c s, string_size c s, number_size c s, ident_size c s)

  -- The text has these tokens.
  pub data Scans : String → List Token → Type 0 where
    done : Scans "" []
    skip :
        (c : Char) (s rest : String) (ts : List Token)
        → next_step lib u c s ≡ skipped rest
        → Scans rest ts
        → Scans (String.◌∷◌ c s) ts
    scan :
        (c : Char) (s rest : String) (t : Token) (ts : List Token)
        → next_step lib u c s ≡ scanned t rest
        → Scans rest ts
        → Scans (String.◌∷◌ c s) (t ∷ ts)

  tokenize_from-Scans :
      (fuel : ℕ) (s : String) (ts : List Token)
      → size s ≤ fuel
      → Scans s ts
      → tokenize_from lib u fuel s ≡ ok ts
  unfolding tokenize_from step_size
  tokenize_from-Scans fuel _ _ le done = refl
  tokenize_from-Scans zero _ _ le (skip c s rest ts e sc) = ground arith
  tokenize_from-Scans zero _ _ le (scan c s rest t ts e sc) = ground arith
  tokenize_from-Scans (suc fuel) _ _ le (skip c s rest ts e sc) =
      let shorter = next_step-size c s in
      let left : step_size (next_step lib u c s) ≡ size rest = ap step_size e in
      rw e (tokenize_from-Scans fuel rest ts (omega arith) sc)
  tokenize_from-Scans (suc fuel) _ _ le (scan c s rest t ts e sc) =
      let shorter = next_step-size c s in
      let left : step_size (next_step lib u c s) ≡ size rest = ap step_size e in
      rw e (rw (tokenize_from-Scans fuel rest ts (omega arith) sc) refl)

  -- The tokenizer returns the tokens of the text.
  pub tokenize-Scans : (s : String) (ts : List Token) → Scans s ts → tokenize lib u s ≡ ok ts
  unfolding tokenize
  tokenize-Scans s ts sc = tokenize_from-Scans (size s) s ts (omega arith) sc

  after_step-returns :
      (loop : String → Run (List Token)) (st : Step) (n : ℕ)
      → ((s : String) → size s ≤ n → loop s ≢ out_of_fuel)
      → step_size st ≤ n
      → after_step loop st ≢ out_of_fuel
  unfolding after_step step_size
  after_step-returns loop (skipped rest) n h le = h rest le
  after_step-returns loop (scanned t rest) n h le = ground (arith, h rest le)
  after_step-returns loop refused n h le = cc

  terminates_from :
      (fuel : ℕ) (s : String) → size s ≤ fuel → tokenize_from lib u fuel s ≢ out_of_fuel
  unfolding tokenize_from
  terminates_from fuel String.[] le = cc
  terminates_from zero (String.◌∷◌ c s) le = ground arith
  terminates_from (suc fuel) (String.◌∷◌ c s) le =
      let shorter = next_step-size c s in
      after_step-returns (tokenize_from lib u fuel) (next_step lib u c s) fuel
        (terminates_from fuel) (omega arith)

  -- The tokenizer ends within its fuel, on every text.
  pub tokenize_terminates : (s : String) → tokenize lib u s ≢ out_of_fuel
  unfolding tokenize
  tokenize_terminates s = terminates_from (size s) s (omega arith)

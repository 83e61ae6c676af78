-- ===== src/Lucene.antt =====
-- acceptor/elasticsearchacceptor/lucene.go: the parser of Lucene queries. The tokens that the parser has
-- not read are a list, and the token at the end of the input is the end of the list.
pub mod Returns
pub mod Lexing
pub mod Termination
use opentelemetry_querier.Base.{
  ℕ, zero, suc, ◌+◌, ◌*◌, String, Bool, true, false, ◌&&◌, ◌||◌, not, Option, none, some, List, [],
  ◌∷◌, ◌==◌, size, length, equal_fold, str_eq, if◌then◌else◌,
}
use Prim.Native.Char.{Char, code}
use opentelemetry_querier.Golib.{Unicode}
use opentelemetry_querier.Qdata.Predicate.{
  equal, Predicate, BoolOp, conj, disj, negation, leaf_predicate, bool_predicate, nil,
}
use opentelemetry_querier.Qdata.Plan.{Node, select, QueryPlan, plan_of, signal_logs}

-- The errors of the parser; `out_of_fuel` is none of the program.
pub data LuceneError : Type 0 where
  syntax trailing unbalanced : LuceneError

pub data Parsed {ℓ} (A : Type ℓ) : Type ℓ where
  ok : A → Parsed A
  failed : LuceneError → Parsed A
  out_of_fuel : Parsed A

infixl 5 ◌>>=◌
abbrev pub ◌>>=◌ {ℓ κ} : {A : Type ℓ} {B : Type κ} → Parsed A → (A → Parsed B) → Parsed B
ok a >>= f = f a
failed e >>= f = failed e
out_of_fuel >>= f = out_of_fuel

-- `luceneToken`: a term with its text and whether it was quoted, or a mark
pub data Token : Type 0 where
  term : String → Bool → Token
  colon lparen rparen and_mark or_mark not_mark : Token

abbrev pub Tokens : Type 0
Tokens = List Token

-- `punctToken`
unfoldable pub punct_token : ℕ → Option Token
punct_token c =
    if c == b':'
    then some colon
    else if c == b'('
    then some lparen
    else if c == b')'
    then some rparen
    else if c == b'-' || c == b'!'
    then some not_mark
    else none

-- `keywordToken`
unfoldable pub keyword_token : String → Token
keyword_token word =
    if equal_fold word "AND" || str_eq word "&&"
    then and_mark
    else if equal_fold word "OR" || str_eq word "||"
    then or_mark
    else if equal_fold word "NOT"
    then not_mark
    else term word false

abbrev put : Char → String × String → String × String
put c (value, rest) = (String.◌∷◌ c value, rest)

-- `scanQuoted`, behind the quote: the value and the rest, which is empty if no quote closes it
unfoldable pub scan_quoted : String → String × String
scan_quoted String.[] = ("", "")
scan_quoted (String.◌∷◌ c String.[]) = if code c == b'"' then ("", "") else (String.◌∷◌ c "", "")
scan_quoted (String.◌∷◌ c (String.◌∷◌ d s)) = elim (code c == b'\\') [
  | true ↦ put d (scan_quoted s)
  | false ↦ elim (code c == b'"') [
    | true ↦ ("", String.◌∷◌ d s)
    | false ↦ put c (scan_quoted (String.◌∷◌ d s))
  ]
]

-- What one round of the loop does.
pub data Step : Type 0 where
  skipped : String → Step
  scanned : Token → String → Step

module _ (u : Unicode) where
  -- `isBarewordBoundary`
  abbrev pub is_boundary : ℕ → Bool
  is_boundary c = u.is_space c || c == b':' || c == b'(' || c == b')' || c == b'"'

  -- `scanBareword`: the word and the rest
  unfoldable pub scan_bareword : String → String × String
  scan_bareword String.[] = ("", "")
  scan_bareword (String.◌∷◌ c s) =
      let (word, rest) = scan_bareword s in
      if is_boundary (code c) then ("", String.◌∷◌ c s) else (String.◌∷◌ c word, rest)

  -- the default case of the switch
  unfoldable pub mark_or_word : Char → String → Step
  unfolding punct_token keyword_token scan_bareword
  mark_or_word c s = elim (punct_token (code c)) [
    | some t ↦ scanned t s
    | none ↦
        (let (word, rest) = scan_bareword (String.◌∷◌ c s) in scanned (keyword_token word) rest)
  ]

  -- the switch on the next rune
  unfoldable pub next_step : Char → String → Step
  unfolding scan_quoted mark_or_word
  next_step c s =
      if u.is_space (code c) || code c == b'+'
      then skipped s
      else if code c == b'"'
      then (let (value, rest) = scan_quoted s in scanned (term value true) rest)
      else mark_or_word c s

  -- the end of a round: on to the next one, which is `loop`
  unfoldable pub after_step : (String → Parsed Tokens) → Step → Parsed Tokens
  after_step loop (skipped rest) = loop rest
  after_step loop (scanned token rest) = do tokens ← loop rest; ok (token ∷ tokens)

  -- the loop of `tokenizeLucene`, a round for each unit of fuel
  unfoldable pub tokenize_from : ℕ → String → Parsed Tokens
  unfolding next_step after_step
  tokenize_from fuel String.[] = ok []
  tokenize_from zero (String.◌∷◌ c s) = out_of_fuel
  tokenize_from (suc fuel) (String.◌∷◌ c s) = after_step (tokenize_from fuel) (next_step c s)

  -- `tokenizeLucene`
  unfoldable pub tokenize : String → Parsed Tokens
  unfolding tokenize_from
  tokenize input = tokenize_from (size input) input

abbrev pub default_field : String
default_field = "message"

-- `leafEqual`
abbrev pub leaf_equal : String → String → Predicate
leaf_equal name value = leaf_predicate (record { name = name; op = equal; value = value })

-- `parseClause`
unfoldable pub parse_clause : Tokens → Parsed (Predicate × Tokens)
parse_clause (term field q ∷ colon ∷ term value q' ∷ ts) = ok (leaf_equal field value, ts)
parse_clause (term field q ∷ colon ∷ ts) = failed syntax
parse_clause (term value q ∷ ts) = ok (leaf_equal default_field value, ts)
parse_clause ts = failed syntax

-- one operand, or all of them under the operator
unfoldable pub joined : BoolOp → Predicate → List Predicate → Predicate
joined op p [] = p
joined op p (q ∷ ps) = bool_predicate op (p ∷ q ∷ ps)

-- the closing parenthesis of `parsePrimary`
unfoldable pub closed : Predicate → Tokens → Parsed (Predicate × Tokens)
closed inner (rparen ∷ ts) = ok (inner, ts)
closed inner ts = failed unbalanced

-- an explicit AND between operands
unfoldable pub skip_and : Tokens → Tokens
skip_and (and_mark ∷ ts) = ts
skip_and ts = ts

-- what ends the loop of `parseAnd`
unfoldable pub ends_and : Tokens → Bool
ends_and [] = true
ends_and (or_mark ∷ ts) = true
ends_and (rparen ∷ ts) = true
ends_and ts = false

-- `parseNot` and `parsePrimary`, with `parseOr` for what stands in parentheses
unfoldable pub parse_not :
    (Tokens → Parsed (Predicate × Tokens)) → Tokens → Parsed (Predicate × Tokens)
unfolding parse_clause closed
parse_not inner (not_mark ∷ ts) =
    let operand = parse_not inner ts in
    do (p, rest) ← operand; ok (bool_predicate negation (p ∷ []), rest)
parse_not inner (lparen ∷ ts) = do (p, rest) ← inner ts; closed p rest
parse_not inner ts = parse_clause ts

-- A predicate, the ones behind it, and the tokens that are left.
abbrev pub Operands : Type 0
Operands = Predicate × List Predicate × Tokens

module _ (inner : Tokens → Parsed (Predicate × Tokens)) where
  -- the end of a round of the loop of `parseAnd`
  unfoldable pub more_and : (Tokens → Parsed Operands) → Predicate → Tokens → Parsed Operands
  unfolding ends_and
  more_and loop p ts =
      if ends_and ts then ok (p, [], ts) else (do (q, ps, rest) ← loop ts; ok (p, q ∷ ps, rest))

  -- the loop, a round for each unit of fuel
  unfoldable pub and_operands : ℕ → Tokens → Parsed Operands
  unfolding parse_not skip_and more_and
  and_operands zero ts = out_of_fuel
  and_operands (suc fuel) ts = do
    (p, rest) ← parse_not inner ts
    more_and (and_operands fuel) p (skip_and rest)

  -- `parseAnd`
  unfoldable pub parse_and : Tokens → Parsed (Predicate × Tokens)
  unfolding and_operands joined
  parse_and ts = do (p, ps, rest) ← and_operands (suc (length ts)) ts; ok (joined conj p ps, rest)

  -- the rounds of `parseOperandList` behind an operand
  unfoldable pub next_operand : (Tokens → Parsed Operands) → Predicate → Tokens → Parsed Operands
  next_operand loop p (or_mark ∷ ts) = do (q, ps, rest) ← loop ts; ok (p, q ∷ ps, rest)
  next_operand loop p ts = ok (p, [], ts)

  -- `parseOperandList` of `parseAnd`, a round for each unit of fuel
  unfoldable pub or_operands : ℕ → Tokens → Parsed Operands
  unfolding parse_and next_operand
  or_operands zero ts = out_of_fuel
  or_operands (suc fuel) ts = do (p, rest) ← parse_and ts; next_operand (or_operands fuel) p rest

-- `parseOr`, a call for each unit of fuel
unfoldable pub parse_or : ℕ → Tokens → Parsed (Predicate × Tokens)
unfolding or_operands joined
parse_or zero ts = out_of_fuel
parse_or (suc fuel) ts = do
  (p, ps, rest) ← or_operands (parse_or fuel) (suc (length ts)) ts
  ok (joined disj p ps, rest)

-- `qdata.SelectNode` at logs without line filters
abbrev pub select_logs : Predicate → QueryPlan
select_logs p = plan_of (select (record { signal = signal_logs; filter = p; line = [] }))

-- `matchAllOnly`
unfoldable pub match_all_only : Tokens → Bool
match_all_only (term value false ∷ []) = str_eq value "*"
match_all_only ts = false

-- the end of `parseLucene`: nothing is left
unfoldable pub whole : Predicate → Tokens → Parsed QueryPlan
unfolding plan_of
whole p [] = ok (select_logs p)
whole p (t ∷ ts) = failed trailing

-- `parseLucene` behind the tokenizer
unfoldable pub parse_tokens : Tokens → Parsed QueryPlan
unfolding match_all_only parse_or whole plan_of
parse_tokens ts =
    if match_all_only ts
    then ok (select_logs nil)
    else (do (p, rest) ← parse_or (suc (length ts)) ts; whole p rest)

-- `parseLucene`
unfoldable pub parse_lucene : Unicode → String → Parsed QueryPlan
unfolding tokenize parse_tokens
parse_lucene u input = do tokens ← tokenize u input; parse_tokens tokens

-- ===== src/Loki/Scan.antt =====
-- acceptor/lokiacceptor/logqlparse.go, the tokenizer. The runes that the loop has not read are the
-- rest of the text, and the token at the end of the input is the end of the list of tokens.
use opentelemetry_querier.Base.{
  ℕ, zero, suc, String, Bool, true, false, ◌&&◌, ◌||◌, not, Option, none, some, List, [], ◌∷◌, ◌==◌,
  ◌<>◌, size, if◌then◌else◌,
}
use Prim.Native.Char.{Char, code}
use opentelemetry_querier.Golib.{Strconv, Unicode}

-- The errors of the tokenizer and the parser; `out_of_fuel` is none of the program.
pub data LogqlError : Type 0 where
  syntax duration empty_selector : LogqlError

pub data Run {ℓ} (A : Type ℓ) : Type ℓ where
  ok : A → Run A
  failed : LogqlError → Run A
  out_of_fuel : Run A

infixl 5 ◌>>=◌
abbrev pub ◌>>=◌ {ℓ κ} : {A : Type ℓ} {B : Type κ} → Run A → (A → Run B) → Run B
ok a >>= f = f a
failed e >>= f = failed e
out_of_fuel >>= f = out_of_fuel

-- the kinds of brackets, and the comma
pub data Punct : Type 0 where
  lbrace rbrace lparen rparen lbracket rbracket comma : Punct

-- `logqlToken`: a kind with the value where the parser reads it
pub data Token : Type 0 where
  ident : String → Token
  str : String → Token
  number : String → Token
  punct : Punct → Token
  match_op : String → Token
  line_op : String → Token

abbrev pub one : Char → String
one c = String.◌∷◌ c ""

abbrev pub two : Char → Char → String
two c d = String.◌∷◌ c (one d)

-- `bracketKind`
unfoldable pub bracket_kind : ℕ → Punct
bracket_kind c =
    if c == b'{'
    then lbrace
    else if c == b'}'
    then rbrace
    else if c == b'('
    then lparen
    else if c == b')'
    then rparen
    else if c == b'['
    then lbracket
    else if c == b']'
    then rbracket
    else comma

-- `strings.ContainsRune("{}()[],", char)`
unfoldable pub is_bracket : ℕ → Bool
is_bracket c =
    c == b'{' || c == b'}' || c == b'(' || c == b')' || c == b'[' || c == b']' || c == b','

-- `strings.ContainsRune("=!|~", char)`
unfoldable pub is_operator : ℕ → Bool
is_operator c = c == b'=' || c == b'!' || c == b'|' || c == b'~'

-- the quotes: a double quote, and the backquote
unfoldable pub is_quote : ℕ → Bool
is_quote c = c == b'"' || c == 96

-- What one round of the loop does.
pub data Step : Type 0 where
  skipped : String → Step
  scanned : Token → String → Step
  refused : Step

-- the part of `scanOperator` behind the operators of two characters
unfoldable pub lone_operator : Char → String → Step
lone_operator c s = if code c == b'=' then scanned (match_op "=") s else scanned (ident (one c)) s

-- `scanOperator`
unfoldable pub scan_operator : Char → String → Step
unfolding lone_operator
scan_operator c String.[] = lone_operator c ""
scan_operator c (String.◌∷◌ d s) =
    if (code c == b'=' && code d == b'~') || (code c == b'!' && (code d == b'~' || code d == b'='))
    then scanned (match_op (two c d)) s
    else if code c == b'|' && (code d == b'=' || code d == b'~')
    then scanned (line_op (two c d)) s
    else lone_operator c (String.◌∷◌ d s)

abbrev pub put : Char → Option (String × String) → Option (String × String)
put c none = none
put c (some (raw, rest)) = some (String.◌∷◌ c raw, rest)

-- a backslash in double quotes
abbrev pub is_escape : ℕ → Char → Bool
is_escape quote c = code c == b'\\' && quote == b'"'

-- the loop of `scanString`: the runes up to the closing quote, and the rest
unfoldable pub scan_body : ℕ → String → Option (String × String)
scan_body quote String.[] = none
scan_body quote (String.◌∷◌ c String.[]) =
    if not (is_escape quote c) && code c == quote then some (one c, "") else none
scan_body quote (String.◌∷◌ c (String.◌∷◌ d s)) = elim (is_escape quote c) [
  | true ↦ put c (put d (scan_body quote s))
  | false ↦ elim (code c == quote) [
    | true ↦ some (one c, String.◌∷◌ d s)
    | false ↦ put c (scan_body quote (String.◌∷◌ d s))
  ]
]

-- `scanWhile`: the runes that pass the test, and the rest
unfoldable pub scan_while : (ℕ → Bool) → String → String × String
scan_while keep String.[] = ("", "")
scan_while keep (String.◌∷◌ c s) =
    let (word, rest) = scan_while keep s in
    if keep (code c) then (String.◌∷◌ c word, rest) else ("", String.◌∷◌ c s)

-- the end of a round: on to the next one, which is `loop`
unfoldable pub after_step : (String → Run (List Token)) → Step → Run (List Token)
after_step loop (skipped rest) = loop rest
after_step loop (scanned token rest) = do tokens ← loop rest; ok (token ∷ tokens)
after_step loop refused = failed syntax

module _ (lib : Strconv) (u : Unicode) where
  -- `isIdentRune`
  abbrev pub is_ident_rune : ℕ → Bool
  is_ident_rune c = u.is_letter c || u.is_digit c || c == b'_'

  -- the case of a string in the loop: `scanString`, with its error
  unfoldable pub scan_string : Char → String → Step
  unfolding scan_body
  scan_string c s = elim (scan_body (code c) s) [
    | none ↦ refused
    | some (raw, rest) ↦ elim (lib.unquote (String.◌∷◌ c raw)) [
      | none ↦ refused
      | some value ↦ scanned (str value) rest
    ]
  ]

  -- the two loops of `scanNumberOrDuration`
  unfoldable pub scan_number : String → Step
  unfolding scan_while
  scan_number s =
      let (digits, after) = scan_while (λ c. u.is_digit c || c == b'.') s in
      let (suffix, rest) = scan_while (λ c. u.is_letter c || u.is_digit c) after in
      scanned (number (digits <> suffix)) rest

  -- the default case: a name, or one rune on its own
  unfoldable pub scan_ident : Char → String → Step
  unfolding scan_while
  scan_ident c s =
      let (word, rest) = scan_while is_ident_rune s in
      if is_ident_rune (code c)
      then scanned (ident (String.◌∷◌ c word)) rest
      else scanned (ident (one c)) s

  -- the switch on the next rune
  unfoldable pub next_step : Char → String → Step
  unfolding is_quote is_bracket is_operator bracket_kind scan_operator scan_string scan_number
      scan_ident
  next_step c s =
      if u.is_space (code c)
      then skipped s
      else if is_quote (code c)
      then scan_string c s
      else if is_bracket (code c)
      then scanned (punct (bracket_kind (code c))) s
      else if is_operator (code c)
      then scan_operator c s
      else if u.is_digit (code c)
      then scan_number (String.◌∷◌ c s)
      else scan_ident c s

  -- the loop of `tokenizeLogQL`, a round for each unit of fuel
  unfoldable pub tokenize_from : ℕ → String → Run (List Token)
  unfolding next_step after_step
  tokenize_from fuel String.[] = ok []
  tokenize_from zero (String.◌∷◌ c s) = out_of_fuel
  tokenize_from (suc fuel) (String.◌∷◌ c s) = after_step (tokenize_from fuel) (next_step c s)

  -- `tokenizeLogQL`: each round reads a rune at least.
  unfoldable pub tokenize : String → Run (List Token)
  unfolding tokenize_from
  tokenize input = tokenize_from (size input) input

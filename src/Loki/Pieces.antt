-- ===== src/Loki/Pieces.antt =====
-- acceptor/lokiacceptor/logqlparse.go, the tokenizer: the tokens of the pieces that the renderer of
-- dispatcher/lokidispatcher/logql.go puts together.
use opentelemetry_querier.Base.{
  ℕ, String, Bool, true, false, ◌&&◌, ◌||◌, not, List, ◌∷◌, ◌==◌, ◌<>◌, ltb, if◌then◌else◌, ◌≡◌,
  refl, ◌∙◌, arith, text_assoc,
}
use Prim.Native.Char.{Char, code}
use opentelemetry_querier.Golib.{Strconv, Unicode, ascii_space, ascii_digit, ascii_letter}
use opentelemetry_querier.Golib.Literals.{UnicodeLaws, every, is_numeral}
use opentelemetry_querier.Qdata.Identifier.{valid_identifier, valid_from, starts_name, is_word}
use opentelemetry_querier.Loki.Scan.{
  Token, ident, number, punct, Punct, lbrace, rbrace, lparen, rparen, lbracket, rbracket, comma,
  skipped, scanned, scan_while, scan_string, scan_number, scan_ident, is_ident_rune, next_step,
  scan_operator, is_quote, is_bracket, is_operator, bracket_kind,
}
use opentelemetry_querier.Loki.Lexing.{Scans, skip, scan}

-- The text begins with no character that a name or a number goes on with.
abbrev pub breaks : String → Bool
breaks String.[] = true
breaks (String.◌∷◌ c s) = ltb (code c) 128 && not (is_word (code c)) && not (code c == b'.')

-- the character of a bracket, and of the comma
abbrev pub mark : Punct → Char
mark lbrace = "{"
mark rbrace = "}"
mark lparen = "("
mark rparen = ")"
mark lbracket = "["
mark rbracket = "]"
mark comma = ","

module _ (lib : Strconv) (u : Unicode) (laws : UnicodeLaws u) where
  -- The text has these tokens, in front of any text that breaks it off.
  abbrev pub Lexes : String → (List Token → List Token) → Type 0
  Lexes a f =
      (rest : String) (ts : List Token)
      → breaks rest ≡ true
      → Scans lib u rest ts
      → Scans lib u (a <> rest) (f ts)

  -- A piece in front of a piece that breaks it off.
  pub Lexes-append :
      (a b : String) (f g : List Token → List Token)
      → Lexes a f
      → ((rest : String) → breaks rest ≡ true → breaks (b <> rest) ≡ true)
      → Lexes b g
      → Lexes (a <> b) (λ ts. f (g ts))
  Lexes-append a b f g la o lb rest ts br sc =
      rw (text_assoc a b rest) (la (b <> rest) (g ts) (o rest br) (lb rest ts br sc))

  word_rune : (c : ℕ) → is_word c ≡ true → is_ident_rune lib u c ≡ true
  word_rune c h = ground (arith, laws.letter c, laws.digit c)

  break_rune : (c : ℕ) → ltb c 128 ≡ true → is_word c ≡ false → is_ident_rune lib u c ≡ false
  break_rune c h k = ground (arith, laws.letter c h, laws.digit c h)

  -- a round at a character of ASCII
  pub ascii_step :
      (c : Char) (s : String)
      → ltb (code c) 128 ≡ true
      → next_step lib u c s ≡ (
          if ascii_space (code c)
          then skipped s
          else if is_quote (code c)
          then scan_string lib u c s
          else if is_bracket (code c)
          then scanned (punct (bracket_kind (code c))) s
          else if is_operator (code c)
          then scan_operator c s
          else if ascii_digit (code c)
          then scan_number lib u (String.◌∷◌ c s)
          else scan_ident lib u c s)
  unfolding next_step
  ascii_step c s h = rw (laws.space (code c) h) (rw (laws.digit (code c) h) refl)

  pub Lexes-space : (b : String) (g : List Token → List Token) → Lexes b g → Lexes (" " <> b) g
  unfolding is_quote
  Lexes-space b g lb rest ts br sc =
      skip _ (b <> rest) (b <> rest) (g ts) (ascii_step _ (b <> rest) refl) (lb rest ts br sc)

  -- a bracket or a comma
  Lexes-bracket :
      (c : Char) (b : String) (g : List Token → List Token)
      → (ltb (code c) 128
          && not (ascii_space (code c))
          && not (is_quote (code c))
          && is_bracket (code c))
        ≡ true
      → Lexes b g
      → Lexes (String.◌∷◌ c b) (λ ts. punct (bracket_kind (code c)) ∷ g ts)
  Lexes-bracket c b g h lb rest ts br sc =
      scan c (b <> rest) (b <> rest) (punct (bracket_kind (code c))) (g ts)
        (ascii_step c (b <> rest) (ground arith) ∙ ground arith) (lb rest ts br sc)

  pub Lexes-punct :
      (p : Punct) (b : String) (g : List Token → List Token)
      → Lexes b g
      → Lexes (String.◌∷◌ (mark p) b) (λ ts. punct p ∷ g ts)
  unfolding is_quote is_bracket bracket_kind
  Lexes-punct lbrace b g lb = Lexes-bracket "{" b g refl lb
  Lexes-punct rbrace b g lb = Lexes-bracket "}" b g refl lb
  Lexes-punct lparen b g lb = Lexes-bracket "(" b g refl lb
  Lexes-punct rparen b g lb = Lexes-bracket ")" b g refl lb
  Lexes-punct lbracket b g lb = Lexes-bracket "[" b g refl lb
  Lexes-punct rbracket b g lb = Lexes-bracket "]" b g refl lb
  Lexes-punct comma b g lb = Lexes-bracket "," b g refl lb

  scan_while-append :
      (keep : ℕ → Bool) (a rest : String)
      → every keep a ≡ true
      → (scan_while keep rest ≡ ("", rest))
      → scan_while keep (a <> rest) ≡ (a, rest)
  unfolding scan_while
  scan_while-append keep String.[] rest h e = e
  scan_while-append keep (String.◌∷◌ c a) rest h e =
      let ih = scan_while-append keep a rest (ground arith) e in rw ih (ground arith)

  scan_while-stop :
      (keep : ℕ → Bool) (c : Char) (s : String)
      → keep (code c) ≡ false
      → scan_while keep (String.◌∷◌ c s) ≡ ("", String.◌∷◌ c s)
  unfolding scan_while
  scan_while-stop keep c s h = rw h refl

  scan_while-breaks :
      (keep : ℕ → Bool) (s : String)
      → ((c : ℕ) → ltb c 128 ≡ true → is_word c ≡ false → (c == b'.') ≡ false → keep c ≡ false)
      → breaks s ≡ true
      → scan_while keep s ≡ ("", s)
  unfolding scan_while
  scan_while-breaks keep String.[] h br = refl
  scan_while-breaks keep (String.◌∷◌ c s) h br =
      scan_while-stop keep c s (h (code c) (ground arith) (ground arith) (ground arith))

  every_word :
      (later : Bool) (s : String) → valid_from later s ≡ true → every (is_ident_rune lib u) s ≡ true
  unfolding valid_from
  every_word later String.[] h = refl
  every_word later (String.◌∷◌ c s) h = ground (arith, word_rune (code c), every_word true s)

  name_step :
      (c : Char) (s : String)
      → starts_name (code c) ≡ true
      → next_step lib u c s ≡ scan_ident lib u c s
  unfolding is_quote is_bracket is_operator
  name_step c s h = ascii_step c s (ground arith) ∙ ground arith

  digit_step :
      (c : Char) (s : String)
      → ascii_digit (code c) ≡ true
      → next_step lib u c s ≡ scan_number lib u (String.◌∷◌ c s)
  unfolding is_quote is_bracket is_operator
  digit_step c s h = ascii_step c s (ground arith) ∙ ground arith

  ident_split :
      (c : Char) (s word rest : String)
      → is_ident_rune lib u (code c) ≡ true
      → scan_while (is_ident_rune lib u) s ≡ (word, rest)
      → scan_ident lib u c s ≡ scanned (ident (String.◌∷◌ c word)) rest
  unfolding scan_ident
  ident_split c s word rest h e = rw e (rw h refl)

  -- a name, which is broken off by what follows
  pub Lexes-name :
      (name : String) → valid_identifier name ≡ true → Lexes name (λ ts. ident name ∷ ts)
  unfolding valid_identifier valid_from
  Lexes-name String.[] h rest ts br sc = cc
  Lexes-name (String.◌∷◌ c s) h rest ts br sc =
      let words = every_word true s (ground arith) in
      let split =
        scan_while-append (is_ident_rune lib u) s rest words
          (scan_while-breaks (is_ident_rune lib u) rest (λ c a b d. break_rune c a b) br) in
      let starts : starts_name (code c) ≡ true = ground arith in
      let first = word_rune (code c) (ground arith) in
      scan c (s <> rest) rest (ident (String.◌∷◌ c s)) ts
        (name_step c (s <> rest) starts ∙ ident_split c (s <> rest) s rest first split) sc

  number_split :
      (s digits after suffix rest : String)
      → scan_while (λ c. u.is_digit c || c == b'.') s ≡ (digits, after)
      → scan_while (λ c. u.is_letter c || u.is_digit c) after ≡ (suffix, rest)
      → scan_number lib u s ≡ scanned (number (digits <> suffix)) rest
  unfolding scan_number
  number_split s digits after suffix rest e e' = rw e (rw e' refl)

  every_digit :
      (s : String)
      → every (λ c. ascii_digit c || c == b'.') s ≡ true
      → every (λ c. u.is_digit c || c == b'.') s ≡ true
  every_digit String.[] h = refl
  every_digit (String.◌∷◌ c s) h = ground (arith, laws.digit (code c), every_digit s)

  every_letter :
      (s : String)
      → every ascii_letter s ≡ true
      → every (λ c. u.is_letter c || u.is_digit c) s ≡ true
  every_letter String.[] h = refl
  every_letter (String.◌∷◌ c s) h = ground (arith, laws.letter (code c), every_letter s)

  -- The digits of a number end where the letters behind them begin, or the text is broken off.
  digits_end :
      (suffix rest : String)
      → every ascii_letter suffix ≡ true
      → breaks rest ≡ true
      → scan_while (λ c. u.is_digit c || c == b'.') (suffix <> rest) ≡ ("", suffix <> rest)
  digits_end String.[] rest h br =
      scan_while-breaks (λ c. u.is_digit c || c == b'.') rest
        (λ c a b d. ground (arith, laws.digit c a)) br
  digits_end (String.◌∷◌ c suffix) rest h br =
      scan_while-stop (λ c. u.is_digit c || c == b'.') c (suffix <> rest)
        (ground (arith, laws.digit (code c)))

  -- a number with the letters of a unit behind it
  pub Lexes-number :
      (digits suffix : String)
      → is_numeral digits ≡ true
      → every ascii_letter suffix ≡ true
      → Lexes (digits <> suffix) (λ ts. number (digits <> suffix) ∷ ts)
  Lexes-number String.[] suffix h k rest ts br sc = cc
  Lexes-number (String.◌∷◌ c s) suffix h k rest ts br sc =
      let digit = digit_step c ((s <> suffix) <> rest) (ground arith) in
      let all_digits : every (λ c. ascii_digit c || c == b'.') (String.◌∷◌ c s) ≡ true =
        ground arith in
      let head =
        scan_while-append (λ c. u.is_digit c || c == b'.') (String.◌∷◌ c s) (suffix <> rest)
          (every_digit (String.◌∷◌ c s) all_digits) (digits_end suffix rest k br) in
      let tail =
        scan_while-append (λ c. u.is_letter c || u.is_digit c) suffix rest (every_letter suffix k)
          (scan_while-breaks (λ c. u.is_letter c || u.is_digit c) rest
            (λ c a b d. ground (arith, laws.digit c a, laws.letter c a)) br) in
      let whole =
        number_split (String.◌∷◌ c (s <> (suffix <> rest))) (String.◌∷◌ c s) (suffix <> rest) suffix
          rest head tail in
      scan c ((s <> suffix) <> rest) rest (number (String.◌∷◌ c (s <> suffix))) ts
        (digit ∙ rw (text_assoc s suffix rest) whole) sc

-- ===== src/Loki/Quotes.antt =====
-- acceptor/lokiacceptor/logqlparse.go, the tokenizer: the tokens of quoted values, and of the
-- operators of dispatcher/lokidispatcher/logql.go.
use opentelemetry_querier.Base.{
  String, true, false, ◌&&◌, not, some, List, ◌∷◌, ◌==◌, ◌<>◌, ltb, ◌≡◌, ◌≢◌, refl, ap, sym, ◌∙◌,
  arith,
}
use Prim.Native.Char.{Char, code}
use opentelemetry_querier.Golib.{Strconv, Unicode, ascii_space}
use opentelemetry_querier.Golib.Literals.{StrconvLaws, UnicodeLaws, Body, close, plain, escaped}
use opentelemetry_querier.Loki.Scan.{
  Token, str, scanned, put, scan_body, scan_string, next_step, scan_operator, is_quote, is_bracket,
  is_operator, match_op, line_op,
}
use opentelemetry_querier.Loki.Lexing.{scan}
use opentelemetry_querier.Qerror.{ok}
use opentelemetry_querier.Qdata.Predicate.{MatchOp, equal, not_equal, regexp, not_regexp}
use opentelemetry_querier.Loki.Render.{match_op_symbol, line_filter_symbol}
use opentelemetry_querier.Loki.Pieces.{Lexes, ascii_step, Lexes-space}

-- the token of the operator of a line filter
unfoldable pub line_token : MatchOp → Token
line_token equal = line_op "|="
line_token not_equal = match_op "!="
line_token regexp = line_op "|~"
line_token not_regexp = match_op "!~"
line_token (MatchOp.unknown n) = match_op ""

module _ (lib : Strconv) (u : Unicode) (laws : UnicodeLaws u) where
  body_plain :
      (c d : Char) (s : String)
      → (code c == b'"') ≡ false
      → (code c == b'\\') ≡ false
      → scan_body b'"' (String.◌∷◌ c (String.◌∷◌ d s)) ≡ put c (scan_body b'"' (String.◌∷◌ d s))
  unfolding scan_body
  body_plain c d s p q = ground arith

  body_escaped :
      (c d : Char) (s : String)
      → (code c == b'\\') ≡ true
      → scan_body b'"' (String.◌∷◌ c (String.◌∷◌ d s)) ≡ put c (put d (scan_body b'"' s))
  unfolding scan_body
  body_escaped c d s p = ground arith

  body_close : (rest : String) → scan_body b'"' ("\"" <> rest) ≡ some ("\"", rest)
  unfolding scan_body
  body_close String.[] = refl
  body_close (String.◌∷◌ d rest) = refl

  Body-not_empty : (s : String) → Body s → s ≢ ""
  Body-not_empty _ (close s e) h = cc
  Body-not_empty _ (plain c s p q b) h = cc
  Body-not_empty _ (escaped c d s p b) h = cc

  -- A literal ends where its body does.
  scan_body-append :
      (body rest : String) → Body body → scan_body b'"' (body <> rest) ≡ some (body, rest)
  scan_body-append _ rest (close s e) = rw e (body_close rest)
  scan_body-append _ rest (plain c String.[] p q b) = absurd (Body-not_empty "" b refl)
  scan_body-append _ rest (plain c (String.◌∷◌ d s) p q b) =
      let ih = scan_body-append (String.◌∷◌ d s) rest b in
      body_plain c d (s <> rest) p q ∙ ap (put c) ih
  scan_body-append _ rest (escaped c d s p b) =
      body_escaped c d (s <> rest) p ∙ ap (λ o. put c (put d o)) (scan_body-append s rest b)

  module _ (slaws : StrconvLaws lib) where
    quoted_step :
        (c : Char) (s body v rest : String)
        → scan_body (code c) s ≡ some (body, rest)
        → lib.unquote (String.◌∷◌ c body) ≡ some v
        → scan_string lib u c s ≡ scanned (str v) rest
    unfolding scan_string
    quoted_step c s body v rest e h = rw (e, scan_string) (rw h refl)

    -- a literal in quotes
    pub Lexes-quote : (v : String) → Lexes lib u laws (lib.quote v) (λ ts. str v ∷ ts)
    unfolding is_quote
    Lexes-quote v rest ts br sc =
        let (body, e, b) = slaws.quoted v in
        let unquoted : lib.unquote ("\"" <> body) ≡ some v =
          sym (ap lib.unquote e) ∙ slaws.unquoted v in
        rw e (
          scan _ (body <> rest) rest (str v) ts
            (ascii_step lib u laws _ (body <> rest) refl
              ∙ quoted_step _ (body <> rest) body v rest (scan_body-append body rest b) unquoted)
            sc)

    Lexes-equal :
        (v : String) → Lexes lib u laws ("=" <> lib.quote v) (λ ts. match_op "=" ∷ str v ∷ ts)
    unfolding is_quote is_bracket is_operator scan_operator
    Lexes-equal v rest ts br sc =
        let (body, e, b) = slaws.quoted v in
        let quoted = Lexes-quote v rest ts br sc in
        let next : scan_operator "=" (lib.quote v <> rest)
            ≡ scanned (match_op "=") (lib.quote v <> rest) =
          rw e refl in
        scan "=" (lib.quote v <> rest) (lib.quote v <> rest) (match_op "=") (str v ∷ ts)
          (ascii_step lib u laws "=" (lib.quote v <> rest) refl ∙ next) quoted

    -- an operator of two characters
    Lexes-operator :
        (c d : Char) (t : Token) (b : String) (g : List Token → List Token)
        → (ltb (code c) 128
            && not (ascii_space (code c))
            && not (is_quote (code c))
            && not (is_bracket (code c))
            && is_operator (code c))
          ≡ true
        → ((s : String) → scan_operator c (String.◌∷◌ d s) ≡ scanned t s)
        → Lexes lib u laws b g
        → Lexes lib u laws (String.◌∷◌ c (String.◌∷◌ d b)) (λ ts. t ∷ g ts)
    Lexes-operator c d t b g h k lb rest ts br sc =
        let step : next_step lib u c (String.◌∷◌ d (b <> rest))
            ≡ scan_operator c (String.◌∷◌ d (b <> rest)) =
          ascii_step lib u laws c (String.◌∷◌ d (b <> rest)) (ground arith) ∙ ground arith in
        scan c (String.◌∷◌ d (b <> rest)) (b <> rest) t (g ts) (step ∙ k (b <> rest))
          (lb rest ts br sc)

    spaced : (v : String) → Lexes lib u laws (" " <> lib.quote v) (◌∷◌ (str v))
    spaced v = Lexes-space lib u laws (lib.quote v) (◌∷◌ (str v)) (Lexes-quote v)

    -- an operator of a matcher, and its value
    pub Lexes-matcher :
        (op : MatchOp) (symbol v : String)
        → match_op_symbol op ≡ ok symbol
        → Lexes lib u laws (symbol <> lib.quote v) (λ ts. match_op symbol ∷ str v ∷ ts)
    unfolding match_op_symbol is_quote is_bracket is_operator scan_operator
    Lexes-matcher equal symbol v h = let e : symbol ≡ "=" = cc in rw e (Lexes-equal v)
    Lexes-matcher not_equal symbol v h =
        let e : symbol ≡ "!=" = cc in
        rw e (
          Lexes-operator "!" "=" (match_op "!=") (lib.quote v) (◌∷◌ (str v)) refl (λ s. refl)
            (Lexes-quote v))
    Lexes-matcher regexp symbol v h =
        let e : symbol ≡ "=~" = cc in
        rw e (
          Lexes-operator "=" "~" (match_op "=~") (lib.quote v) (◌∷◌ (str v)) refl (λ s. refl)
            (Lexes-quote v))
    Lexes-matcher not_regexp symbol v h =
        let e : symbol ≡ "!~" = cc in
        rw e (
          Lexes-operator "!" "~" (match_op "!~") (lib.quote v) (◌∷◌ (str v)) refl (λ s. refl)
            (Lexes-quote v))
    Lexes-matcher (MatchOp.unknown n) symbol v h = cc

    -- an operator of a line filter, and its text
    pub Lexes-line :
        (op : MatchOp) (symbol v : String)
        → line_filter_symbol op ≡ ok symbol
        → Lexes lib u laws (symbol <> (" " <> lib.quote v)) (λ ts. line_token op ∷ str v ∷ ts)
    unfolding line_filter_symbol is_quote is_bracket is_operator scan_operator line_token
    Lexes-line equal symbol v h =
        let e : symbol ≡ "|=" = cc in
        rw e (
          Lexes-operator "|" "=" (line_op "|=") (" " <> lib.quote v) (◌∷◌ (str v)) refl (λ s. refl)
            (spaced v))
    Lexes-line not_equal symbol v h =
        let e : symbol ≡ "!=" = cc in
        rw e (
          Lexes-operator "!" "=" (match_op "!=") (" " <> lib.quote v) (◌∷◌ (str v)) refl (λ s. refl)
            (spaced v))
    Lexes-line regexp symbol v h =
        let e : symbol ≡ "|~" = cc in
        rw e (
          Lexes-operator "|" "~" (line_op "|~") (" " <> lib.quote v) (◌∷◌ (str v)) refl (λ s. refl)
            (spaced v))
    Lexes-line not_regexp symbol v h =
        let e : symbol ≡ "!~" = cc in
        rw e (
          Lexes-operator "!" "~" (match_op "!~") (" " <> lib.quote v) (◌∷◌ (str v)) refl (λ s. refl)
            (spaced v))
    Lexes-line (MatchOp.unknown n) symbol v h = cc

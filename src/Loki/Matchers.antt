-- ===== src/Loki/Matchers.antt =====
-- dispatcher/lokidispatcher/logql.go and acceptor/lokiacceptor/logqlparse.go: the matchers of a stream
-- selector, as the one writes them and the other reads them.
use opentelemetry_querier.Base.{
  String, Bool, true, false, ◌&&◌, List, [], ◌∷◌, map, all, some, str_le, sort_texts, insert_text,
  join_with, ◌<>◌, if◌then◌else◌, ◌≡◌, refl, ap, ◌∙◌, arith,
}
use opentelemetry_querier.Qerror.{ok, ◌>>=◌}
use opentelemetry_querier.Qerror.Steps.{bind-ok}
use opentelemetry_querier.Golib.{Strconv, Unicode}
use opentelemetry_querier.Golib.Literals.{StrconvLaws, UnicodeLaws}
use opentelemetry_querier.Qdata.Identifier.{valid_identifier}
use opentelemetry_querier.Qdata.Predicate.{
  MatchOp, equal, not_equal, regexp, not_regexp, LabelMatcher, leaf_predicate,
}
use opentelemetry_querier.Loki.Scan.{Run, Token, ident, str, punct, match_op, comma, rbrace}
use opentelemetry_querier.Loki.Scan as Scan
use opentelemetry_querier.Loki.Render.{
  match_op_symbol, check_identifier, render_matcher, render_matchers,
}
use opentelemetry_querier.Loki.Parse.{Tokens, match_op_of, parse_matchers}
use opentelemetry_querier.Loki.Pieces.{breaks, Lexes, Lexes-append, Lexes-punct, Lexes-name}
use opentelemetry_querier.Loki.Quotes.{Lexes-matcher}

pub checked_identifier :
    (name text : String)
    → check_identifier name ≡ ok text
    → (valid_identifier name ≡ true) × (text ≡ name)
unfolding check_identifier
checked_identifier name text h = (ground arith, ground arith)

-- The symbol of an operator that has one.
unfoldable pub op_text : MatchOp → String
op_text equal = "="
op_text not_equal = "!="
op_text regexp = "=~"
op_text not_regexp = "!~"
op_text (MatchOp.unknown n) = ""

abbrev pub is_known : MatchOp → Bool
is_known (MatchOp.unknown n) = false
is_known _ = true

symbol-op_text :
    (op : MatchOp) (symbol : String)
    → match_op_symbol op ≡ ok symbol
    → (is_known op ≡ true) × (symbol ≡ op_text op)
unfolding match_op_symbol op_text
symbol-op_text equal symbol h = (refl, cc)
symbol-op_text not_equal symbol h = (refl, cc)
symbol-op_text regexp symbol h = (refl, cc)
symbol-op_text not_regexp symbol h = (refl, cc)
symbol-op_text (MatchOp.unknown n) symbol h = cc

known_symbol :
    (op : MatchOp)
    → is_known op ≡ true
    → (match_op_symbol op ≡ ok (op_text op)) × (match_op_of (op_text op) ≡ some op)
unfolding match_op_symbol op_text match_op_of
known_symbol equal h = (refl, refl)
known_symbol not_equal h = (refl, refl)
known_symbol regexp h = (refl, refl)
known_symbol not_regexp h = (refl, refl)
known_symbol (MatchOp.unknown n) h = cc

symbol_breaks :
    (op : MatchOp) (b : String)
    → is_known op ≡ true
    → (rest : String) → breaks rest ≡ true
    → breaks ((op_text op <> b) <> rest) ≡ true
unfolding op_text
symbol_breaks equal b h rest br = refl
symbol_breaks not_equal b h rest br = refl
symbol_breaks regexp b h rest br = refl
symbol_breaks not_regexp b h rest br = refl
symbol_breaks (MatchOp.unknown n) b h rest br = cc

-- A matcher that the renderer writes.
abbrev pub fits : LabelMatcher → Bool
fits m = is_known m.op && valid_identifier m.name

unfoldable pub matcher_tokens : List LabelMatcher → Tokens → Tokens
unfolding op_text
matcher_tokens [] ts = ts
matcher_tokens (m ∷ []) ts = ident m.name ∷ match_op (op_text m.op) ∷ str m.value ∷ ts
matcher_tokens (m ∷ m' ∷ ms) ts =
    ident m.name ∷ match_op (op_text m.op) ∷ str m.value ∷ punct comma ∷ matcher_tokens (m' ∷ ms) ts

-- The parser reads the matchers back.
pub parse-matcher_tokens :
    (ms : List LabelMatcher) (ts : Tokens)
    → all fits ms ≡ true
    → parse_matchers (matcher_tokens ms (punct rbrace ∷ ts))
      ≡ Scan.ok (map leaf_predicate ms, punct rbrace ∷ ts)
unfolding parse_matchers matcher_tokens leaf_predicate
parse-matcher_tokens [] ts h = refl
parse-matcher_tokens (m ∷ []) ts h = rw ((known_symbol m.op (ground arith)).1) refl
parse-matcher_tokens (m ∷ m' ∷ ms) ts h =
    let rest = parse-matcher_tokens (m' ∷ ms) ts (ground arith) in
    rw ((known_symbol m.op (ground arith)).1) (rw rest refl)

module _ (lib : Strconv) where
  -- the text of a matcher
  unfoldable pub part_text : LabelMatcher → String
  unfolding op_text
  part_text m = m.name <> (op_text m.op <> lib.quote m.value)

  matcher-fits :
      (m : LabelMatcher) (part : String)
      → render_matcher lib m ≡ ok part
      → (fits m ≡ true) × (part ≡ part_text m)
  unfolding render_matcher part_text
  matcher-fits m part h =
      let (symbol, hs, h') =
        bind-ok (match_op_symbol m.op)
          (λ o. check_identifier m.name >>= λ n. ok (n <> (o <> lib.quote m.value))) part h in
      let (name, hn, e) =
        bind-ok (check_identifier m.name) (λ n. ok (n <> (symbol <> lib.quote m.value))) part h' in
      let (known, es) = symbol-op_text m.op symbol hs in
      let (valid, en) = checked_identifier m.name name hn in (ground (arith, known, valid), cc)

  pub matchers-fit :
      (ms : List LabelMatcher) (parts : List String)
      → render_matchers lib ms ≡ ok parts
      → (all fits ms ≡ true) × (parts ≡ map part_text ms)
  unfolding render_matchers
  matchers-fit [] parts h = (refl, cc)
  matchers-fit (m ∷ ms) parts h =
      let (part, hp, h') =
        bind-ok (render_matcher lib m) (λ p. render_matchers lib ms >>= λ ps. ok (p ∷ ps)) parts
          h in
      let (rest, hr, e) = bind-ok (render_matchers lib ms) (λ ps. ok (part ∷ ps)) parts h' in
      let (fit, ep) = matcher-fits m part hp in
      let (fits', er) = matchers-fit ms rest hr in (ground (arith, fit, fits'), cc)

  -- the matchers in the order of their texts
  unfoldable pub insert_matcher : LabelMatcher → List LabelMatcher → List LabelMatcher
  unfolding part_text
  insert_matcher m [] = m ∷ []
  insert_matcher m (m' ∷ ms) =
      let rest = insert_matcher m ms in
      if str_le (part_text m) (part_text m') then m ∷ m' ∷ ms else m' ∷ rest

  unfoldable pub sort_matchers : List LabelMatcher → List LabelMatcher
  unfolding insert_matcher
  sort_matchers [] = []
  sort_matchers (m ∷ ms) = insert_matcher m (sort_matchers ms)

  insert-map :
      (m : LabelMatcher) (ms : List LabelMatcher)
      → insert_text (part_text m) (map part_text ms) ≡ map part_text (insert_matcher m ms)
  unfolding insert_text insert_matcher
  insert-map m [] = refl
  insert-map m (m' ∷ ms) = ground (arith, insert-map m ms)

  pub sort-map :
      (ms : List LabelMatcher) → sort_texts (map part_text ms) ≡ map part_text (sort_matchers ms)
  unfolding sort_texts sort_matchers
  sort-map [] = refl
  sort-map (m ∷ ms) = rw (sort-map ms) (insert-map m (sort_matchers ms))

  -- A test that every matcher of a list passes, in any order.
  all-insert :
      (p : LabelMatcher → Bool) (m : LabelMatcher) (ms : List LabelMatcher)
      → all p (insert_matcher m ms) ≡ (p m && all p ms)
  unfolding insert_matcher
  all-insert p m [] = refl
  all-insert p m (m' ∷ ms) = ground (arith, all-insert p m ms)

  pub all-sort_matchers :
      (p : LabelMatcher → Bool) (ms : List LabelMatcher) → all p (sort_matchers ms) ≡ all p ms
  unfolding sort_matchers
  all-sort_matchers p [] = refl
  all-sort_matchers p (m ∷ ms) =
      all-insert p m (sort_matchers ms) ∙ ap (λ b. p m && b) (all-sort_matchers p ms)

  module _ (u : Unicode) (laws : UnicodeLaws u) (slaws : StrconvLaws lib) where
    Lexes-part :
        (m : LabelMatcher)
        → fits m ≡ true
        → Lexes lib u laws
            (part_text m)
            (λ ts. ident m.name ∷ match_op (op_text m.op) ∷ str m.value ∷ ts)
    unfolding part_text
    Lexes-part m h =
        let known : is_known m.op ≡ true = ground arith in
        let symbol = (known_symbol m.op known).0 in
        Lexes-append lib u laws m.name (op_text m.op <> lib.quote m.value) (◌∷◌ (ident m.name))
          (λ ts. match_op (op_text m.op) ∷ str m.value ∷ ts)
          (Lexes-name lib u laws m.name (ground arith))
          (symbol_breaks m.op (lib.quote m.value) known)
          (Lexes-matcher lib u laws slaws m.op (op_text m.op) m.value symbol)

    -- The tokenizer reads the matchers of a selector, with the commas between them.
    pub Lexes-parts :
        (m : LabelMatcher) (ms : List LabelMatcher)
        → all fits (m ∷ ms) ≡ true
        → Lexes lib u laws (join_with "," (map part_text (m ∷ ms))) (matcher_tokens (m ∷ ms))
    unfolding join_with matcher_tokens
    Lexes-parts m [] h = Lexes-part m (ground arith)
    Lexes-parts m (m' ∷ ms) h =
        Lexes-append lib u laws (part_text m) ("," <> join_with "," (map part_text (m' ∷ ms)))
          (λ ts. ident m.name ∷ match_op (op_text m.op) ∷ str m.value ∷ ts)
          (λ ts. punct comma ∷ matcher_tokens (m' ∷ ms) ts) (Lexes-part m (ground arith))
          (λ rest br. refl)
          (Lexes-punct lib u laws comma (join_with "," (map part_text (m' ∷ ms)))
            (matcher_tokens (m' ∷ ms)) (Lexes-parts m' ms (ground arith)))

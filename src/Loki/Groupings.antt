-- ===== src/Loki/Groupings.antt =====
-- dispatcher/lokidispatcher/logql.go and acceptor/lokiacceptor/logqlparse.go: the grouping of an
-- aggregation and its parameter, as the one writes them and the other reads them.
use opentelemetry_querier.Base.{
  String, true, false, List, [], ◌∷◌, all, join_with, is_nil, length, ◌≤◌, ◌<>◌, if◌then◌else◌, ◌≡◌,
  refl, ap, sym, ◌∙◌, arith, text-nil,
}
use mathlib.Core.Path.{subst}
use opentelemetry_querier.Qerror.{ok, ◌>>=◌}
use opentelemetry_querier.Qerror.Steps.{bind-ok, ok-injective}
use opentelemetry_querier.Golib.{Strconv, Unicode}
use opentelemetry_querier.Golib.Literals.{UnicodeLaws, is_numeral}
use opentelemetry_querier.Qdata.Identifier.{valid_identifier, valid_from}
use opentelemetry_querier.Qdata.Plan.{AggOp}
use opentelemetry_querier.Loki.Scan.{
  Token, ident, str, number, punct, match_op, line_op, comma, lparen, rparen,
}
use opentelemetry_querier.Loki.Scan as Scan
use opentelemetry_querier.Loki.Render.{check_identifier, check_identifiers, grouping_clause}
use opentelemetry_querier.Loki.Parse.{
  Tokens, parse_labels, parse_grouping, parse_late_grouping, parse_param, takes_param, expect,
}
use opentelemetry_querier.Loki.Pieces.{
  breaks, Lexes, Lexes-append, Lexes-punct, Lexes-space, Lexes-name, Lexes-number,
}
use opentelemetry_querier.Loki.Selectors.{ends}
use opentelemetry_querier.Loki.Matchers.{checked_identifier}

identifiers_checked :
    (names texts : List String)
    → check_identifiers names ≡ ok texts
    → (all valid_identifier names ≡ true) × (texts ≡ names)
unfolding check_identifiers
identifiers_checked [] texts h = (refl, cc)
identifiers_checked (name ∷ names) texts h =
    let (text, ht, h') =
      bind-ok (check_identifier name) (λ t. check_identifiers names >>= λ r. ok (t ∷ r)) texts h in
    let (rest, hr, e) = bind-ok (check_identifiers names) (λ r. ok (text ∷ r)) texts h' in
    let (valid, et) = checked_identifier name text ht in
    let (valids, er) = identifiers_checked names rest hr in
    (
      ground (arith, valid, valids),
      sym (ok-injective (text ∷ rest) texts e) ∙ ap (λ t. t ∷ rest) et ∙ ap (◌∷◌ name) er,
    )

unfoldable label_tokens : List String → Tokens → Tokens
label_tokens [] ts = ts
label_tokens (l ∷ []) ts = ident l ∷ ts
label_tokens (l ∷ l' ∷ ls) ts = ident l ∷ punct comma ∷ label_tokens (l' ∷ ls) ts

parse-label_tokens :
    (ls : List String) (ts : Tokens)
    → parse_labels (label_tokens ls (punct rparen ∷ ts)) ≡ (ls, punct rparen ∷ ts)
unfolding parse_labels label_tokens
parse-label_tokens [] ts = refl
parse-label_tokens (l ∷ []) ts = refl
parse-label_tokens (l ∷ l' ∷ ls) ts = rw (parse-label_tokens (l' ∷ ls) ts) refl

label_size : (ls : List String) (ts : Tokens) → length ts ≤ length (label_tokens ls ts)
unfolding label_tokens
label_size [] ts = omega arith
label_size (l ∷ []) ts = omega arith
label_size (l ∷ l' ∷ ls) ts = omega (arith, label_size (l' ∷ ls) ts)

-- No grouping stands in front of an end.
no_grouping : (ts : Tokens) → ends ts ≡ true → parse_grouping ts ≡ Scan.ok ([], [], ts)
unfolding parse_grouping
no_grouping [] h = refl
no_grouping (punct p ∷ ts) h = refl
no_grouping (ident s ∷ ts) h = cc
no_grouping (number s ∷ ts) h = cc
no_grouping (str s ∷ ts) h = cc
no_grouping (match_op s ∷ ts) h = cc
no_grouping (line_op s ∷ ts) h = cc

-- no_param : an aggregation without a parameter reads none.
pub no_param :
    (lib : Strconv) (u : Unicode) (op : AggOp) (ts : Tokens)
    → takes_param op ≡ false
    → parse_param lib u op ts ≡ Scan.ok (0, ts)
unfolding parse_param
no_param lib u op [] h = refl
no_param lib u op (number s ∷ ts) h = rw h refl
no_param lib u op (punct p ∷ ts) h = refl
no_param lib u op (ident s ∷ ts) h = refl
no_param lib u op (str s ∷ ts) h = refl
no_param lib u op (match_op s ∷ ts) h = refl
no_param lib u op (line_op s ∷ ts) h = refl

module _ (lib : Strconv) (u : Unicode) (laws : UnicodeLaws u) where
  pub late_grouping :
      (by without : List String) (ts : Tokens)
      → ends ts ≡ true
      → parse_late_grouping lib u by without ts ≡ Scan.ok (by, without, ts)
  unfolding parse_late_grouping
  late_grouping [] [] ts h = no_grouping ts h
  late_grouping (b ∷ by) without ts h = refl
  late_grouping [] (w ∷ without) ts h = refl

  Lexes-labels :
      (l : String) (ls : List String)
      → all valid_identifier (l ∷ ls) ≡ true
      → Lexes lib u laws (join_with "," (l ∷ ls)) (label_tokens (l ∷ ls))
  unfolding join_with label_tokens
  Lexes-labels l [] h = Lexes-name lib u laws l (ground arith)
  Lexes-labels l (l' ∷ ls) h =
      Lexes-append lib u laws l ("," <> join_with "," (l' ∷ ls)) (◌∷◌ (ident l))
        (λ ts. punct comma ∷ label_tokens (l' ∷ ls) ts) (Lexes-name lib u laws l (ground arith))
        (λ rest br. refl)
        (Lexes-punct lib u laws comma (join_with "," (l' ∷ ls)) (label_tokens (l' ∷ ls))
          (Lexes-labels l' ls (ground arith)))

  -- A grouping in front of the parenthesis: its tokens, what it breaks off, and how it is read.
  abbrev pub Grouping : List String → List String → String → Type 0
  Grouping by without text =
      (g : Tokens → Tokens) × Lexes lib u laws text g
      × ((b rest : String) → breaks ((text <> ("(" <> b)) <> rest) ≡ true)
      × ((ts : Tokens)
          → parse_grouping (g (punct lparen ∷ ts)) ≡ Scan.ok (by, without, punct lparen ∷ ts))
      × ((ts : Tokens) → length ts ≤ length (g ts))

  Lexes-clause :
      (word l : String) (ls : List String)
      → valid_identifier word ≡ true
      → all valid_identifier (l ∷ ls) ≡ true
      → Lexes lib u laws
          (" " <> (word <> ("(" <> (join_with "," (l ∷ ls) <> ")"))))
          (λ ts. ident word ∷ punct lparen ∷ label_tokens (l ∷ ls) (punct rparen ∷ ts))
  Lexes-clause word l ls hw h =
      let inner =
        Lexes-append lib u laws (join_with "," (l ∷ ls)) ")" (label_tokens (l ∷ ls))
          (λ ts. punct rparen ∷ ts) (Lexes-labels l ls h) (λ rest br. refl)
          (Lexes-punct lib u laws rparen "" (λ ts. ts) (λ rest ts br sc. sc)) in
      Lexes-space lib u laws (word <> ("(" <> (join_with "," (l ∷ ls) <> ")")))
        (λ ts. ident word ∷ punct lparen ∷ label_tokens (l ∷ ls) (punct rparen ∷ ts))
        (Lexes-append lib u laws word ("(" <> (join_with "," (l ∷ ls) <> ")")) (◌∷◌ (ident word))
          (λ ts. punct lparen ∷ label_tokens (l ∷ ls) (punct rparen ∷ ts))
          (Lexes-name lib u laws word hw) (λ rest br. refl)
          (Lexes-punct lib u laws lparen (join_with "," (l ∷ ls) <> ")")
            (λ ts. label_tokens (l ∷ ls) (punct rparen ∷ ts)) inner))

  -- The clause is read as the labels of `by`, or else as those of `without`.
  pub clause_read :
      (by without : List String) (text : String)
      → grouping_clause by without ≡ ok text
      → Grouping by (if is_nil by then without else []) text
  unfolding grouping_clause parse_grouping expect valid_identifier valid_from
  clause_read (b ∷ by) without text h =
      let (labels, hl, e) =
        bind-ok (check_identifiers (b ∷ by)) (λ ls. ok (" by(" <> (join_with "," ls <> ")"))) text
          h in
      let (valid, el) = identifiers_checked (b ∷ by) labels hl in
      let shape : text ≡ " by(" <> (join_with "," (b ∷ by) <> ")") =
        sym (ok-injective (" by(" <> (join_with "," labels <> ")")) text e)
        ∙ ap (λ ls. " by(" <> (join_with "," ls <> ")")) el in
      rw shape (
        λ ts. ident "by" ∷ punct lparen ∷ label_tokens (b ∷ by) (punct rparen ∷ ts),
        Lexes-clause "by" b by refl valid,
        λ c rest. refl,
        λ ts. rw (parse-label_tokens (b ∷ by) (punct lparen ∷ ts)) refl,
        λ ts. omega (arith, label_size (b ∷ by) (punct rparen ∷ ts)),
      )
  clause_read [] (w ∷ without) text h =
      let (labels, hl, e) =
        bind-ok (check_identifiers (w ∷ without))
          (λ ls. ok (" without(" <> (join_with "," ls <> ")"))) text h in
      let (valid, el) = identifiers_checked (w ∷ without) labels hl in
      let shape : text ≡ " without(" <> (join_with "," (w ∷ without) <> ")") =
        sym (ok-injective (" without(" <> (join_with "," labels <> ")")) text e)
        ∙ ap (λ ls. " without(" <> (join_with "," ls <> ")")) el in
      rw shape (
        λ ts. ident "without" ∷ punct lparen ∷ label_tokens (w ∷ without) (punct rparen ∷ ts),
        Lexes-clause "without" w without refl valid,
        λ c rest. refl,
        λ ts. rw (parse-label_tokens (w ∷ without) (punct lparen ∷ ts)) refl,
        λ ts. omega (arith, label_size (w ∷ without) (punct rparen ∷ ts)),
      )
  clause_read [] [] text h =
      let e : text ≡ "" = cc in
      rw e (λ ts. ts, λ rest ts br sc. sc, λ c rest. refl, λ ts. refl, λ ts. omega arith)

  -- a number with no unit
  pub Lexes-numeral : (s : String) → is_numeral s ≡ true → Lexes lib u laws s (◌∷◌ (number s))
  Lexes-numeral s h =
      subst (λ t. Lexes lib u laws t (◌∷◌ (number t))) (text-nil s)
        (Lexes-number lib u laws s "" h refl)

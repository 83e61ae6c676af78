-- ===== src/Loki/Selectors.antt =====
-- dispatcher/lokidispatcher/logql.go and acceptor/lokiacceptor/logqlparse.go: a stream selector with its
-- line filters, as the one writes it and the other reads it.
use opentelemetry_querier.Base.{
  String, Bool, true, false, Option, none, some, List, [], ◌∷◌, map, all, str_le, Bool-cases, inl,
  inr, sort_texts, join_with, ◌==◌, ◌<>◌, if◌then◌else◌, ◌≡◌, refl, ap, sym, ◌∙◌, arith, text_assoc,
}
use opentelemetry_querier.Qerror.{ok, ◌>>=◌}
use opentelemetry_querier.Qerror.Steps.{bind-ok, ok-injective}
use opentelemetry_querier.Golib.{Strconv, Unicode}
use opentelemetry_querier.Golib.Literals.{StrconvLaws, UnicodeLaws}
use opentelemetry_querier.Qdata.Predicate.{
  MatchOp, equal, not_equal, regexp, not_regexp, LabelMatcher, leaf_predicate, flatten_conjunction,
}
use opentelemetry_querier.Qdata.Plan.{LineMatch, Select, Node, select, signal_logs}
use opentelemetry_querier.Loki.Scan.{Token, ident, str, punct, match_op, line_op, lbrace, rbrace}
use opentelemetry_querier.Loki.Scan as Scan
use opentelemetry_querier.Loki.Render.{
  line_filter_symbol, render_lines, render_matchers, render_stream, render_select,
}
use opentelemetry_querier.Loki.Parse.{
  Tokens, parse_lines, line_of, parse_selector, filter_of, select_of, expect,
}
use opentelemetry_querier.Loki.Pieces.{breaks, Lexes, Lexes-append, Lexes-punct, Lexes-space}
use opentelemetry_querier.Loki.Quotes.{line_token, Lexes-line}
use opentelemetry_querier.Loki.Canonical.{ordered_select}
use opentelemetry_querier.Loki.Matchers.{
  fits, part_text, matcher_tokens, parse-matcher_tokens, matchers-fit, sort_matchers,
  insert_matcher, sort-map, all-sort_matchers, Lexes-parts,
}

-- What stands behind an expression: nothing, or a bracket or a comma.
abbrev pub ends : Tokens → Bool
ends [] = true
ends (punct p ∷ ts) = true
ends _ = false

unfoldable line_tokens : List LineMatch → Tokens → Tokens
unfolding line_token
line_tokens [] ts = ts
line_tokens (l ∷ ls) ts = line_token l.op ∷ str l.value ∷ line_tokens ls ts

-- The parser reads a line filter back.
parse-line :
    (op : MatchOp) (v symbol : String) (ts : Tokens) (ls : List LineMatch) (rest : Tokens)
    → line_filter_symbol op ≡ ok symbol
    → parse_lines ts ≡ Scan.ok (ls, rest)
    → parse_lines (line_token op ∷ str v ∷ ts) ≡ Scan.ok (line_of op v ∷ ls, rest)
unfolding parse_lines line_token line_filter_symbol
parse-line equal v symbol ts ls rest h e = rw e refl
parse-line not_equal v symbol ts ls rest h e = rw e refl
parse-line regexp v symbol ts ls rest h e = rw e refl
parse-line not_regexp v symbol ts ls rest h e = rw e refl
parse-line (MatchOp.unknown n) v symbol ts ls rest h e = cc

parse-no_lines : (ts : Tokens) → ends ts ≡ true → parse_lines ts ≡ Scan.ok ([], ts)
unfolding parse_lines
parse-no_lines [] h = refl
parse-no_lines (punct p ∷ ts) h = refl
parse-no_lines (ident s ∷ ts) h = cc
parse-no_lines (Token.number s ∷ ts) h = cc
parse-no_lines (str s ∷ ts) h = cc
parse-no_lines (match_op s ∷ ts) h = cc
parse-no_lines (line_op s ∷ ts) h = cc

module _ (lib : Strconv) (u : Unicode) (laws : UnicodeLaws u) (slaws : StrconvLaws lib) where
  -- A text with the tokens `f`, in front of an end, and what breaks off the text in front of it.
  abbrev Filters : List LineMatch → String → Type 0
  Filters ls text =
      (Lexes lib u laws text (line_tokens ls))
      × ((rest : String) → breaks rest ≡ true → breaks (text <> rest) ≡ true)
      × ((ts : Tokens) → ends ts ≡ true → parse_lines (line_tokens ls ts) ≡ Scan.ok (ls, ts))

  lines-read :
      (ls : List LineMatch) (text : String) → render_lines lib ls ≡ ok text → Filters ls text
  unfolding render_lines line_tokens
  lines-read [] text h =
      let e : text ≡ "" = cc in rw e (λ rest ts br sc. sc, λ rest br. br, parse-no_lines)
  lines-read (l ∷ ls) text h =
      let (symbol, hs, h') =
        bind-ok (line_filter_symbol l.op)
          (λ s. render_lines lib ls >>= λ r. ok (" " <> (s <> (" " <> (lib.quote l.value <> r)))))
          text h in
      let (rest, hr, e) =
        bind-ok (render_lines lib ls)
          (λ r. ok (" " <> (symbol <> (" " <> (lib.quote l.value <> r))))) text h' in
      let (lex, opens, reads) = lines-read ls rest hr in
      let line =
        Lexes-append lib u laws (symbol <> (" " <> lib.quote l.value)) rest
          (λ ts. line_token l.op ∷ str l.value ∷ ts) (line_tokens ls)
          (Lexes-line lib u laws slaws l.op symbol l.value hs) opens lex in
      let shape : ((symbol <> (" " <> lib.quote l.value)) <> rest)
          ≡ symbol <> (" " <> (lib.quote l.value <> rest)) =
        text_assoc symbol (" " <> lib.quote l.value) rest in
      let e' : text ≡ " " <> ((symbol <> (" " <> lib.quote l.value)) <> rest) = cc in
      rw e' (
        Lexes-space lib u laws ((symbol <> (" " <> lib.quote l.value)) <> rest)
            (λ ts. line_token l.op ∷ str l.value ∷ line_tokens ls ts) line,
        λ r br. refl,
        λ ts en. parse-line l.op l.value symbol (line_tokens ls ts) ls ts hs (reads ts en),
      )

  -- The text of a selector, and how the parser reads it.
  abbrev pub Reads : (Tokens → Scan.Run (Node × Tokens)) → String → Node → Type 0
  Reads parser text n =
      (f : Tokens → Tokens) × Lexes lib u laws text f
      × ((ts : Tokens) → ends ts ≡ true → parser (f ts) ≡ Scan.ok (n, ts))

  insert-not_nil :
      (m : LabelMatcher) (ms : List LabelMatcher)
      → (m' : LabelMatcher) × (ms' : List LabelMatcher) × (insert_matcher lib m ms ≡ m' ∷ ms')
  unfolding insert_matcher
  insert-not_nil m [] = (m, [], refl)
  insert-not_nil m (m' ∷ ms) =
      elim (str_le (part_text lib m) (part_text lib m'))
        as (λ b.
          (m'' : LabelMatcher) × (ms'' : List LabelMatcher) × ((if b
              then m ∷ m' ∷ ms
              else m' ∷ insert_matcher lib m ms)
            ≡ m'' ∷ ms'')) [
              | true ↦ (m, m' ∷ ms, refl)
              | false ↦ (m', insert_matcher lib m ms, refl)
            ]

  -- What a rendered selector had: its matchers, sorted, of which there is one at least, and its line
  -- filters.
  Rendered : Option (List LabelMatcher) → List LineMatch → String → Type 0
  Rendered o lines text =
      (ms : List LabelMatcher) × (m' : LabelMatcher) × (ms' : List LabelMatcher)
      × (filters : String) × (o ≡ some ms)
      × (sort_matchers lib ms ≡ m' ∷ ms')
      × (all fits (m' ∷ ms') ≡ true)
      × (render_lines lib lines ≡ ok filters)
      × (text ≡ "{" <> (join_with "," (map (part_text lib) (m' ∷ ms')) <> ("}" <> filters)))

  stream-Rendered :
      (o : Option (List LabelMatcher)) (lines : List LineMatch) (text : String)
      → render_stream lib o lines ≡ ok text
      → Rendered o lines text
  unfolding render_stream sort_matchers Rendered
  stream-Rendered none lines text h = cc
  stream-Rendered (some []) lines text h = cc
  stream-Rendered (some (m ∷ ms)) lines text h =
      let (parts, hp, h') =
        bind-ok (render_matchers lib (m ∷ ms))
          (λ ps. render_lines lib lines >>= λ f.
            ok ("{" <> (join_with "," (sort_texts ps) <> ("}" <> f))))
          text h in
      let (filters, hf, e) =
        bind-ok (render_lines lib lines)
          (λ f. ok ("{" <> (join_with "," (sort_texts parts) <> ("}" <> f)))) text h' in
      let (fit, ep) = matchers-fit lib (m ∷ ms) parts hp in
      let (m', ms', es) = insert-not_nil m (sort_matchers lib ms) in
      let sorted : sort_texts parts ≡ map (part_text lib) (m' ∷ ms') =
        ap sort_texts ep ∙ sort-map lib (m ∷ ms) ∙ ap (map (part_text lib)) es in
      (
        m ∷ ms,
        m',
        ms',
        filters,
        refl,
        es,
        sym (ap (all fits) es) ∙ all-sort_matchers lib fits (m ∷ ms) ∙ fit,
        hf,
        sym (ok-injective ("{" <> (join_with "," (sort_texts parts) <> ("}" <> filters))) text e)
            ∙ ap (λ ps. "{" <> (join_with "," ps <> ("}" <> filters))) sorted,
      )

  -- The parser reads the rendered selector as the ordered one.
  parse-selector :
      (m : LabelMatcher) (ms : List LabelMatcher) (lines : List LineMatch) (ts : Tokens)
      → all fits (m ∷ ms) ≡ true
      → parse_lines (line_tokens lines ts) ≡ Scan.ok (lines, ts)
      → parse_selector
          (punct lbrace ∷ matcher_tokens (m ∷ ms) (punct rbrace ∷ line_tokens lines ts))
        ≡ Scan.ok (
          select (record {
            signal = signal_logs;
            filter = filter_of (leaf_predicate m) (map leaf_predicate ms);
            line = lines;
          }),
          ts,
        )
  unfolding parse_selector expect select_of
  parse-selector m ms lines ts h e =
      rw (parse-matcher_tokens (m ∷ ms) (line_tokens lines ts) h) (rw e refl)

  Lexes-selector :
      (m : LabelMatcher) (ms : List LabelMatcher) (lines : List LineMatch) (filters : String)
      → all fits (m ∷ ms) ≡ true
      → Filters lines filters
      → Lexes lib u laws
          ("{" <> (join_with "," (map (part_text lib) (m ∷ ms)) <> ("}" <> filters)))
          (λ ts. punct lbrace ∷ matcher_tokens (m ∷ ms) (punct rbrace ∷ line_tokens lines ts))
  Lexes-selector m ms lines filters h fs =
      Lexes-punct lib u laws lbrace
        (join_with "," (map (part_text lib) (m ∷ ms)) <> ("}" <> filters))
        (λ ts. matcher_tokens (m ∷ ms) (punct rbrace ∷ line_tokens lines ts))
        (Lexes-append lib u laws (join_with "," (map (part_text lib) (m ∷ ms))) ("}" <> filters)
          (matcher_tokens (m ∷ ms)) (λ ts. punct rbrace ∷ line_tokens lines ts)
          (Lexes-parts lib u laws slaws m ms h) (λ rest br. refl)
          (Lexes-punct lib u laws rbrace filters (line_tokens lines) fs.0))

  signal_test :
      (s : Select) (text : String)
      → render_select lib s ≡ ok text
      → (s.signal ≡ signal_logs)
        × (render_stream lib (flatten_conjunction (s.filter ∷ [])) s.line ≡ ok text)
  unfolding render_select
  signal_test s text h = elim (Bool-cases (s.signal == signal_logs)) [
    | inl t ↦ (ground (arith, t), rw t at h)
    | inr f ↦ ground (arith, rw f at h)
  ]

  ordered :
      (s : Select) (ms : List LabelMatcher) (m' : LabelMatcher) (ms' : List LabelMatcher)
      → s.signal ≡ signal_logs
      → flatten_conjunction (s.filter ∷ []) ≡ some ms
      → sort_matchers lib ms ≡ m' ∷ ms'
      → ordered_select lib s ≡ record {
        signal = signal_logs;
        filter = filter_of (leaf_predicate m') (map leaf_predicate ms');
        line = s.line;
      }
  unfolding ordered_select
  ordered s ms m' ms' h e e' = rw (e, ordered_select) (rw e' (rw h refl))

  -- A rendered selector is read as the ordered one.
  pub select-Reads :
      (s : Select) (text : String)
      → render_select lib s ≡ ok text
      → Reads parse_selector text (select (ordered_select lib s))
  unfolding Rendered
  select-Reads s text h =
      let (logs, h') = signal_test s text h in
      let (ms, m', ms', filters, eo, es, fit, hf, e) =
        stream-Rendered (flatten_conjunction (s.filter ∷ [])) s.line text h' in
      let fs = lines-read s.line filters hf in
      rw e (
        λ ts. punct lbrace ∷ matcher_tokens (m' ∷ ms') (punct rbrace ∷ line_tokens s.line ts),
        Lexes-selector m' ms' s.line filters fit fs,
        λ ts en.
            parse-selector m' ms' s.line ts fit (fs.2 ts en)
            ∙ ap (λ x. Scan.ok (select x, ts)) (sym (ordered s ms m' ms' logs eo es)),
      )

-- ===== src/Loki/Arguments.antt =====
-- dispatcher/lokidispatcher/logql.go and acceptor/lokiacceptor/logqlparse.go: the functions of range and
-- vector aggregations with their arguments, as the one writes them and the other reads them.
use opentelemetry_querier.Base.{
  ℕ, suc, ◌≤◌, ℤ, String, true, false, Option, none, some, List, ◌∷◌, length, ◌<>◌, if◌then◌else◌,
  ◌≡◌, refl, arith, Bool-cases, inl, inr,
}
use opentelemetry_querier.Qerror.{ok, found_or}
use opentelemetry_querier.Golib.{Strconv, Unicode}
use opentelemetry_querier.Golib.Literals.{StrconvLaws, UnicodeLaws, is_numeral}
use opentelemetry_querier.Qdata.Identifier.{valid_identifier, valid_from}
use opentelemetry_querier.Qdata.Plan.{Float, TimeAggOp, AggOp, Node, time_agg, aggregate}
use opentelemetry_querier.Loki.Scan.{
  Token, ident, str, number, punct, comma, lparen, rparen, lbracket, rbracket, tokenize,
}
use opentelemetry_querier.Loki.Scan as Scan
use opentelemetry_querier.Loki.Render.{time_agg_func, agg_func, agg_takes_param, aggregation}
use opentelemetry_querier.Loki.Parse.{
  Tokens, expect, range_agg_op, vector_agg_op, takes_param, is_select, parse_selector, parse_window,
  parse_range_agg, parse_param, parse_vector_agg, parse_expr,
}
use opentelemetry_querier.Loki.Pieces.{Lexes, Lexes-append, Lexes-punct, Lexes-space, Lexes-name}
use opentelemetry_querier.Loki.Canonical.{is_quantile, plain_param}
use opentelemetry_querier.Loki.Selectors.{ends}
use opentelemetry_querier.Loki.Groupings.{Grouping, late_grouping, no_param, Lexes-numeral}

-- A range function is a name, and the parser knows it.
pub range_func :
    (op : TimeAggOp) (name : String)
    → time_agg_func op ≡ some name
    → (valid_identifier name ≡ true) × (range_agg_op name ≡ some op)
unfolding time_agg_func valid_identifier valid_from range_agg_op
range_func TimeAggOp.rate name h = let e : name ≡ "rate" = cc in rw e (refl, refl)
range_func TimeAggOp.count_over_time name h =
    let e : name ≡ "count_over_time" = cc in rw e (refl, refl)
range_func TimeAggOp.sum_over_time name h = let e : name ≡ "sum_over_time" = cc in rw e (refl, refl)
range_func TimeAggOp.avg_over_time name h = let e : name ≡ "avg_over_time" = cc in rw e (refl, refl)
range_func TimeAggOp.min_over_time name h = let e : name ≡ "min_over_time" = cc in rw e (refl, refl)
range_func TimeAggOp.max_over_time name h = let e : name ≡ "max_over_time" = cc in rw e (refl, refl)
range_func TimeAggOp.increase name h = cc
range_func TimeAggOp.unspecified name h = cc
range_func (TimeAggOp.unknown n) name h = cc

-- So is a vector aggregation but `quantile`.
pub vector_func :
    (op : AggOp) (name : String)
    → agg_func op ≡ some name
    → is_quantile op ≡ false
    → (valid_identifier name ≡ true)
      × (range_agg_op name ≡ none)
      × (vector_agg_op name ≡ some op)
      × (agg_takes_param op ≡ takes_param op)
unfolding agg_func valid_identifier valid_from range_agg_op vector_agg_op agg_takes_param
    takes_param
vector_func AggOp.sum name h q = let e : name ≡ "sum" = cc in rw e (refl, refl, refl, refl)
vector_func AggOp.avg name h q = let e : name ≡ "avg" = cc in rw e (refl, refl, refl, refl)
vector_func AggOp.min name h q = let e : name ≡ "min" = cc in rw e (refl, refl, refl, refl)
vector_func AggOp.max name h q = let e : name ≡ "max" = cc in rw e (refl, refl, refl, refl)
vector_func AggOp.count name h q = let e : name ≡ "count" = cc in rw e (refl, refl, refl, refl)
vector_func AggOp.topk name h q = let e : name ≡ "topk" = cc in rw e (refl, refl, refl, refl)
vector_func AggOp.bottomk name h q = let e : name ≡ "bottomk" = cc in rw e (refl, refl, refl, refl)
vector_func AggOp.stddev name h q = let e : name ≡ "stddev" = cc in rw e (refl, refl, refl, refl)
vector_func AggOp.stdvar name h q = let e : name ≡ "stdvar" = cc in rw e (refl, refl, refl, refl)
vector_func AggOp.quantile name h q = cc
vector_func AggOp.group name h q = cc
vector_func AggOp.unspecified name h q = cc
vector_func (AggOp.unknown n) name h q = cc

pub func_found : (msg name : String) (o : Option String) → found_or msg o ≡ ok name → o ≡ some name
func_found msg name (some n) h = cc
func_found msg name none h = cc

module _ (lib : Strconv) (u : Unicode) (laws : UnicodeLaws u) (slaws : StrconvLaws lib) where
  pub expr_range :
      (fuel : ℕ) (name : String) (op : TimeAggOp) (ts : Tokens)
      → range_agg_op name ≡ some op
      → parse_expr lib u (suc fuel) (ident name ∷ ts) ≡ parse_range_agg lib u op ts
  unfolding parse_expr
  expr_range fuel name op ts h = rw (h, parse_expr) refl

  pub expr_vector :
      (fuel : ℕ) (name : String) (op : AggOp) (ts : Tokens)
      → range_agg_op name ≡ none
      → vector_agg_op name ≡ some op
      → parse_expr lib u (suc fuel) (ident name ∷ ts)
        ≡ parse_vector_agg lib u (parse_expr lib u fuel) op ts
  unfolding parse_expr
  expr_vector fuel name op ts h k = rw (h, parse_expr) (rw k refl)

  pub read_range :
      (op : TimeAggOp) (w : ℤ) (n : Node) (text : String) (f : Tokens → Tokens) (ts : Tokens)
      → ((ts' : Tokens) → ends ts' ≡ true → parse_selector (f ts') ≡ Scan.ok (n, ts'))
      → parse_window lib u (number text ∷ punct rbracket ∷ punct rparen ∷ ts)
        ≡ Scan.ok (w, punct rbracket ∷ punct rparen ∷ ts)
      → parse_range_agg lib u op
          (punct lparen ∷ f (punct lbracket ∷ number text ∷ punct rbracket ∷ punct rparen ∷ ts))
        ≡ Scan.ok (time_agg op w n, ts)
  unfolding parse_range_agg expect
  read_range op w n text f ts r e =
      rw (r (punct lbracket ∷ number text ∷ punct rbracket ∷ punct rparen ∷ ts) refl) (rw e refl)

  pub Lexes-range :
      (name input window : String) (f : Tokens → Tokens)
      → valid_identifier name ≡ true
      → Lexes lib u laws input f
      → Lexes lib u laws window (◌∷◌ (number window))
      → Lexes lib u laws (name <> ("(" <> (input <> ("[" <> (window <> "])"))))) (λ ts.
        ident name
        ∷ punct lparen
        ∷ f (punct lbracket ∷ number window ∷ punct rbracket ∷ punct rparen ∷ ts))
  Lexes-range name input window f v li lw =
      let closing =
        Lexes-punct lib u laws rbracket ")" (λ ts. punct rparen ∷ ts)
          (Lexes-punct lib u laws rparen "" (λ ts. ts) (λ rest ts br sc. sc)) in
      let bracketed =
        Lexes-punct lib u laws lbracket (window <> "])")
          (λ ts. number window ∷ punct rbracket ∷ punct rparen ∷ ts)
          (Lexes-append lib u laws window "])" (◌∷◌ (number window))
            (λ ts. punct rbracket ∷ punct rparen ∷ ts) lw (λ rest br. refl) closing) in
      let inside =
        Lexes-append lib u laws input ("[" <> (window <> "])")) f
          (λ ts. punct lbracket ∷ number window ∷ punct rbracket ∷ punct rparen ∷ ts) li
          (λ rest br. refl) bracketed in
      Lexes-append lib u laws name ("(" <> (input <> ("[" <> (window <> "])")))) (◌∷◌ (ident name))
        (λ ts.
          punct lparen ∷ f (punct lbracket ∷ number window ∷ punct rbracket ∷ punct rparen ∷ ts))
        (Lexes-name lib u laws name v) (λ rest br. refl)
        (Lexes-punct lib u laws lparen (input <> ("[" <> (window <> "])")))
          (λ ts. f (punct lbracket ∷ number window ∷ punct rbracket ∷ punct rparen ∷ ts)) inside)

  -- the tokens of the parameter of an aggregation, if it has one
  pub param_tokens : AggOp → Float → Tokens → Tokens
  param_tokens op param ts =
      if takes_param op then number (lib.of_float param) ∷ punct comma ∷ ts else ts

  pub param_size :
      (op : AggOp) (param : Float) (ts : Tokens) → length ts ≤ length (param_tokens op param ts)
  unfolding param_tokens
  param_size op param ts = ground arith

  some_param :
      (op : AggOp) (param : Float) (ts : Tokens)
      → takes_param op ≡ true
      → is_numeral (lib.of_float param) ≡ true
      → parse_param lib u op (param_tokens op param ts)
        ≡ Scan.ok (if takes_param op then param else 0, ts)
  unfolding param_tokens parse_param expect
  some_param op param ts t h = rw t (rw (slaws.float param h) (rw t refl))

  read_param :
      (op : AggOp) (param : Float) (ts : Tokens)
      → plain_param lib op param ≡ true
      → parse_param lib u op (param_tokens op param ts)
        ≡ Scan.ok (if takes_param op then param else 0, ts)
  unfolding param_tokens
  read_param op param ts h = elim (Bool-cases (takes_param op)) [
    | inl t ↦ some_param op param ts t (ground (arith, h, t))
    | inr f ↦ rw f (no_param lib u op ts f)
  ]

  pub read_vector :
      (inner : Tokens → Scan.Run (Node × Tokens)) (op : AggOp) (by without : List String)
      (param : Float) (n : Node) (text : String) (f : Tokens → Tokens) (ts : Tokens)
      → (gr : Grouping lib u laws by without text) → plain_param lib op param ≡ true
      → inner (f (punct rparen ∷ ts)) ≡ Scan.ok (n, punct rparen ∷ ts)
      → is_select n ≡ false
      → ends ts ≡ true
      → parse_vector_agg lib u inner op
          (gr.0 (punct lparen ∷ param_tokens op param (f (punct rparen ∷ ts))))
        ≡ Scan.ok (aggregate op by without (if takes_param op then param else 0) n, ts)
  unfolding parse_vector_agg expect
  read_vector inner op by without param n text f ts gr h e ns en =
      rw ((gr.3) (param_tokens op param (f (punct rparen ∷ ts)))) (
        rw (read_param op param (f (punct rparen ∷ ts)) h)
          (rw e (rw ns (rw (late_grouping lib u laws by without ts en) refl))))

  pub Lexes-arguments :
      (op : AggOp) (param : Float) (input : String) (f : Tokens → Tokens)
      → agg_takes_param op ≡ takes_param op
      → plain_param lib op param ≡ true
      → Lexes lib u laws input f
      → (name grouping : String)
      → (args : String) × (aggregation lib op param name grouping input
          ≡ name <> (grouping <> ("(" <> args)))
        × Lexes lib u laws args (λ ts. param_tokens op param (f (punct rparen ∷ ts)))
  unfolding aggregation param_tokens
  Lexes-arguments op param input f same h li name grouping =
      let closed =
        Lexes-append lib u laws input ")" f (◌∷◌ (punct rparen)) li (λ rest br. refl)
          (Lexes-punct lib u laws rparen "" (λ ts. ts) (λ rest ts br sc. sc)) in
      elim (Bool-cases (takes_param op)) [
        | inl t ↦
            (let numeral : is_numeral (lib.of_float param) ≡ true = ground (arith, h, t) in
              let parted =
                Lexes-punct lib u laws comma (" " <> (input <> ")")) (λ ts. f (punct rparen ∷ ts))
                  (Lexes-space lib u laws (input <> ")") (λ ts. f (punct rparen ∷ ts)) closed) in
              (
                lib.of_float param <> (", " <> (input <> ")")),
                rw same (rw t refl),
                rw t (
                    Lexes-append lib u laws (lib.of_float param) (", " <> (input <> ")"))
                      (◌∷◌ (number (lib.of_float param)))
                      (λ ts. punct comma ∷ f (punct rparen ∷ ts))
                      (Lexes-numeral lib u laws (lib.of_float param) numeral) (λ rest br. refl)
                      parted),
              ))
        | inr e ↦ (input <> ")", rw same (rw e refl), rw e closed)
      ]

-- ===== src/Loki/Endings.antt =====
-- acceptor/lokiacceptor/logqlparse.go, the parser: that its functions for selectors end, and how many
-- tokens the smaller ones leave.
use opentelemetry_querier.Base.{
  ℕ, zero, suc, ◌≤◌, String, Bool, true, false, Option, none, some, List, [], ◌∷◌, length,
  if◌then◌else◌, ◌≢◌, refl, arith,
}
use opentelemetry_querier.Qdata.Plan.{LineMatch, Node}
use opentelemetry_querier.Qdata.Predicate.{Predicate}
use opentelemetry_querier.Loki.Scan.{
  Run, LogqlError, syntax, empty_selector, ok, failed, out_of_fuel, ◌>>=◌, Punct, ident, str,
  number, punct, match_op, line_op, comma, lparen, rparen, lbrace, rbrace, lbracket, rbracket,
}
use opentelemetry_querier.Loki.Parse.{
  Tokens, same, expect, known, match_op_of, line_op_of, line_of, is_line_negation, is_select,
  parse_matchers, parse_lines, select_of, parse_selector, parse_labels,
}

-- The run ends, and its result measures `n` at most.
pub data Bound {ℓ} {A : Type ℓ} (measure : A → ℕ) (n : ℕ) : Run A → Type ℓ where
  bound_ok : (a : A) → measure a ≤ n → Bound measure n (ok a)
  bound_failed : (e : LogqlError) → Bound measure n (failed e)

pub Bound-bind {ℓ κ} :
    {A : Type ℓ} {B : Type κ} {f : A → ℕ} {g : B → ℕ} {n m : ℕ} {x : Run A} {k : A → Run B}
    → Bound f n x
    → ((a : A) → f a ≤ n → Bound g m (k a))
    → Bound g m (x >>= k)
Bound-bind (bound_ok a le) r = r a le
Bound-bind (bound_failed e) r = bound_failed e

-- The run ends.
abbrev pub Ends {ℓ} : {A : Type ℓ} → Run A → Type ℓ
Ends x = Bound (λ a. zero) zero x

pub known-Ends {ℓ} : {A : Type ℓ} (o : Option A) → Ends (known o)
known-Ends (some a) = bound_ok a (omega arith)
known-Ends none = bound_failed syntax

parse_matchers-Ends : (ts : Tokens) → Ends (parse_matchers ts)
unfolding parse_matchers
parse_matchers-Ends [] = bound_ok ([], []) (omega arith)
parse_matchers-Ends (str s ∷ ts) = bound_ok _ (omega arith)
parse_matchers-Ends (number s ∷ ts) = bound_ok _ (omega arith)
parse_matchers-Ends (punct p ∷ ts) = bound_ok _ (omega arith)
parse_matchers-Ends (match_op s ∷ ts) = bound_ok _ (omega arith)
parse_matchers-Ends (line_op s ∷ ts) = bound_ok _ (omega arith)
parse_matchers-Ends (ident n ∷ []) = bound_failed syntax
parse_matchers-Ends (ident n ∷ ident s ∷ ts) = bound_failed syntax
parse_matchers-Ends (ident n ∷ str s ∷ ts) = bound_failed syntax
parse_matchers-Ends (ident n ∷ number s ∷ ts) = bound_failed syntax
parse_matchers-Ends (ident n ∷ punct p ∷ ts) = bound_failed syntax
parse_matchers-Ends (ident n ∷ line_op s ∷ ts) = bound_failed syntax
parse_matchers-Ends (ident n ∷ match_op o ∷ []) = bound_failed syntax
parse_matchers-Ends (ident n ∷ match_op o ∷ ident s ∷ ts) = bound_failed syntax
parse_matchers-Ends (ident n ∷ match_op o ∷ number s ∷ ts) = bound_failed syntax
parse_matchers-Ends (ident n ∷ match_op o ∷ punct p ∷ ts) = bound_failed syntax
parse_matchers-Ends (ident n ∷ match_op o ∷ match_op s ∷ ts) = bound_failed syntax
parse_matchers-Ends (ident n ∷ match_op o ∷ line_op s ∷ ts) = bound_failed syntax
parse_matchers-Ends (ident n ∷ match_op o ∷ str v ∷ []) =
    Bound-bind (known-Ends (match_op_of o)) (λ op h. bound_ok _ (omega arith))
parse_matchers-Ends (ident n ∷ match_op o ∷ str v ∷ ident s ∷ ts) =
    Bound-bind (known-Ends (match_op_of o)) (λ op h. bound_ok _ (omega arith))
parse_matchers-Ends (ident n ∷ match_op o ∷ str v ∷ str s ∷ ts) =
    Bound-bind (known-Ends (match_op_of o)) (λ op h. bound_ok _ (omega arith))
parse_matchers-Ends (ident n ∷ match_op o ∷ str v ∷ number s ∷ ts) =
    Bound-bind (known-Ends (match_op_of o)) (λ op h. bound_ok _ (omega arith))
parse_matchers-Ends (ident n ∷ match_op o ∷ str v ∷ match_op s ∷ ts) =
    Bound-bind (known-Ends (match_op_of o)) (λ op h. bound_ok _ (omega arith))
parse_matchers-Ends (ident n ∷ match_op o ∷ str v ∷ line_op s ∷ ts) =
    Bound-bind (known-Ends (match_op_of o)) (λ op h. bound_ok _ (omega arith))
parse_matchers-Ends (ident n ∷ match_op o ∷ str v ∷ punct lbrace ∷ ts) =
    Bound-bind (known-Ends (match_op_of o)) (λ op h. bound_ok _ (omega arith))
parse_matchers-Ends (ident n ∷ match_op o ∷ str v ∷ punct rbrace ∷ ts) =
    Bound-bind (known-Ends (match_op_of o)) (λ op h. bound_ok _ (omega arith))
parse_matchers-Ends (ident n ∷ match_op o ∷ str v ∷ punct lparen ∷ ts) =
    Bound-bind (known-Ends (match_op_of o)) (λ op h. bound_ok _ (omega arith))
parse_matchers-Ends (ident n ∷ match_op o ∷ str v ∷ punct rparen ∷ ts) =
    Bound-bind (known-Ends (match_op_of o)) (λ op h. bound_ok _ (omega arith))
parse_matchers-Ends (ident n ∷ match_op o ∷ str v ∷ punct lbracket ∷ ts) =
    Bound-bind (known-Ends (match_op_of o)) (λ op h. bound_ok _ (omega arith))
parse_matchers-Ends (ident n ∷ match_op o ∷ str v ∷ punct rbracket ∷ ts) =
    Bound-bind (known-Ends (match_op_of o)) (λ op h. bound_ok _ (omega arith))
parse_matchers-Ends (ident n ∷ match_op o ∷ str v ∷ punct comma ∷ ts) =
    Bound-bind (known-Ends (match_op_of o))
      (λ op h. Bound-bind (parse_matchers-Ends ts) (λ x le. bound_ok _ (omega arith)))

pub Bound-if {ℓ} :
    {A : Type ℓ} {f : A → ℕ} {n : ℕ} {x y : Run A} (b : Bool)
    → Bound f n x
    → Bound f n y
    → Bound f n (if b then x else y)
Bound-if true p q = p
Bound-if false p q = q

line-Ends :
    (o v : String) (ts : Tokens)
    → Ends (parse_lines ts)
    → Ends {A = List LineMatch × Tokens} (
        known (line_op_of o) >>= λ op.
        parse_lines ts >>= λ (ls, rest). ok (line_of op v ∷ ls, rest))
line-Ends o v ts h =
    Bound-bind (known-Ends (line_op_of o)) (λ op k. Bound-bind h (λ x le. bound_ok _ (omega arith)))

pub Bound-Ends {ℓ} : {A : Type ℓ} {f : A → ℕ} {n : ℕ} {x : Run A} → Bound f n x → Ends x
Bound-Ends (bound_ok a le) = bound_ok a (omega arith)
Bound-Ends (bound_failed e) = bound_failed e

pub returned {ℓ} : {A : Type ℓ} (x : Run A) → x ≢ out_of_fuel → Ends x
returned (ok a) h = bound_ok a (omega arith)
returned (failed e) h = bound_failed e
returned out_of_fuel h = absurd (h refl)

pub Ends-returns {ℓ} : {A : Type ℓ} {x : Run A} → Ends x → x ≢ out_of_fuel
Ends-returns (bound_ok a le) e = cc
Ends-returns (bound_failed f) e = cc

parse_lines-Ends : (ts : Tokens) → Ends (parse_lines ts)
unfolding parse_lines
parse_lines-Ends [] = bound_ok _ (omega arith)
parse_lines-Ends (ident s ∷ ts) = bound_ok _ (omega arith)
parse_lines-Ends (str s ∷ ts) = bound_ok _ (omega arith)
parse_lines-Ends (number s ∷ ts) = bound_ok _ (omega arith)
parse_lines-Ends (punct p ∷ ts) = bound_ok _ (omega arith)
parse_lines-Ends (line_op o ∷ []) = bound_failed syntax
parse_lines-Ends (line_op o ∷ ident s ∷ ts) = bound_failed syntax
parse_lines-Ends (line_op o ∷ number s ∷ ts) = bound_failed syntax
parse_lines-Ends (line_op o ∷ punct p ∷ ts) = bound_failed syntax
parse_lines-Ends (line_op o ∷ match_op s ∷ ts) = bound_failed syntax
parse_lines-Ends (line_op o ∷ line_op s ∷ ts) = bound_failed syntax
parse_lines-Ends (line_op o ∷ str v ∷ ts) = line-Ends o v ts (parse_lines-Ends ts)
parse_lines-Ends (match_op o ∷ []) =
    Bound-if (is_line_negation o) (bound_failed syntax) (bound_ok _ (omega arith))
parse_lines-Ends (match_op o ∷ ident s ∷ ts) =
    Bound-if (is_line_negation o) (bound_failed syntax) (bound_ok _ (omega arith))
parse_lines-Ends (match_op o ∷ number s ∷ ts) =
    Bound-if (is_line_negation o) (bound_failed syntax) (bound_ok _ (omega arith))
parse_lines-Ends (match_op o ∷ punct p ∷ ts) =
    Bound-if (is_line_negation o) (bound_failed syntax) (bound_ok _ (omega arith))
parse_lines-Ends (match_op o ∷ match_op s ∷ ts) =
    Bound-if (is_line_negation o) (bound_failed syntax) (bound_ok _ (omega arith))
parse_lines-Ends (match_op o ∷ line_op s ∷ ts) =
    Bound-if (is_line_negation o) (bound_failed syntax) (bound_ok _ (omega arith))
parse_lines-Ends (match_op o ∷ str v ∷ ts) =
    Bound-if (is_line_negation o) (line-Ends o v ts (parse_lines-Ends ts))
      (bound_ok _ (omega arith))

-- A token less is left behind an expected one.
pub expect-Bound :
    (p : Punct) (ts : Tokens) → Bound (λ ts'. suc (length ts')) (length ts) (expect p ts)
unfolding expect
expect-Bound p [] = bound_failed syntax
expect-Bound p (punct q ∷ ts) =
    elim (same q p)
      as (λ b.
        Bound (λ ts'. suc (length ts')) (suc (length ts)) (if b then ok ts else failed syntax)) [
          | true ↦ bound_ok ts (omega arith)
          | false ↦ bound_failed syntax
        ]
expect-Bound p (ident s ∷ ts) = bound_failed syntax
expect-Bound p (str s ∷ ts) = bound_failed syntax
expect-Bound p (number s ∷ ts) = bound_failed syntax
expect-Bound p (match_op s ∷ ts) = bound_failed syntax
expect-Bound p (line_op s ∷ ts) = bound_failed syntax

pub closing-Ends :
    (n : Node) (ts : Tokens) → Ends (if is_select n then failed syntax else expect rparen ts)
closing-Ends n ts =
    Bound-if (is_select n) (bound_failed syntax) (Bound-Ends (expect-Bound rparen ts))

pub select_of-Ends : (leaves : List Predicate) (ts : Tokens) → Ends (select_of leaves ts)
unfolding select_of
select_of-Ends [] ts = bound_failed empty_selector
select_of-Ends (p ∷ ps) ts = Bound-bind (parse_lines-Ends ts) (λ x le. bound_ok _ (omega arith))

pub parse_selector-Ends : (ts : Tokens) → Ends (parse_selector ts)
unfolding parse_selector
parse_selector-Ends ts = Bound-bind (expect-Bound lbrace ts) (λ inside h.
    Bound-bind (parse_matchers-Ends inside)
      (λ x h'. Bound-bind (expect-Bound rbrace x.1) (λ behind h''. select_of-Ends x.0 behind)))

pub parse_labels_size : (ts : Tokens) → length (parse_labels ts).1 ≤ length ts
unfolding parse_labels
parse_labels_size [] = omega arith
parse_labels_size (str s ∷ ts) = omega arith
parse_labels_size (number s ∷ ts) = omega arith
parse_labels_size (punct p ∷ ts) = omega arith
parse_labels_size (match_op s ∷ ts) = omega arith
parse_labels_size (line_op s ∷ ts) = omega arith
parse_labels_size (ident l ∷ []) = omega arith
parse_labels_size (ident l ∷ str s ∷ ts) = omega arith
parse_labels_size (ident l ∷ number s ∷ ts) = omega arith
parse_labels_size (ident l ∷ match_op s ∷ ts) = omega arith
parse_labels_size (ident l ∷ line_op s ∷ ts) = omega arith
parse_labels_size (ident l ∷ ident l' ∷ ts) = omega (arith, parse_labels_size (ident l' ∷ ts))
parse_labels_size (ident l ∷ punct lbrace ∷ ts) = omega arith
parse_labels_size (ident l ∷ punct rbrace ∷ ts) = omega arith
parse_labels_size (ident l ∷ punct lparen ∷ ts) = omega arith
parse_labels_size (ident l ∷ punct rparen ∷ ts) = omega arith
parse_labels_size (ident l ∷ punct lbracket ∷ ts) = omega arith
parse_labels_size (ident l ∷ punct rbracket ∷ ts) = omega arith
parse_labels_size (ident l ∷ punct comma ∷ ts) = omega (arith, parse_labels_size ts)

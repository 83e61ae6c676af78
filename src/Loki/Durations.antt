-- ===== src/Loki/Durations.antt =====
-- dispatcher/lokidispatcher/logql.go and acceptor/lokiacceptor/logqlparse.go: the window of a range
-- aggregation, as the one writes it and the other reads it.
use opentelemetry_querier.Base.{
  ◌*◌, ◌/◌, ◌%◌, ℤ, pos, negsuc, String, true, ◌||◌, some, ◌∷◌, ◌==◌, ◌<>◌, ◌≡◌, refl, ap, ◌∙◌,
  arith, text_assoc, Bool-cases, inl, inr,
}
use mathlib.Core.Path.{subst}
use Prim.Native.Char.{Char}
use opentelemetry_querier.Golib.{
  Strconv, Unicode, millisecond, second, divides, divided, ascii_digit, ascii_letter,
}
use opentelemetry_querier.Golib.Literals.{StrconvLaws, UnicodeLaws, every, is_decimal, is_numeral}
use opentelemetry_querier.Loki.Scan.{ok, number}
use opentelemetry_querier.Loki.Render.{logql_duration}
use opentelemetry_querier.Loki.Parse.{Tokens, split_last, parse_duration_text, parse_window}
use opentelemetry_querier.Loki.Pieces.{Lexes, Lexes-number}
use opentelemetry_querier.Loki.Canonical.{is_window}

last-append : (c d : Char) (s : String) → (split_last c (s <> String.◌∷◌ d "")).1 ≡ d
unfolding split_last
last-append c d String.[] = refl
last-append c d (String.◌∷◌ e s) = last-append e d s

module _ (lib : Strconv) (u : Unicode) where
  -- A duration whose unit is one of time.ParseDuration is read by it.
  seconds_text :
      (c : Char) (s : String) (d : ℤ)
      → lib.parse_duration (String.◌∷◌ c (s <> "s")) ≡ some d
      → parse_duration_text lib u (String.◌∷◌ c (s <> "s")) ≡ ok d
  unfolding parse_duration_text
  seconds_text c s d h = rw (last-append c "s" s) (rw h refl)

  units_text :
      (s unit : String) (d : ℤ)
      → is_decimal s ≡ true
      → lib.parse_duration (s <> (unit <> "s")) ≡ some d
      → parse_duration_text lib u (s <> (unit <> "s")) ≡ ok d
  units_text String.[] unit d h e = cc
  units_text (String.◌∷◌ c s) unit d h e =
      let shape : ((s <> unit) <> "s") ≡ s <> (unit <> "s") = text_assoc s unit "s" in
      subst (λ t. parse_duration_text lib u (String.◌∷◌ c t) ≡ ok d) shape
        (seconds_text c (s <> unit) d (ap (λ t. lib.parse_duration (String.◌∷◌ c t)) shape ∙ e))

  every_numeral :
      (s : String) → every ascii_digit s ≡ true → every (λ c. ascii_digit c || c == b'.') s ≡ true
  every_numeral String.[] h = refl
  every_numeral (String.◌∷◌ c s) h = ground (arith, every_numeral s)

  decimal_numeral : (s : String) → is_decimal s ≡ true → is_numeral s ≡ true
  decimal_numeral s h = ground (arith, every_numeral s)

  -- A window is a token, which the parser reads back.
  abbrev Window : String → ℤ → (laws : UnicodeLaws u) → Type 0
  Window text w laws =
      Lexes lib u laws text (◌∷◌ (number text))
      × ((ts : Tokens) → parse_window lib u (number text ∷ ts) ≡ ok (w, ts))

  unit-Window :
      (laws : UnicodeLaws u) (s unit : String) (w : ℤ)
      → is_decimal s ≡ true
      → every ascii_letter (unit <> "s") ≡ true
      → lib.parse_duration (s <> (unit <> "s")) ≡ some w
      → Window (s <> (unit <> "s")) w laws
  unfolding parse_window
  unit-Window laws s unit w d l e = (
    Lexes-number lib u laws s (unit <> "s") (decimal_numeral s d) l,
    λ ts. rw (units_text s unit w d e) refl,
  )

  pub duration-Window :
      (laws : UnicodeLaws u) (slaws : StrconvLaws lib) (w : ℤ)
      → is_window w ≡ true
      → Window (logql_duration lib w) w laws
  unfolding logql_duration divides divided
  duration-Window laws slaws (negsuc n) h = cc
  duration-Window laws slaws (pos n) h = elim (Bool-cases (n % second == 0)) [
    | inl t ↦
        (let whole : (n / second) * second ≡ n = ground (arith, t) in
          let parsed : lib.parse_duration (lib.of_int (pos (n / second)) <> "s") ≡ some (pos n) =
            slaws.seconds (n / second) (ground (arith, h, whole)) ∙ ap (λ m. some (pos m)) whole in
          rw t (
            unit-Window laws (lib.of_int (pos (n / second))) "" (pos n) (slaws.decimal (n / second))
              refl parsed))
    | inr f ↦
        (let whole : (n / millisecond) * millisecond ≡ n = ground (arith, h) in
          let parsed : lib.parse_duration (lib.of_int (pos (n / millisecond)) <> "ms")
              ≡ some (pos n) =
            slaws.milliseconds (n / millisecond) (ground (arith, h, whole))
            ∙ ap (λ m. some (pos m)) whole in
          rw f (
            unit-Window laws (lib.of_int (pos (n / millisecond))) "m" (pos n)
              (slaws.decimal (n / millisecond)) refl parsed))
  ]

-- ===== src/Tests/PlainText.antt =====
-- A library of plain texts for the parameters, with escaped quotes and numbers in ones.
use opentelemetry_querier.Base.{
  ℕ, zero, suc, ◌*◌, ℤ, pos, negsuc, String, Bool, true, false, ◌||◌, Option, none, some, ◌==◌,
  ◌<>◌, size, str_eq, if◌then◌else◌, ◌≡◌, ◌≢◌, refl, ap, ◌∙◌, arith, Bool-cases, inl, inr,
}
use Prim.Native.Char.{Char, code}
use opentelemetry_querier.Golib.{
  Strconv, Unicode, ascii_space, ascii_digit, ascii_letter, second, millisecond,
}
use opentelemetry_querier.Golib.Literals.{
  StrconvLaws, UnicodeLaws, Body, close, plain, escaped, is_decimal,
}

abbrev pub is_special : ℕ → Bool
is_special c = c == b'"' || c == b'\\'

-- the literal behind its opening quote
unfoldable pub escape : String → String
escape String.[] = "\""
escape (String.◌∷◌ c s) =
    let rest = escape s in
    if is_special (code c) then String.◌∷◌ "\\" (String.◌∷◌ c rest) else String.◌∷◌ c rest

unfoldable pub unescape : String → String
unescape String.[] = ""
unescape (String.◌∷◌ c String.[]) = ""
unescape (String.◌∷◌ c (String.◌∷◌ d s)) =
    let rest = unescape s in
    let on = unescape (String.◌∷◌ d s) in
    if code c == b'\\' then String.◌∷◌ d rest else String.◌∷◌ c on

abbrev pub opened : String → Option String
opened String.[] = none
opened (String.◌∷◌ c s) = some (unescape s)

-- a number as so many digits and one
unfoldable pub ones : ℕ → String
ones zero = "1"
ones (suc n) = String.◌∷◌ "1" (ones n)

-- the number of the digits, and what stands behind them
unfoldable pub strip : String → ℕ × String
strip String.[] = (zero, "")
strip (String.◌∷◌ c s) =
    let (n, rest) = strip s in if code c == b'1' then (suc n, rest) else (zero, String.◌∷◌ c s)

abbrev pub pred : ℕ → ℕ
pred zero = zero
pred (suc n) = n

abbrev pub in_units : ℕ × String → Option ℤ
in_units (n, unit) =
    if str_eq unit "s"
    then some (pos (pred n * second))
    else if str_eq unit "ms"
    then some (pos (pred n * millisecond))
    else none

abbrev pub decimal : ℤ → String
decimal (pos n) = ones n
decimal (negsuc n) = ""

abbrev pub plain_lib : Strconv
plain_lib = record {
  quote = λ s. "\"" <> escape s;
  unquote = opened;
  of_float = ones;
  of_int = decimal;
  parse_float = λ s. some (pred (size s));
  parse_duration = λ s. in_units (strip s);
  scaled = λ f d. d;
}

abbrev pub ascii : Unicode
ascii = record { is_space = ascii_space; is_digit = ascii_digit; is_letter = ascii_letter }

escape-Body : (s : String) → Body (escape s)
unfolding escape
escape-Body String.[] = close "\"" refl
escape-Body (String.◌∷◌ c s) = elim (Bool-cases (is_special (code c))) [
  | inl t ↦ rw t (escaped "\\" c (escape s) refl (escape-Body s))
  | inr f ↦ rw f (plain c (escape s) (ground (arith, f)) (ground (arith, f)) (escape-Body s))
]

escape-not_nil : (s : String) → escape s ≢ ""
unfolding escape
escape-not_nil String.[] e = cc
escape-not_nil (String.◌∷◌ c s) e = elim (Bool-cases (is_special (code c))) [
  | inl t ↦ (let e' = rw t at e in cc)
  | inr f ↦ (let e' = rw f at e in cc)
]

unescape-plain :
    (c : Char) (s : String)
    → (code c == b'\\') ≡ false
    → s ≢ ""
    → unescape (String.◌∷◌ c s) ≡ String.◌∷◌ c (unescape s)
unfolding unescape
unescape-plain c String.[] h k = absurd (k refl)
unescape-plain c (String.◌∷◌ d s) h k = rw h refl

unescape-escape : (s : String) → unescape (escape s) ≡ s
unfolding escape unescape
unescape-escape String.[] = refl
unescape-escape (String.◌∷◌ c s) = elim (Bool-cases (is_special (code c))) [
  | inl t ↦ rw t (ap (String.◌∷◌ c) (unescape-escape s))
  | inr f ↦ rw f (
      unescape-plain c (escape s) (ground (arith, f)) (escape-not_nil s)
      ∙ ap (String.◌∷◌ c) (unescape-escape s))
]

ones-is_decimal : (n : ℕ) → is_decimal (ones n) ≡ true
unfolding ones
ones-is_decimal zero = refl
ones-is_decimal (suc n) = ground (arith, ones-is_decimal n)

size-ones : (n : ℕ) → size (ones n) ≡ suc n
unfolding ones
size-ones zero = refl
size-ones (suc n) = ap suc (size-ones n)

strip-ones :
    (n : ℕ) (unit : String) → strip unit ≡ (zero, unit) → strip (ones n <> unit) ≡ (suc n, unit)
unfolding ones strip
strip-ones zero unit h = rw h refl
strip-ones (suc n) unit h = rw (strip-ones n unit h) refl

pub plain_laws : StrconvLaws plain_lib
unfolding strip
plain_laws = record {
  quoted = λ s. (escape s, refl, escape-Body s);
  unquoted = λ s. ap some (unescape-escape s);
  float = λ f h. rw (size-ones f) refl;
  decimal = ones-is_decimal;
  seconds = λ n h. rw (strip-ones n "s" refl) refl;
  milliseconds = λ n h. rw (strip-ones n "ms" refl) refl;
}

pub ascii_laws : UnicodeLaws ascii
ascii_laws = record { space = λ c h. refl; digit = λ c h. refl; letter = λ c h. refl }

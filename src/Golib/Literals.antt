-- ===== src/Golib/Literals.antt =====
-- The documented behaviour of the parameters of Golib.
use opentelemetry_querier.Base.{
  ℕ, ◌*◌, pos, String, Bool, true, false, ◌&&◌, ◌||◌, some, ltb, ◌==◌, ◌≡◌, ◌<>◌,
}
use Prim.Native.Char.{Char, code}
use opentelemetry_querier.Golib.{
  Strconv, Unicode, ascii_space, ascii_digit, ascii_letter, second, millisecond, int64_end,
}
use opentelemetry_querier.Qdata.Plan.{Float}

-- What stands behind the opening quote of a literal in double quotes: plain characters and escaped
-- ones, up to the closing quote.
pub data Body : String → Type 0 where
  close : (s : String) → s ≡ "\"" → Body s
  plain :
      (c : Char) (s : String)
      → (code c == b'"') ≡ false
      → (code c == b'\\') ≡ false
      → Body s
      → Body (String.◌∷◌ c s)
  escaped :
      (c d : Char) (s : String)
      → (code c == b'\\') ≡ true
      → Body s
      → Body (String.◌∷◌ c (String.◌∷◌ d s))

abbrev pub IsQuoted : String → Type 0
IsQuoted s = (body : String) × (s ≡ "\"" <> body) × Body body

-- Every character of the text passes the test.
abbrev pub every : (ℕ → Bool) → String → Bool
every p String.[] = true
every p (String.◌∷◌ c s) = p (code c) && every p s

abbrev pub starts_digit : String → Bool
starts_digit String.[] = false
starts_digit (String.◌∷◌ c s) = ascii_digit (code c)

-- A number with no sign and no exponent: digits and dots, the first of them a digit.
abbrev pub is_numeral : String → Bool
is_numeral s = starts_digit s && every (λ c. ascii_digit c || c == b'.') s

-- A number in decimal.
abbrev pub is_decimal : String → Bool
is_decimal s = starts_digit s && every ascii_digit s

pub record StrconvLaws (lib : Strconv) : Type 0 where
  pub quoted : (s : String) → IsQuoted (lib.quote s)
  pub unquoted : (s : String) → lib.unquote (lib.quote s) ≡ some s
  pub float :
      (f : Float) → is_numeral (lib.of_float f) ≡ true → lib.parse_float (lib.of_float f) ≡ some f
  pub decimal : (n : ℕ) → is_decimal (lib.of_int (pos n)) ≡ true
  pub seconds :
      (n : ℕ)
      → ltb (n * second) int64_end ≡ true
      → lib.parse_duration (lib.of_int (pos n) <> "s") ≡ some (pos (n * second))
  pub milliseconds :
      (n : ℕ)
      → ltb (n * millisecond) int64_end ≡ true
      → lib.parse_duration (lib.of_int (pos n) <> "ms") ≡ some (pos (n * millisecond))

pub record UnicodeLaws (u : Unicode) : Type 0 where
  pub space : (c : ℕ) → ltb c 128 ≡ true → u.is_space c ≡ ascii_space c
  pub digit : (c : ℕ) → ltb c 128 ≡ true → u.is_digit c ≡ ascii_digit c
  pub letter : (c : ℕ) → ltb c 128 ≡ true → u.is_letter c ≡ ascii_letter c

-- ===== src/Golib.antt =====
-- What the query languages take from Go's standard library, as parameters: packages strconv, time
-- and unicode, and the division of signed integers.
pub mod Literals
use opentelemetry_querier.Base.{
  ℕ, zero, suc, ◌*◌, ◌%◌, ◌/◌, ℤ, pos, negsuc, String, Bool, ◌&&◌, ◌||◌, Option, true, false, ltb,
  leb, ◌==◌,
}
use opentelemetry_querier.Qdata.Plan.{Float}

-- `quote` and `unquote` are strconv.Quote and strconv.Unquote, `of_float` is strconv.FormatFloat with
-- the format 'f' and the precision -1, `of_int` is strconv.FormatInt at base 10, `parse_float` is
-- strconv.ParseFloat and `parse_duration` is time.ParseDuration; `scaled f d` is the duration of
-- `f * float64(d)`. An error is `none`.
pub record Strconv : Type 0 where
  pub quote : String → String
  pub unquote : String → Option String
  pub of_float : Float → String
  pub of_int : ℤ → String
  pub parse_float : String → Option Float
  pub parse_duration : String → Option ℤ
  pub scaled : Float → ℤ → ℤ

-- unicode.IsSpace, unicode.IsDigit and unicode.IsLetter at a code point
pub record Unicode : Type 0 where
  pub is_space : ℕ → Bool
  pub is_digit : ℕ → Bool
  pub is_letter : ℕ → Bool

abbrev pub ascii_space : ℕ → Bool
ascii_space c = c == 32 || (leb 9 c && leb c 13)

abbrev pub ascii_digit : ℕ → Bool
ascii_digit c = leb b'0' c && leb c b'9'

abbrev pub ascii_letter : ℕ → Bool
ascii_letter c = (leb b'a' c && leb c b'z') || (leb b'A' c && leb c b'Z')

abbrev pub second : ℕ
second = 1000000000

abbrev pub millisecond : ℕ
millisecond = 1000000

-- the least number of nanoseconds that is no int64
abbrev pub int64_end : ℕ
int64_end = 9223372036854775808

-- `a / b` and `dur.Milliseconds()` of Go, which cut towards 0
unfoldable pub divided : ℤ → ℕ → ℤ
divided (pos n) d = pos (n / d)
divided (negsuc n) d = elim (suc n / d) [ zero ↦ pos 0 | suc m ↦ negsuc m ]

-- `a % b == 0`
unfoldable pub divides : ℕ → ℤ → Bool
divides d (pos n) = n % d == 0
divides d (negsuc n) = suc n % d == 0

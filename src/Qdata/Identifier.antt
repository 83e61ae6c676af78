-- ===== src/Qdata/Identifier.antt =====
-- qdata/identifier.go: the names that a dispatcher may write into a query text.
use opentelemetry_querier.Base.{
  ℕ, String, Bool, true, false, ◌&&◌, ◌||◌, leb, ◌==◌, ◌≡◌, ◌↔◌, ◌∙◌, sym, ap, refl, arith,
}
use Prim.Native.Char.{Char, code}
use Prim.Native.String.{◌++◌ as ◌<>◌}
use Prim.Native.String.append

-- `_`, `a` to `z`, `A` to `Z`
abbrev pub starts_name : ℕ → Bool
starts_name c = c == b'_' || (leb b'a' c && leb c b'z') || (leb b'A' c && leb c b'Z')

abbrev pub is_digit : ℕ → Bool
is_digit c = leb b'0' c && leb c b'9'

-- the loop of `ValidIdentifier`; `later` is `index > 0`
unfoldable pub valid_from : Bool → String → Bool
valid_from later String.[] = true
valid_from later (String.◌∷◌ c s) =
    (starts_name (code c) || later && is_digit (code c)) && valid_from true s

-- `ValidIdentifier`
unfoldable pub valid_identifier : String → Bool
unfolding valid_from
valid_identifier String.[] = false
valid_identifier (String.◌∷◌ c s) = valid_from false (String.◌∷◌ c s)

-- A letter, a digit or an underscore.
abbrev pub is_word : ℕ → Bool
is_word c = starts_name c || is_digit c

-- Wherever a text is cut, the character behind the cut is a word character.
abbrev pub AllWord : String → Type 0
AllWord s = (u v : String) (c : Char) → s ≡ u <> String.◌∷◌ c v → is_word (code c) ≡ true

-- The character that a text begins with may begin a name.
abbrev pub Starts : String → Type 0
Starts s = (c : Char) × (v : String) × (s ≡ String.◌∷◌ c v) × (starts_name (code c) ≡ true)

word_from :
    (later : Bool) (u v : String) (c : Char)
    → valid_from later (u <> String.◌∷◌ c v) ≡ true
    → is_word (code c) ≡ true
unfolding valid_from
word_from later String.[] v c h =
    let here : valid_from later (String.◌∷◌ c v) ≡ true =
      sym (ap (valid_from later) (append.nil (String.◌∷◌ c v))) ∙ h in
    ground arith
word_from later (String.◌∷◌ d u) v c h =
    let here : valid_from later (String.◌∷◌ d (u <> String.◌∷◌ c v)) ≡ true =
      sym (ap (valid_from later) (append.cons d u (String.◌∷◌ c v))) ∙ h in
    word_from true u v c (ground arith)

from_words : (s : String) → AllWord s → valid_from true s ≡ true
unfolding valid_from
from_words String.[] h = refl
from_words (String.◌∷◌ c s) h =
    let here : is_word (code c) ≡ true = h String.[] s c (sym (append.nil (String.◌∷◌ c s))) in
    let rest : valid_from true s ≡ true = from_words s (λ u v d e.
      h (String.◌∷◌ c u) v d (ap (String.◌∷◌ c) e ∙ sym (append.cons c u (String.◌∷◌ d v)))) in
    ground (arith, here, rest)

valid-AllWord : (s : String) → valid_identifier s ≡ true → AllWord s
unfolding valid_identifier
valid-AllWord String.[] h u v c e = cc
valid-AllWord (String.◌∷◌ d s) h u v c e = word_from false u v c (sym (ap (valid_from false) e) ∙ h)

valid-Starts : (s : String) → valid_identifier s ≡ true → Starts s
unfolding valid_identifier valid_from
valid-Starts String.[] h = cc
valid-Starts (String.◌∷◌ c s) h = (c, s, refl, ground arith)

valid_of : (s : String) → Starts s → AllWord s → valid_identifier s ≡ true
unfolding valid_identifier valid_from
valid_of s (c, v, e, first) h =
    let rest : valid_from true v ≡ true = from_words v (λ u w d p.
      h (String.◌∷◌ c u) w d (e ∙ ap (String.◌∷◌ c) p ∙ sym (append.cons c u (String.◌∷◌ d w)))) in
    rw e (ground (arith, first, rest))

-- The check accepts exactly the texts that begin with a letter or an underscore and in which every
-- character, wherever it stands, is a letter, a digit or an underscore of ASCII.
pub valid_identifier_iff : (s : String) → (valid_identifier s ≡ true) ↔ (Starts s × AllWord s)
valid_identifier_iff s = (λ h. (valid-Starts s h, valid-AllWord s h), λ h. valid_of s h.0 h.1)

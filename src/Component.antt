-- ===== src/Component.antt =====
-- Component ids and the configured pipelines: component/component.go, component/identifiable.go and
-- querier/config.go.
pub mod RoundTrip
pub mod Config
use opentelemetry_querier.Base.{
  ℕ, String, Bool, true, false, ◌&&◌, ◌||◌, Option, none, some, leb, ◌==◌, ◌<>◌, str_eq,
  if◌then◌else◌,
}
use opentelemetry_querier.Qerror.{Outcome, ok, err, ◌>>=◌, plain, wrapped}
use Prim.Native.Char.{code}
use opentelemetry_querier.Golib.{Unicode, ascii_digit}

-- `a` to `z`
abbrev pub is_lower : ℕ → Bool
is_lower c = leb b'a' c && leb c b'z'

-- the rest of `typeNameRegexp`: letters, digits and underscores
unfoldable pub type_rest : String → Bool
type_rest String.[] = true
type_rest (String.◌∷◌ c s) =
    (is_lower (code c) || ascii_digit (code c) || code c == b'_') && type_rest s

-- `typeNameRegexp`, as `NewType` matches it
unfoldable pub valid_type : String → Bool
unfolding type_rest
valid_type String.[] = false
valid_type (String.◌∷◌ c s) = is_lower (code c) && type_rest s

-- `ID`; the type is the name in `Type`.
pub record ComponentId : Type 0 where
  pub typ : String
  pub name : String

-- `ID.String` and `ID.MarshalText`
unfoldable pub id_string : ComponentId → String
id_string id = if str_eq id.name "" then id.typ else id.typ <> ("/" <> id.name)

-- `strings.Cut` at a slash: what stands before it, and what stands behind it if there is one
unfoldable pub cut_slash : String → String × Option String
cut_slash String.[] = ("", none)
cut_slash (String.◌∷◌ c s) =
    let (before, after) = cut_slash s in
    if code c == b'/' then ("", some s) else (String.◌∷◌ c before, after)

module _ (u : Unicode) where
  unfoldable pub trim_left : String → String
  trim_left String.[] = ""
  trim_left (String.◌∷◌ c s) =
      let rest = trim_left s in if u.is_space (code c) then rest else String.◌∷◌ c s

  unfoldable pub trim_right : String → String
  trim_right String.[] = ""
  trim_right (String.◌∷◌ c s) =
      let rest = trim_right s in
      if u.is_space (code c) && str_eq rest "" then "" else String.◌∷◌ c rest

  -- `strings.TrimSpace`
  unfoldable pub trim : String → String
  unfolding trim_left trim_right
  trim s = trim_right (trim_left s)

  -- the type in front of the slash, with `NewType`
  unfoldable pub parse_type : String → Outcome String
  unfolding trim valid_type
  parse_type raw =
      if str_eq (trim raw) ""
      then err (wrapped "%w: %q" (plain "component: id missing type"))
      else if valid_type (trim raw)
      then ok (trim raw)
      else err (wrapped "%w %q: must match %s" (plain "component: invalid type name"))

  -- the name behind the slash, if there is one
  unfoldable pub parse_name : Option String → Outcome String
  unfolding trim
  parse_name none = ok ""
  parse_name (some raw) =
      if str_eq (trim raw) ""
      then err (wrapped "%w: %q" (plain "component: id has empty name after '/'"))
      else ok (trim raw)

  -- `ID.UnmarshalText`
  unfoldable pub parse_id : String → Outcome ComponentId
  unfolding cut_slash parse_type parse_name
  parse_id raw = do
    typ ← parse_type (cut_slash raw).0
    name ← parse_name (cut_slash raw).1
    ok (record { typ = typ; name = name })

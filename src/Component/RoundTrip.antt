-- ===== src/Component/RoundTrip.antt =====
-- component/identifiable.go: an id that was read, written and read again.
use opentelemetry_querier.Base.{
  ℕ, String, Bool, true, false, ◌&&◌, ◌||◌, Option, none, some, ◌==◌, ◌<>◌, str_eq, str_eq_iff,
  size, ◌≤◌, if◌then◌else◌, ◌≡◌, ◌⊎◌, refl, ap, sym, ◌∙◌, arith, Bool-cases, inl, inr,
}
use opentelemetry_querier.Qerror.{Error, plain, wrapped, ok, err, ◌>>=◌}
use opentelemetry_querier.Qerror.Steps.{bind-ok, ok-injective}
use mathlib.Core.Path.{subst}
use Prim.Native.Char.{code}
use opentelemetry_querier.Golib.{Unicode, ascii_digit}
use opentelemetry_querier.Golib.Literals.{UnicodeLaws}
use opentelemetry_querier.Component.{
  is_lower, type_rest, valid_type, ComponentId, id_string, cut_slash, trim_left, trim_right, trim,
  parse_type, parse_name, parse_id,
}

cut-type : (t : String) → type_rest t ≡ true → cut_slash t ≡ (t, none)
unfolding type_rest cut_slash
cut-type String.[] h = refl
cut-type (String.◌∷◌ c s) h =
    let no_slash : (code c == b'/') ≡ false = ground arith in
    rw (cut-type s (ground arith)) (rw no_slash refl)

cut-named : (t name : String) → type_rest t ≡ true → cut_slash (t <> ("/" <> name)) ≡ (t, some name)
unfolding type_rest cut_slash
cut-named String.[] name h = refl
cut-named (String.◌∷◌ c s) name h =
    let no_slash : (code c == b'/') ≡ false = ground arith in
    rw (cut-named s name (ground arith)) (rw no_slash refl)

valid-type_rest : (t : String) → valid_type t ≡ true → type_rest t ≡ true
unfolding valid_type type_rest
valid-type_rest String.[] h = cc
valid-type_rest (String.◌∷◌ c s) h = ground arith

type-not_empty : (t : String) → valid_type t ≡ true → str_eq t "" ≡ false
unfolding valid_type
type-not_empty String.[] h = cc
type-not_empty (String.◌∷◌ c s) h = elim (Bool-cases (str_eq (String.◌∷◌ c s) "")) [
  | inl t ↦ (let e = (str_eq_iff (String.◌∷◌ c s) "").0 t in cc)
  | inr f ↦ f
]

one_test :
    (a : Bool) (x t : String) (e : Error)
    → (if a then err e else ok x) ≡ ok t
    → (a ≡ false) × (x ≡ t)
one_test true x t e h = cc
one_test false x t e h = (refl, ok-injective x t h)

two_tests :
    (a b : Bool) (x t : String) (e f : Error)
    → (if a then err e else if b then ok x else err f) ≡ ok t
    → (a ≡ false) × (b ≡ true) × (x ≡ t)
two_tests true b x t e f h = cc
two_tests false true x t e f h = (refl, refl, ok-injective x t h)
two_tests false false x t e f h = cc

module _ (u : Unicode) where
  trim_right-twice : (s : String) → trim_right u (trim_right u s) ≡ trim_right u s
  unfolding trim_right
  trim_right-twice String.[] = refl
  trim_right-twice (String.◌∷◌ c s) =
      elim (Bool-cases (u.is_space (code c) && str_eq (trim_right u s) "")) [
        | inl t ↦ rw t refl
        | inr f ↦ rw f (rw (trim_right-twice s) (rw f refl))
      ]

  left_size : (s : String) → size (trim_left u s) ≤ size s
  unfolding trim_left
  left_size String.[] = omega arith
  left_size (String.◌∷◌ c s) = ground (arith, left_size s)

  -- What begins with no space keeps its beginning.
  left_kept : (s : String) → trim_left u s ≡ s → trim_left u (trim_right u s) ≡ trim_right u s
  unfolding trim_left trim_right
  left_kept String.[] h = refl
  left_kept (String.◌∷◌ c s) h = elim (Bool-cases (u.is_space (code c))) [
    | inl t ↦
        (let shorter : trim_left u s ≡ String.◌∷◌ c s = rw t at h in
          absurd (omega (arith, left_size s, ap size shorter)))
    | inr f ↦ rw f (rw f refl)
  ]

  trim_left-twice : (s : String) → trim_left u (trim_left u s) ≡ trim_left u s
  unfolding trim_left
  trim_left-twice String.[] = refl
  trim_left-twice (String.◌∷◌ c s) = elim (Bool-cases (u.is_space (code c))) [
    | inl t ↦ rw t (trim_left-twice s)
    | inr f ↦ rw f (rw f refl)
  ]

  trim-twice : (s : String) → trim u (trim u s) ≡ trim u s
  unfolding trim
  trim-twice s =
      ap (trim_right u) (left_kept (trim_left u s) (trim_left-twice s))
      ∙ trim_right-twice (trim_left u s)

module _ (u : Unicode) (laws : UnicodeLaws u) where
  type_no_space : (c : ℕ) → (is_lower c || ascii_digit c || c == b'_') ≡ true → u.is_space c ≡ false
  type_no_space c h = ground (arith, laws.space c)

  right_type : (t : String) → type_rest t ≡ true → trim_right u t ≡ t
  unfolding type_rest trim_right
  right_type String.[] h = refl
  right_type (String.◌∷◌ c s) h =
      let no_space : u.is_space (code c) ≡ false = type_no_space (code c) (ground arith) in
      rw no_space (ap (String.◌∷◌ c) (right_type s (ground arith)))

  left_type : (t : String) → type_rest t ≡ true → trim_left u t ≡ t
  unfolding type_rest trim_left
  left_type String.[] h = refl
  left_type (String.◌∷◌ c s) h =
      let no_space : u.is_space (code c) ≡ false = type_no_space (code c) (ground arith) in
      rw no_space refl

  type_parsed : (t : String) → valid_type t ≡ true → parse_type u t ≡ ok t
  unfolding parse_type trim
  type_parsed t h =
      let rest = valid-type_rest t h in
      let trimmed : trim_right u (trim_left u t) ≡ t =
        ap (trim_right u) (left_type t rest) ∙ right_type t rest in
      rw trimmed (rw (type-not_empty t h) (rw h refl))

  parsed_type : (raw t : String) → parse_type u raw ≡ ok t → valid_type t ≡ true
  unfolding parse_type
  parsed_type raw t h =
      let (a, b, e) =
        two_tests (str_eq (trim u raw) "") (valid_type (trim u raw)) (trim u raw) t
          (wrapped "%w: %q" (plain "component: id missing type"))
          (wrapped "%w %q: must match %s" (plain "component: invalid type name")) h in
      sym (ap valid_type e) ∙ b

  -- What a name is, if there is one behind the slash.
  parsed_name :
      (o : Option String) (name : String)
      → parse_name u o ≡ ok name
      → (name ≡ "") ⊎ ((str_eq name "" ≡ false) × (trim u name ≡ name))
  unfolding parse_name
  parsed_name none name h = inl (sym (ok-injective "" name h))
  parsed_name (some raw) name h =
      let (a, e) =
        one_test (str_eq (trim u raw) "") (trim u raw) name
          (wrapped "%w: %q" (plain "component: id has empty name after '/'")) h in
      inr (sym (ap (λ n. str_eq n "") e) ∙ a, sym (ap (trim u) e) ∙ trim-twice u raw ∙ e)

  unnamed_parsed :
      (typ : String) → valid_type typ ≡ true → parse_id u typ ≡ ok (record { typ = typ; name = "" })
  unfolding parse_id parse_name
  unnamed_parsed typ h = rw (cut-type typ (valid-type_rest typ h)) (rw (type_parsed typ h) refl)

  named_parsed :
      (typ name : String)
      → valid_type typ ≡ true
      → str_eq name "" ≡ false
      → trim u name ≡ name
      → parse_id u (typ <> ("/" <> name)) ≡ ok (record { typ = typ; name = name })
  unfolding parse_id parse_name
  named_parsed typ name h k e =
      rw (cut-named typ name (valid-type_rest typ h)) (rw (type_parsed typ h) (rw e (rw k refl)))

  string_parsed :
      (typ name : String)
      → valid_type typ ≡ true
      → (name ≡ "") ⊎ ((str_eq name "" ≡ false) × (trim u name ≡ name))
      → parse_id u (id_string (record { typ = typ; name = name }))
        ≡ ok (record { typ = typ; name = name })
  unfolding id_string
  string_parsed typ name h (inl e) = rw e (unnamed_parsed typ h)
  string_parsed typ name h (inr (k, e)) = rw k (named_parsed typ name h k e)

  -- An id that was parsed is written as a text that parses to it.
  pub parse_id-id_string :
      (raw : String) (id : ComponentId) → parse_id u raw ≡ ok id → parse_id u (id_string id) ≡ ok id
  unfolding parse_id
  parse_id-id_string raw id h =
      let (typ, ht, h') =
        bind-ok (parse_type u (cut_slash raw).0)
          (λ t. parse_name u (cut_slash raw).1 >>= λ n. ok (record { typ = t; name = n })) id h in
      let (name, hn, e) =
        bind-ok (parse_name u (cut_slash raw).1) (λ n. ok (record { typ = typ; name = n })) id h' in
      let same = ok-injective (record { typ = typ; name = name }) id e in
      subst (λ i. parse_id u (id_string i) ≡ ok i) same
        (string_parsed typ name (parsed_type (cut_slash raw).0 typ ht)
          (parsed_name (cut_slash raw).1 name hn))

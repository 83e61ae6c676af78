-- ===== src/Processor/SimpleAuthz.antt =====
-- processor/simpleauthzprocessor: the policy of simpleauthzprocessor.go, and `Validate` of
-- factory.go.
pub mod Labels
pub mod Rules
pub mod Policy
use opentelemetry_querier.Base.{
  String, Bool, true, false, ◌||◌, ◌&&◌, not, Option, none, some, List, [], ◌∷◌, ◌++◌, is_nil,
  contains, str_eq, if◌then◌else◌,
}
use opentelemetry_querier.Qerror.{Error, coded, plain, wrapped, permission_denied}
use opentelemetry_querier.Qdata.Predicate.{LabelMatcher, equal}
use opentelemetry_querier.Qdata.Query.{Query, tenant_id, set_metadata}
use opentelemetry_querier.Processor.{Verdict}
use opentelemetry_querier.Processor.Header.{header_value}

pub record EnforceLabel : Type 0 where
  pub name : String
  pub value : String
  pub from_tenant : Bool

pub record Rule : Type 0 where
  pub subjects : List String
  pub effect : String
  pub enforce_labels : List EnforceLabel

pub record Config : Type 0 where
  pub subject_header : String
  pub from_tenant : Bool
  pub default_subject : String
  pub required : Bool
  pub default_effect : String
  pub rules : List Rule

abbrev pub default_subject_header : String
default_subject_header = "X-Scope-User"

abbrev pub metadata_subject : String
metadata_subject = "authz.subject"

abbrev pub effect_allow : String
effect_allow = "allow"

abbrev pub effect_deny : String
effect_deny = "deny"

abbrev or_default : String → String → String
or_default s d = if str_eq s "" then d else s

-- `New`
unfoldable pub new : Config → Config
new cfg = record cfg {
  subject_header = or_default cfg.subject_header default_subject_header;
  default_effect = or_default cfg.default_effect effect_deny;
}

-- `validateEffect`; `none` is the nil error.
unfoldable pub validate_effect : String → Option Error
validate_effect effect =
    if str_eq effect "" || (str_eq effect effect_allow || str_eq effect effect_deny)
    then none
    else some (wrapped "%w: %s: %q (want %q or %q)" (plain "simpleauthz: unknown effect"))

validate_labels : List EnforceLabel → Option Error
validate_labels [] = none
validate_labels (label ∷ labels) =
    let rest = validate_labels labels in
    if str_eq label.name ""
    then some (
        wrapped "%w: rules[%d].enforce_labels[%d]"
          (plain "simpleauthz: enforce_label name is required"))
    else rest

validate_rules : List Rule → Option Error
unfolding validate_effect validate_labels
validate_rules [] = none
validate_rules (rule ∷ rules) = elim (validate_effect rule.effect) [
  | some e ↦ some e
  | none ↦ elim (validate_labels rule.enforce_labels) [
    | some e ↦ some e
    | none ↦ validate_rules rules
  ]
]

-- `Validate`
unfoldable pub validate : Config → Option Error
unfolding validate_rules
validate cfg = elim (validate_effect cfg.default_effect) [
  | some e ↦ some e
  | none ↦ validate_rules cfg.rules
]

-- `resolveSubject`
unfoldable pub resolve_subject : Config → Query → String
resolve_subject cfg q =
    or_default (if cfg.from_tenant then tenant_id q else header_value q.header cfg.subject_header)
      cfg.default_subject

-- Whether a rule names the subject, or is a catch-all.
abbrev pub applies : Rule → String → Bool
applies rule subject = is_nil rule.subjects || contains rule.subjects subject

-- `match`
unfoldable pub match_rule : List Rule → String → Option Rule
match_rule [] subject = none
match_rule (rule ∷ rules) subject =
    if applies rule subject then some rule else match_rule rules subject

-- `denies`
abbrev pub denies : String → Bool
denies effect = not (str_eq effect effect_allow)

abbrev pub label_matcher : EnforceLabel → String → LabelMatcher
label_matcher label value = record { name = label.name; op = equal; value = value }

-- `enforce`: the matchers that were appended before a failure stay on the query.
unfoldable pub enforce : Query → List EnforceLabel → Verdict
enforce q [] = (none, q)
enforce q (label ∷ labels) =
    let value = (if label.from_tenant then tenant_id q else label.value) in
    let rest =
      enforce
        (record q { enforced_matchers = q.enforced_matchers ++ label_matcher label value ∷ [] })
        labels in
    if label.from_tenant && str_eq value ""
    then (some (coded permission_denied "simpleauthz: unresolved tenant for %q"), q)
    else rest

abbrev pub denied : Error
denied = coded permission_denied "simpleauthz: subject %q denied by policy"

-- the end of `ProcessQuery`, for the rule that matched or for none
unfoldable pub decide : Config → Query → Option Rule → Verdict
unfolding enforce
decide cfg q none = if denies cfg.default_effect then (some denied, q) else (none, q)
decide cfg q (some rule) =
    if denies rule.effect then (some denied, q) else enforce q rule.enforce_labels

-- The subject is recorded on the query, if there is one.
abbrev pub note_subject : Query → String → Query
note_subject q subject = if str_eq subject "" then q else set_metadata q metadata_subject subject

-- `ProcessQuery`
unfoldable pub process_query : Config → Query → Verdict
unfolding resolve_subject match_rule decide
process_query cfg q =
    let subject = resolve_subject cfg q in
    if str_eq subject "" && cfg.required
    then (some (coded permission_denied "simpleauthz: no subject resolved from %s"), q)
    else decide cfg (note_subject q subject) (match_rule cfg.rules subject)

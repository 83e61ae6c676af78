-- ===== src/Processor/SimpleAuthz/Rules.antt =====
-- Which rule `match` finds.
use opentelemetry_querier.Base.{
  String, true, false, none, some, List, [], ◌∷◌, ◌++◌, ◌≡◌, arith, ap, All, Bool-cases, inl, inr,
}
use opentelemetry_querier.Processor.SimpleAuthz.{Rule, applies, match_rule}

-- A rule is the first of a list that applies: those before it do not.
abbrev pub FirstMatch : List Rule → String → Rule → Type 0
FirstMatch rules subject rule =
    (before : List Rule) × (after : List Rule) × (rules ≡ before ++ rule ∷ after)
    × All (λ r. applies r subject ≡ false) before
    × (applies rule subject ≡ true)

pub match_rule-FirstMatch :
    (rules : List Rule) (subject : String) (rule : Rule)
    → match_rule rules subject ≡ some rule
    → FirstMatch rules subject rule
unfolding match_rule
match_rule-FirstMatch [] subject rule h = cc
match_rule-FirstMatch (r ∷ rules) subject rule h = elim (Bool-cases (applies r subject)) [
  | inl e ↦
      let same : r ≡ rule = ground arith in ([], rules, ap (λ x. x ∷ rules) same, tt, rw (← same) e)
  | inr e ↦
      let (before, after, split, skipped, hit) =
        match_rule-FirstMatch rules subject rule (ground arith) in
      (r ∷ before, after, ap (◌∷◌ r) split, (e, skipped), hit)
]

pub match_rule-none :
    (rules : List Rule) (subject : String)
    → match_rule rules subject ≡ none
    → All (λ r. applies r subject ≡ false) rules
unfolding match_rule
match_rule-none [] subject h = tt
match_rule-none (r ∷ rules) subject h = (ground arith, match_rule-none rules subject (ground arith))

pub FirstMatch-match_rule :
    (before after : List Rule) (subject : String) (rule : Rule)
    → All (λ r. applies r subject ≡ false) before
    → applies rule subject ≡ true
    → match_rule (before ++ rule ∷ after) subject ≡ some rule
unfolding match_rule
FirstMatch-match_rule [] after subject rule h hit = rw hit
FirstMatch-match_rule (r ∷ before) after subject rule h hit =
    rw (h.0) (FirstMatch-match_rule before after subject rule h.1 hit)

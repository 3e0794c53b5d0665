-- ===== src/Core/Scope.antt =====
-- core/scope.py: the decision over rule matches that were evaluated elsewhere.
pub mod Precedence
use research_os.Common.{
  Bool, true, false, ◌||◌, Result, ok, List, [], ◌∷◌, map, any, keep, ◌>>=◌, ◌>>◌, if◌then◌else◌,
}
use research_os.Common.Text.{Text}
use research_os.Core.Enums.{
  ScopeDecision, ScopeClassification, ScopeRuleEffect, ReasonCode, CoreError, allowed, scope_denied,
  scope_ambiguous, scope_unknown_classification, scope_not_explicitly_allowed,
}
use research_os.Core.Identity.{require_opaque_id}

pub record ScopeRuleMatch : Type 0 where
  pub rule_id : Text
  pub effect : ScopeRuleEffect
  pub matched : Bool
  pub source_reference : Text

-- `ScopeRuleMatch.__post_init__`
pub new_scope_rule_match : Text → ScopeRuleEffect → Bool → Text → Result CoreError ScopeRuleMatch
new_scope_rule_match rule_id effect matched source_reference = do
  require_opaque_id rule_id
  require_opaque_id source_reference
  ok (record {
    rule_id = rule_id;
    effect = effect;
    matched = matched;
    source_reference = source_reference;
  })

pub record ScopeEvaluationInput : Type 0 where
  pub matches : List ScopeRuleMatch
  pub ambiguous : Bool

pub record ScopeCheck : Type 0 where
  pub decision : ScopeDecision
  pub reason_code : ReasonCode
  pub matched_rule_ids : List Text
  pub classification : ScopeClassification

abbrev pub scope_check : ScopeDecision → ReasonCode → List Text → ScopeClassification → ScopeCheck
scope_check decision reason ids classification = record {
  decision = decision;
  reason_code = reason;
  matched_rule_ids = ids;
  classification = classification;
}

-- `effect in (ScopeRuleEffect.DENY, ScopeRuleEffect.OUT_OF_SCOPE)`
abbrev pub is_exclusion : ScopeRuleEffect → Bool
is_exclusion ScopeRuleEffect.deny = true
is_exclusion ScopeRuleEffect.out_of_scope = true
is_exclusion _ = false

abbrev pub is_allow : ScopeRuleEffect → Bool
is_allow ScopeRuleEffect.allow = true
is_allow _ = false

abbrev pub is_unknown : ScopeRuleEffect → Bool
is_unknown ScopeRuleEffect.unknown = true
is_unknown _ = false

unfoldable pub check_scope : ScopeEvaluationInput → ScopeCheck
check_scope evaluation =
    let matched = keep (λ item. item.matched) evaluation.matches in
    let matched_ids = map (λ item. item.rule_id) matched in
    if any (λ item. is_exclusion item.effect) matched
    then scope_check ScopeDecision.deny scope_denied matched_ids ScopeClassification.out_of_scope
    else if evaluation.ambiguous
    then scope_check ScopeDecision.require_human_review scope_ambiguous matched_ids
        ScopeClassification.out_of_scope
    else if any (λ item. is_allow item.effect) matched
    then scope_check ScopeDecision.allow allowed matched_ids ScopeClassification.in_scope
    else if any (λ item. is_unknown item.effect) matched
    then scope_check ScopeDecision.deny scope_unknown_classification matched_ids
        ScopeClassification.unknown
    else scope_check ScopeDecision.deny scope_not_explicitly_allowed matched_ids
        ScopeClassification.out_of_scope

-- ===== src/Core/Scope/Precedence/Examples.antt =====
-- A target that one rule allows and another excludes.
use mathlib.Core.List.Perm
use research_os.Common.{true, false, List, [], ◌∷◌, Every, Some, ◌≡◌, ◌↔◌}
use research_os.Common.Text.{codes}
use research_os.Core.Enums.{ScopeDecision, ScopeRuleEffect, scope_denied}
use research_os.Core.Scope.{ScopeRuleMatch, ScopeEvaluationInput, check_scope}
use research_os.Core.Scope.Precedence.{Excludes, Allows, check_scope_precedence, check_scope-perm}

abbrev rule : ScopeRuleEffect → ScopeRuleMatch
rule effect = record {
  rule_id = codes "r";
  effect = effect;
  matched = true;
  source_reference = codes "policy";
}

abbrev contested : List ScopeRuleMatch
contested = rule ScopeRuleEffect.allow ∷ rule ScopeRuleEffect.out_of_scope ∷ []

abbrev input : ScopeEvaluationInput
input = record { matches = contested; ambiguous = false }

check_scope_precedence_example :
    (((check_scope input).reason_code ≡ scope_denied) ↔ Some Excludes contested)
    × (((check_scope input).decision ≡ ScopeDecision.require_human_review)
        ↔ (Every (λ m. ¬ Excludes m) contested × (false ≡ true)))
    × (((check_scope input).decision ≡ ScopeDecision.allow)
        ↔ (Every (λ m. ¬ Excludes m) contested × (false ≡ false) × Some Allows contested))
check_scope_precedence_example = check_scope_precedence input

check_scope-perm_example :
    let left = check_scope input in
    let right = check_scope (record {
      matches = rule ScopeRuleEffect.out_of_scope ∷ rule ScopeRuleEffect.allow ∷ [];
      ambiguous = false;
    }) in
    (left.decision ≡ right.decision)
    × (left.reason_code ≡ right.reason_code)
    × (left.classification ≡ right.classification)
check_scope-perm_example =
    check_scope-perm {ms = contested} false
      (Perm.swap (rule ScopeRuleEffect.out_of_scope) (rule ScopeRuleEffect.allow) [])

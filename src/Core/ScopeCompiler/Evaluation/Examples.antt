-- ===== src/Core/ScopeCompiler/Evaluation/Examples.antt =====
-- An allow rule that has expired, in front of an exclusion that has not.
use research_os.Common.{Option, none, some, [], ◌∷◌, ◌≡◌, ◌↔◌, inl, inr, refl}
use research_os.Common.Text.{Text, codes}
use research_os.Core.Enums.{ScopeDecision, ScopeRuleEffect, scope_expired}
use research_os.Core.ScopeCompiler.{
  ScopeCandidate, CompiledScopeRule, CompiledScope, origin_matches, path_matches, is_expired,
  evaluate_scope_candidate,
}
use research_os.Core.ScopeCompiler.Evaluation.{
  IsInScope, evaluate_scope_candidate-allow_iff, evaluate_scope_candidate_expired,
}
use Prim.Native.Nat.{ℕ}

abbrev page : ScopeCandidate
page = record {
  raw_target = codes "https://shop.test/a";
  normalized_scheme = some (codes "https");
  normalized_host = some (codes "shop.test");
  normalized_port = some 443;
  raw_path = codes "/a";
  scope_match_path = some (codes "/a");
  normalization_error = none;
}

abbrev rule : ScopeRuleEffect → Option ℕ → CompiledScopeRule
rule effect expires = record {
  rule_id = codes "r";
  effect = effect;
  scheme = codes "https";
  host = some (codes "shop.test");
  host_pattern = none;
  port = 443;
  path_prefix = none;
  source_reference = codes "policy";
  expires_at = expires;
}

abbrev scope : CompiledScope
scope = record { rules = rule ScopeRuleEffect.deny none ∷ rule ScopeRuleEffect.allow (some 5) ∷ [] }

evaluate_scope_candidate-allow_iff_example :
    ((evaluate_scope_candidate page scope (some 9) 0).decision ≡ ScopeDecision.allow) ↔ (
      (page.normalization_error ≡ none)
      × ((path : Text) × (page.scope_match_path ≡ some path) × IsInScope page 9 scope.rules path))
evaluate_scope_candidate-allow_iff_example = evaluate_scope_candidate-allow_iff page scope 9 0

evaluate_scope_candidate_expired_example :
    let check = evaluate_scope_candidate page scope (some 9) 0 in
    (check.decision ≡ ScopeDecision.require_human_review) × (check.reason_code ≡ scope_expired)
unfolding origin_matches path_matches is_expired
evaluate_scope_candidate_expired_example =
    evaluate_scope_candidate_expired page scope 9 0 (codes "/a") refl refl (
      inr (inl (record { applies_here = record { origin = refl; prefix = refl }; expired = refl })))

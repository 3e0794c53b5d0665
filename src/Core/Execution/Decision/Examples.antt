-- ===== src/Core/Execution/Decision/Examples.antt =====
-- A ping of an integration that is on the allowlist, in a scope that is ambiguous or not.
use research_os.Common.{Bool, true, false, none, some, ok, [], ◌∷◌, ◌≡◌, ◌↔◌, ◌⊎◌, refl}
use research_os.Common.Text.{codes, is_blank}
use research_os.Tools.Registry.{CapabilityRegistry}
use research_os.Core.Enums.{
  active, ScopeDecision, ScopeRuleEffect, ExecutionDecisionKind, ReasonCode, level_0, level_1,
  level_2, allowed, scope_ambiguous,
}
use research_os.Core.Identity.{require_opaque_id}
use research_os.Core.Approval.Eligibility.{IsApproved}
use research_os.Core.Authorization.{check_authorization}
use research_os.Core.Budget.{check_budget}
use research_os.Core.Capability.{check_capability_authorization}
use research_os.Core.Scope.{check_scope}
use research_os.Core.Execution.{
  ExecutionRequest, ExecutionDecision, level, decide, decide_early, parse_side_effect_level,
  evaluate_execution,
}
use research_os.Core.Execution.Decision.{
  IsEligible, evaluate_execution-allow_iff, evaluate_execution-review_iff,
}

abbrev no_definitions : CapabilityRegistry
no_definitions = record { definitions = [] }

abbrev ping : Bool → ExecutionRequest
ping ambiguous = record {
  authorization_source =
      some
        (record { authorization_source_id = codes "auth"; program_id = codes "p"; state = active });
  scope = record {
    matches =
        record {
          rule_id = codes "r";
          effect = ScopeRuleEffect.allow;
          matched = true;
          source_reference = codes "policy";
        }
        ∷ [];
    ambiguous = ambiguous;
  };
  issued_budget = record {
    budget_id = codes "b";
    max_requests = 1;
    max_tool_calls = 1;
    max_runtime_ms = 1;
    max_concurrency = 1;
  };
  budget_usage = record { requests = 0; tool_calls = 0; runtime_ms = 0; concurrency = 0 };
  requested_budget_id = codes "b";
  side_effect_level = level level_0;
  requested_subject = codes "run";
  capability = some (record {
    capability_id = codes "strix.diagnostic.ping";
    action = codes "ping";
    capability_version = codes "integration";
    definition_fingerprint = codes "integration.strix.diagnostic.ping";
    authoritative_minimum_side_effect = 0;
    effective_side_effect = 0;
  });
  approval = none;
}

abbrev outcome : ExecutionDecisionKind → ReasonCode → ExecutionDecision
outcome kind reason = record {
  decision = kind;
  reason_code = reason;
  authorization_source_id = some (codes "auth");
  matched_scope_rule_ids = codes "r" ∷ [];
  budget_id = some (codes "b");
  side_effect_level = level_0;
  approval_id = none;
}

ping_allowed :
    evaluate_execution no_definitions none (ping false)
    ≡ ok (outcome ExecutionDecisionKind.allow allowed)
unfolding evaluate_execution parse_side_effect_level require_opaque_id is_blank check_budget
    check_capability_authorization check_authorization check_scope decide decide_early
ping_allowed = refl

evaluate_execution-allow_iff_example :
    (ExecutionDecisionKind.allow ≡ ExecutionDecisionKind.allow) ↔ (
      IsEligible no_definitions none (ping false) level_0
      × ((check_scope (ping false).scope).decision ≡ ScopeDecision.allow)
      × (((level_0 ≡ level_0) ⊎ (level_0 ≡ level_1)) ⊎ IsApproved none (codes "run")))
unfolding parse_side_effect_level
evaluate_execution-allow_iff_example =
    evaluate_execution-allow_iff no_definitions none (ping false) level_0
      {d = outcome ExecutionDecisionKind.allow allowed} refl ping_allowed

ping_waits :
    evaluate_execution no_definitions none (ping true)
    ≡ ok (outcome ExecutionDecisionKind.require_human_review scope_ambiguous)
unfolding evaluate_execution parse_side_effect_level require_opaque_id is_blank check_budget
    check_capability_authorization check_authorization check_scope decide decide_early
ping_waits = refl

evaluate_execution-review_iff_example :
    (ExecutionDecisionKind.require_human_review ≡ ExecutionDecisionKind.require_human_review) ↔ (
      IsEligible no_definitions none (ping true) level_0
      × (((check_scope (ping true).scope).decision ≡ ScopeDecision.require_human_review)
          ⊎ (((check_scope (ping true).scope).decision ≡ ScopeDecision.allow)
              × (level_0 ≡ level_2)
              × ((ping true).approval ≡ none))))
unfolding parse_side_effect_level
evaluate_execution-review_iff_example =
    evaluate_execution-review_iff no_definitions none (ping true) level_0
      {d = outcome ExecutionDecisionKind.require_human_review scope_ambiguous} refl ping_waits

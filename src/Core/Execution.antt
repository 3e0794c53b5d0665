-- ===== src/Core/Execution.antt =====
-- core/execution.py: the composition of the checks into one decision.
mod Verdicts
pub mod Decision
use research_os.Common.{
  ℕ, Bool, true, false, not, ◌||◌, ℤ, pos, negsuc, Option, none, some, Result, ok, err, List, zero,
  suc, ◌>>=◌, ◌>>◌, if◌then◌else◌,
}
use research_os.Common.Text.{Text}
use research_os.Tools.Registry.{CapabilityRegistry}
use research_os.Core.Enums.{
  ExecutionDecisionKind, ScopeDecision, SideEffectLevel, level_0, level_1, level_2, level_3,
  ReasonCode, CoreError, core_input_error, allowed, side_effect_level_denied,
}
use research_os.Core.Identity.{require_opaque_id}
use research_os.Core.Approval.{ApprovalView, ApprovalCheck, check_approval}
use research_os.Core.Authorization.{
  AuthorizationSourceView, AuthorizationCheck, check_authorization,
}
use research_os.Core.Budget.{IssuedBudget, BudgetUsage, BudgetCheck, check_budget}
use research_os.Core.Capability.{
  CapabilityAuthorizationView, CapabilityAuthorizationCheck, check_capability_authorization,
}
use research_os.Core.Scope.{ScopeEvaluationInput, ScopeCheck, check_scope}

-- A level, or an int that may stand for one.
pub data LevelArgument : Type 0 where
  level : SideEffectLevel → LevelArgument
  number : ℤ → LevelArgument

pub parse_side_effect_level : LevelArgument → Result CoreError SideEffectLevel
parse_side_effect_level (level l) = ok l
parse_side_effect_level (number (pos zero)) = ok level_0
parse_side_effect_level (number (pos (suc zero))) = ok level_1
parse_side_effect_level (number (pos (suc (suc zero)))) = ok level_2
parse_side_effect_level (number (pos (suc (suc (suc zero))))) = ok level_3
parse_side_effect_level (number (pos (suc (suc (suc (suc n)))))) = err core_input_error
parse_side_effect_level (number (negsuc n)) = err core_input_error

pub record ExecutionRequest : Type 0 where
  pub authorization_source : Option AuthorizationSourceView
  pub scope : ScopeEvaluationInput
  pub issued_budget : IssuedBudget
  pub budget_usage : BudgetUsage
  pub requested_budget_id : Text
  pub side_effect_level : LevelArgument
  pub requested_subject : Text
  pub capability : Option CapabilityAuthorizationView
  pub approval : Option ApprovalView

pub record ExecutionDecision : Type 0 where
  pub decision : ExecutionDecisionKind
  pub reason_code : ReasonCode
  pub authorization_source_id : Option Text
  pub matched_scope_rule_ids : List Text
  pub budget_id : Option Text
  pub side_effect_level : SideEffectLevel
  pub approval_id : Option Text

-- What the checks in front of the approval found.
pub record Checks : Type 0 where
  pub capability : CapabilityAuthorizationCheck
  pub auth : AuthorizationCheck
  pub scope : ScopeCheck
  pub budget : BudgetCheck
  pub level : SideEffectLevel

-- The inner `finish`, which calls `_decision`.
finish : Checks → ExecutionDecisionKind → ReasonCode → Option Text → ExecutionDecision
finish c kind reason approval_id = record {
  decision = kind;
  reason_code = reason;
  authorization_source_id = c.auth.authorization_source_id;
  matched_scope_rule_ids = c.scope.matched_rule_ids;
  budget_id = some c.budget.budget_id;
  side_effect_level = c.level;
  approval_id = approval_id;
}

abbrev is_denied : ScopeDecision → Bool
is_denied ScopeDecision.deny = true
is_denied _ = false

abbrev needs_review : ScopeDecision → Bool
needs_review ScopeDecision.require_human_review = true
needs_review _ = false

abbrev is_level_3 : SideEffectLevel → Bool
is_level_3 level_3 = true
is_level_3 _ = false

-- `level in (SideEffectLevel.LEVEL_0, SideEffectLevel.LEVEL_1)`
abbrev pub is_low_level : SideEffectLevel → Bool
is_low_level level_0 = true
is_low_level level_1 = true
is_low_level _ = false

decide_approval : Checks → ApprovalCheck → ExecutionDecision
unfolding finish
decide_approval c approval =
    if approval.require_human_review
    then finish c ExecutionDecisionKind.require_human_review approval.reason_code
        approval.approval_id
    else if not approval.authorizes
    then finish c ExecutionDecisionKind.deny approval.reason_code approval.approval_id
    else finish c ExecutionDecisionKind.allow allowed approval.approval_id

-- The guards in front of the approval; `none` where the approval decides.
pub decide_early : Checks → Option ExecutionDecision
unfolding finish
decide_early c =
    if not c.capability.allowed_to_continue
    then some (finish c ExecutionDecisionKind.deny c.capability.reason_code none)
    else if not c.auth.allowed_to_continue
    then some (finish c ExecutionDecisionKind.deny c.auth.reason_code none)
    else if is_denied c.scope.decision
    then some (finish c ExecutionDecisionKind.deny c.scope.reason_code none)
    else if not c.budget.allowed_to_continue
    then some (finish c ExecutionDecisionKind.deny c.budget.reason_code none)
    else if is_level_3 c.level
    then some (finish c ExecutionDecisionKind.deny side_effect_level_denied none)
    else if needs_review c.scope.decision
    then some (finish c ExecutionDecisionKind.require_human_review c.scope.reason_code none)
    else if is_low_level c.level
    then some (finish c ExecutionDecisionKind.allow allowed none)
    else none

pub decide :
    Checks
    → Option ExecutionDecision
    → Option ApprovalView
    → Text
    → Result CoreError ExecutionDecision
unfolding decide_approval
decide c (some decision) approval subject = ok decision
decide c none approval subject = do
  checked ← check_approval approval subject
  ok (decide_approval c checked)

pub evaluate_execution :
    CapabilityRegistry
    → Option CapabilityRegistry
    → ExecutionRequest
    → Result CoreError ExecutionDecision
evaluate_execution loaded registry request = do
  l ← parse_side_effect_level request.side_effect_level
  require_opaque_id request.requested_subject
  require_opaque_id request.requested_budget_id
  budget ← check_budget request.issued_budget request.budget_usage request.requested_budget_id
  let c : Checks = record {
    capability = check_capability_authorization loaded registry request.capability l;
    auth = check_authorization request.authorization_source;
    scope = check_scope request.scope;
    budget = budget;
    level = l;
  }
  decide c (decide_early c) request.approval request.requested_subject

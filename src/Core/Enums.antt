-- ===== src/Core/Enums.antt =====
-- core/enums.py and core/errors.py
use research_os.Common.{ℕ}

pub data ActorType : Type 0 where
  human_operator control_plane worker integration : ActorType

pub data AuthorizationSourceState : Type 0 where
  active expired revoked : AuthorizationSourceState

pub data ScopeDecision : Type 0 where
  allow deny require_human_review : ScopeDecision

pub data ScopeClassification : Type 0 where
  in_scope unknown out_of_scope : ScopeClassification

pub data ScopeRuleEffect : Type 0 where
  allow deny out_of_scope unknown : ScopeRuleEffect

-- An IntEnum, whose members are ordered by `level_value`.
pub data SideEffectLevel : Type 0 where
  level_0 level_1 level_2 level_3 : SideEffectLevel

abbrev pub level_value : SideEffectLevel → ℕ
level_value level_0 = 0
level_value level_1 = 1
level_value level_2 = 2
level_value level_3 = 3

pub data ApprovalDecision : Type 0 where
  approve reject : ApprovalDecision

pub data ExecutionDecisionKind : Type 0 where
  allow deny require_human_review : ExecutionDecisionKind

pub data ReasonCode : Type 0 where
  allowed authorization_missing authorization_inactive : ReasonCode
  scope_denied scope_not_explicitly_allowed scope_ambiguous : ReasonCode
  budget_exhausted budget_mismatch : ReasonCode
  approval_required approval_rejected approval_invalid_actor : ReasonCode
  approval_subject_mismatch approval_not_recorded : ReasonCode
  side_effect_level_denied : ReasonCode
  capability_authorization_missing unknown_capability unknown_action : ReasonCode
  unsupported_capability_version definition_fingerprint_mismatch : ReasonCode
  risk_understatement risk_exceeds_capability side_effect_binding_mismatch : ReasonCode
  schema_mismatch scope_path_ambiguous scope_normalization_invalid : ReasonCode
  scope_userinfo_denied scope_wildcard_rejected scope_unknown_classification : ReasonCode
  scope_expired program_policy_denied rate_limit_denied : ReasonCode
  sensor_timeout sensor_failed census_allowed census_denied : ReasonCode
  impact_chain_missing impact_chain_cross_run cross_run_proof : ReasonCode

-- CoreInputError with its subclasses; UnknownModelPriceError is that of core/pricing.py. Messages
-- are not modelled.
pub data CoreError : Type 0 where
  core_input_error invalid_budget_error budget_allocation_error : CoreError
  unknown_model_price_error : CoreError

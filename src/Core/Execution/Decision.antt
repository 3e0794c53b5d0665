-- ===== src/Core/Execution/Decision.antt =====
-- When an execution is allowed, and when it waits for a human (core/execution.py).
mod Examples
use research_os.Common.{
  Bool, true, false, not, Option, none, some, Result, ok, err, ◌≡◌, ◌≢◌, refl, ◌↔◌, ◌⊎◌, inl, inr,
  ◌>>=◌, ◌>>◌, >>=-eq-ok, ok-eq-ok, Bool-cases, Option-cases, sym, ap, eq_of_some-eq, arith,
}
use research_os.Common.Text.{Text}
use research_os.Tools.Registry.{CapabilityRegistry}
use research_os.Core.Enums.{
  AuthorizationSourceState, active, ExecutionDecisionKind, ScopeDecision, SideEffectLevel, level_0,
  level_1, level_2, level_3,
}
use research_os.Core.Identity.{require_opaque_id}
use research_os.Core.Approval.{ApprovalView, ApprovalCheck, check_approval}
use research_os.Core.Approval.Eligibility.{IsApproved, check_approval-IsApproved_iff}
use research_os.Core.Authorization.{AuthorizationSourceView, check_authorization}
use research_os.Core.Budget.{BudgetCheck, check_budget}
use research_os.Core.Budget.Allocation.{HasAllowance, check_budget-allowed_iff}
use research_os.Core.Capability.{check_capability_authorization}
use research_os.Core.Scope.{check_scope}
use research_os.Core.Execution.{
  ExecutionRequest, ExecutionDecision, Checks, parse_side_effect_level, is_denied, needs_review,
  is_level_3, is_low_level, LevelArgument, decide, decide_early, decide_approval,
  evaluate_execution,
}
use research_os.Core.Execution.Verdicts.{IsUndenied, Verdict, decide-Verdict}

-- The source is there and active, the budget is the requested one and has an allowance left, the
-- capability claim holds, and the level is below 3.
pub record IsEligible (loaded : CapabilityRegistry) (registry : Option CapabilityRegistry)
    (r : ExecutionRequest) (l : SideEffectLevel) : Type 0 where
  pub source : AuthorizationSourceView
  pub given : r.authorization_source ≡ some source
  pub is_active : source.state ≡ active
  pub capability :
      (check_capability_authorization loaded registry r.capability l).allowed_to_continue ≡ true
  pub own_budget : r.requested_budget_id ≡ r.issued_budget.budget_id
  pub allowance : HasAllowance r.issued_budget r.budget_usage
  pub below_3 : l ≢ level_3

check_authorization_iff :
    (source : Option AuthorizationSourceView)
    → ((check_authorization source).allowed_to_continue ≡ true)
      ↔ ((s : AuthorizationSourceView) × (source ≡ some s) × (s.state ≡ active))
unfolding check_authorization
check_authorization_iff none = (λ h. cc, λ (s, e, a). cc e)
check_authorization_iff (some s) = (
  λ h. (s, refl, ground arith),
  λ (s', e, a). ground (arith, ap (λ v. v.state) (eq_of_some-eq e)),
)

checks :
    CapabilityRegistry
    → Option CapabilityRegistry
    → ExecutionRequest
    → BudgetCheck
    → SideEffectLevel
    → Checks
checks loaded registry r budget l = record {
  capability = check_capability_authorization loaded registry r.capability l;
  auth = check_authorization r.authorization_source;
  scope = check_scope r.scope;
  budget = budget;
  level = l;
}

-- A call that returns has checked the budget, and decided on the checks.
evaluate_execution-Verdict :
    (loaded : CapabilityRegistry) (registry : Option CapabilityRegistry) (r : ExecutionRequest)
    (l : SideEffectLevel) {d : ExecutionDecision}
    → parse_side_effect_level r.side_effect_level ≡ ok l
    → evaluate_execution loaded registry r ≡ ok d
    → (b : BudgetCheck) × (check_budget r.issued_budget r.budget_usage r.requested_budget_id ≡ ok b)
      × Verdict (checks loaded registry r b l) r.approval r.requested_subject d
unfolding evaluate_execution checks
evaluate_execution-Verdict loaded registry r l parsed h =
    let h₁ = rw (parsed, evaluate_execution) at h in
    let (_, _, h₂) = >>=-eq-ok (require_opaque_id r.requested_subject) _ h₁ in
    let (_, _, h₃) = >>=-eq-ok (require_opaque_id r.requested_budget_id) _ h₂ in
    let (b, checked, h₄) =
      >>=-eq-ok (check_budget r.issued_budget r.budget_usage r.requested_budget_id) _ h₃ in
    (b, checked, decide-Verdict (checks loaded registry r b l) r.approval r.requested_subject h₄)

low_levels : (l : SideEffectLevel) → (is_low_level l ≡ true) ↔ ((l ≡ level_0) ⊎ (l ≡ level_1))
low_levels l = (λ h. ground arith, λ h. ground arith)

high_level : (l : SideEffectLevel) → l ≢ level_3 → (is_low_level l ≡ false) ↔ (l ≡ level_2)
high_level l h = (λ e. ground arith, λ e. ground arith)

module _ (loaded : CapabilityRegistry) (registry : Option CapabilityRegistry) (r : ExecutionRequest)
    (l : SideEffectLevel) (b : BudgetCheck)
    (checked : check_budget r.issued_budget r.budget_usage r.requested_budget_id ≡ ok b) where
  undenied→eligible : IsUndenied (checks loaded registry r b l) → IsEligible loaded registry r l
  unfolding checks
  undenied→eligible u =
      let (s, given, live) = (check_authorization_iff r.authorization_source).0 u.auth in
      let (own, left) =
        (check_budget-allowed_iff r.issued_budget r.budget_usage r.requested_budget_id checked).0
          u.budget in
      record {
        source = s;
        given = given;
        is_active = live;
        capability = u.capability;
        own_budget = own;
        allowance = left;
        below_3 = u.level;
      }

  eligible→undenied :
      IsEligible loaded registry r l
      → (check_scope r.scope).decision ≢ ScopeDecision.deny
      → IsUndenied (checks loaded registry r b l)
  unfolding checks
  eligible→undenied e open_scope = record {
    capability = e.capability;
    auth = (check_authorization_iff r.authorization_source).1 (e.source, e.given, e.is_active);
    scope = open_scope;
    budget =
        (check_budget-allowed_iff r.issued_budget r.budget_usage r.requested_budget_id checked).1
          (e.own_budget, e.allowance);
    level = e.below_3;
  }

-- A call that returns, for a request of level `l`, allows the execution exactly if the request is
-- eligible (an active source, the capability claim upheld by the registry, its own budget with an
-- allowance left, a level below 3), the scope allows it, and either the level is 0 or 1 or a human
-- approved the requested subject.
pub evaluate_execution-allow_iff :
    (loaded : CapabilityRegistry) (registry : Option CapabilityRegistry) (r : ExecutionRequest)
    (l : SideEffectLevel) {d : ExecutionDecision}
    → parse_side_effect_level r.side_effect_level ≡ ok l
    → evaluate_execution loaded registry r ≡ ok d
    → (d.decision ≡ ExecutionDecisionKind.allow) ↔ (
        IsEligible loaded registry r l
        × ((check_scope r.scope).decision ≡ ScopeDecision.allow)
        × (((l ≡ level_0) ⊎ (l ≡ level_1)) ⊎ IsApproved r.approval r.requested_subject))
unfolding checks
evaluate_execution-allow_iff loaded registry r l parsed h =
    let (b, checked, v) = evaluate_execution-Verdict loaded registry r l parsed h in
    (
      λ a.
          let (free, in_scope, way) = v.allows.0 a in
          (
            undenied→eligible loaded registry r l b checked free,
            in_scope,
            elim way [ inl low ↦ inl ((low_levels l).0 low) | inr w ↦ inr w ],
          ),
      λ (e, in_scope, way). v.allows.1 (
        eligible→undenied loaded registry r l b checked e (λ out. cc (in_scope, out)),
        in_scope,
        elim way [ inl low ↦ inl ((low_levels l).1 low) | inr w ↦ inr w ],
      ),
    )

-- A call that returns, for a request of level `l`, waits for a human exactly if the request is
-- eligible and either its scope asks for a review, or the scope allows it, the level is 2 and no
-- approval is given.
pub evaluate_execution-review_iff :
    (loaded : CapabilityRegistry) (registry : Option CapabilityRegistry) (r : ExecutionRequest)
    (l : SideEffectLevel) {d : ExecutionDecision}
    → parse_side_effect_level r.side_effect_level ≡ ok l
    → evaluate_execution loaded registry r ≡ ok d
    → (d.decision ≡ ExecutionDecisionKind.require_human_review) ↔ (
        IsEligible loaded registry r l
        × (((check_scope r.scope).decision ≡ ScopeDecision.require_human_review)
            ⊎ (((check_scope r.scope).decision ≡ ScopeDecision.allow)
                × (l ≡ level_2)
                × (r.approval ≡ none))))
unfolding checks
evaluate_execution-review_iff loaded registry r l parsed h =
    let (b, checked, v) = evaluate_execution-Verdict loaded registry r l parsed h in
    (
      λ w.
          let (free, why) = v.waits.0 w in
          let e = undenied→eligible loaded registry r l b checked free in
          (
            e,
            elim why [
              | inl review ↦ inl review
              | inr (in_scope, high, missing) ↦
                  inr (in_scope, (high_level l e.below_3).0 high, missing)
            ],
          ),
      λ (e, why). elim why [
        | inl review ↦ v.waits.1 (
          eligible→undenied loaded registry r l b checked e (λ out. cc (review, out)),
          inl review,
        )
        | inr (in_scope, level, missing) ↦ v.waits.1 (
          eligible→undenied loaded registry r l b checked e (λ out. cc (in_scope, out)),
          inr (in_scope, (high_level l e.below_3).1 level, missing),
        )
      ],
    )

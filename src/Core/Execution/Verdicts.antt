-- ===== src/Core/Execution/Verdicts.antt =====
-- What `decide` of core/execution.py returns, in the terms of the checks before it.
use research_os.Common.{
  true, false, Option, none, some, ok, ◌≡◌, ◌≢◌, ◌↔◌, ◌⊎◌, inl, inr, >>=-eq-ok, ok-eq-ok,
  Bool-cases, Option-cases, sym, arith,
}
use research_os.Common.Text.{Text}
use research_os.Core.Enums.{ExecutionDecisionKind, ScopeDecision, level_3}
use research_os.Core.Approval.{ApprovalView, ApprovalCheck, check_approval}
use research_os.Core.Approval.Eligibility.{IsApproved, check_approval-IsApproved_iff}
use research_os.Core.Execution.{
  ExecutionDecision, Checks, is_low_level, decide, decide_early, decide_approval,
}

-- The checks in front of the scope review and the approval have passed.
pub record IsUndenied (c : Checks) : Type 0 where
  pub capability : c.capability.allowed_to_continue ≡ true
  pub auth : c.auth.allowed_to_continue ≡ true
  pub scope : c.scope.decision ≢ ScopeDecision.deny
  pub budget : c.budget.allowed_to_continue ≡ true
  pub level : c.level ≢ level_3

-- What is left to the approval.
AwaitsApproval : Checks → Type 0
AwaitsApproval c =
    IsUndenied c × (c.scope.decision ≡ ScopeDecision.allow) × (is_low_level c.level ≡ false)

decide_early-none_iff : (c : Checks) → (decide_early c ≡ none) ↔ AwaitsApproval c
unfolding decide_early AwaitsApproval
decide_early-none_iff c = (λ h. ground arith, λ h. ground arith)

decide_early-some :
    (c : Checks) (d : ExecutionDecision)
    → decide_early c ≡ some d
    → ((d.decision ≡ ExecutionDecisionKind.allow)
        ↔ (IsUndenied c × (c.scope.decision ≡ ScopeDecision.allow) × (is_low_level c.level ≡ true)))
      × ((d.decision ≡ ExecutionDecisionKind.require_human_review)
          ↔ (IsUndenied c × (c.scope.decision ≡ ScopeDecision.require_human_review)))
unfolding decide_early
decide_early-some c d h =
    ((λ e. ground arith, λ e. ground arith), (λ e. ground arith, λ e. ground arith))

-- What `decide` returns, in the terms of the checks.
pub record Verdict (c : Checks) (approval : Option ApprovalView) (subject : Text)
    (d : ExecutionDecision) : Type 0 where
  pub allows : (d.decision ≡ ExecutionDecisionKind.allow) ↔ (
      IsUndenied c
      × (c.scope.decision ≡ ScopeDecision.allow)
      × ((is_low_level c.level ≡ true) ⊎ IsApproved approval subject))
  pub waits : (d.decision ≡ ExecutionDecisionKind.require_human_review) ↔ (
      IsUndenied c
      × ((c.scope.decision ≡ ScopeDecision.require_human_review)
          ⊎ ((c.scope.decision ≡ ScopeDecision.allow)
              × (is_low_level c.level ≡ false)
              × (approval ≡ none))))

-- An approval check that grants does not ask for a review.
granted_once :
    (approval : Option ApprovalView) (subject : Text) (k : ApprovalCheck)
    → check_approval approval subject ≡ ok k
    → IsApproved approval subject
    → (k.authorizes ≡ true) × (k.require_human_review ≡ false)
granted_once approval subject k h w =
    let (grants, asks) = check_approval-IsApproved_iff approval subject h in
    elim (Bool-cases k.require_human_review) [
      | inl asked ↦ cc (asks.0 asked, w.given)
      | inr silent ↦ (grants.1 w, silent)
    ]

decide_approval-Verdict :
    (c : Checks) (approval : Option ApprovalView) (subject : Text) (k : ApprovalCheck)
    → AwaitsApproval c
    → check_approval approval subject ≡ ok k
    → Verdict c approval subject (decide_approval c k)
unfolding decide_approval AwaitsApproval
decide_approval-Verdict c approval subject k (free, in_scope, high) h =
    let (grants, asks) = check_approval-IsApproved_iff approval subject h in
    record {
      allows = (
        λ e. (free, in_scope, inr (grants.0 (ground arith))),
        λ (_, _, way). elim way [
          | inl low ↦ cc
          | inr w ↦ let (g, q) = granted_once approval subject k h w in rw (q, g)
        ],
      );
      waits = (
        λ e. (free, inr (in_scope, high, asks.0 (ground arith))),
        λ (_, why). elim why [ inl review ↦ cc | inr (_, _, missing) ↦ rw (asks.1 missing) ],
      );
    }

early_is_low :
    (c : Checks) (d : ExecutionDecision)
    → decide_early c ≡ some d
    → IsUndenied c
    → c.scope.decision ≡ ScopeDecision.allow
    → is_low_level c.level ≡ true
unfolding AwaitsApproval
early_is_low c d e free in_scope = elim (Bool-cases (is_low_level c.level)) [
  | inl low ↦ low
  | inr high ↦ cc (e, (decide_early-none_iff c).1 (free, in_scope, high))
]

decide_early-Verdict :
    (c : Checks) (approval : Option ApprovalView) (subject : Text) (d : ExecutionDecision)
    → decide_early c ≡ some d
    → Verdict c approval subject d
decide_early-Verdict c approval subject d e =
    let (allows, waits) = decide_early-some c d e in
    record {
      allows = (
        λ a. let (free, in_scope, low) = allows.0 a in (free, in_scope, inl low),
        λ (free, in_scope, _). allows.1 (free, in_scope, early_is_low c d e free in_scope),
      );
      waits = (
        λ r. let (free, review) = waits.0 r in (free, inl review),
        λ (free, why). elim why [
          | inl review ↦ waits.1 (free, review)
          | inr (in_scope, high, _) ↦ cc (early_is_low c d e free in_scope, high)
        ],
      );
    }

pub decide-Verdict :
    (c : Checks) (approval : Option ApprovalView) (subject : Text) {d : ExecutionDecision}
    → decide c (decide_early c) approval subject ≡ ok d
    → Verdict c approval subject d
unfolding decide
decide-Verdict c approval subject {d} h = elim (Option-cases (decide_early c)) [
  | inl e ↦
      let (k, checked, same) =
        >>=-eq-ok (check_approval approval subject) _ (rw (e, decide) at h) in
      let v =
        decide_approval-Verdict c approval subject k ((decide_early-none_iff c).0 e) checked in
      rw (sym (ok-eq-ok same)) v
  | inr (early, e) ↦
      let same : early ≡ d = ok-eq-ok (rw (e, decide) at h) in
      decide_early-Verdict c approval subject d (cc (e, same))
]

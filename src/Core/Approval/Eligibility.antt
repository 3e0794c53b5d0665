-- ===== src/Core/Approval/Eligibility.antt =====
-- Which records authorize, and which are valid decisions (core/approval.py).
mod Examples
use mathlib.Core.Path.{subst}
use research_os.Common.{
  Bool, true, false, Option, none, some, Result, ok, err, ◌≡◌, ◌↔◌, ◌>>=◌, ◌>>◌, refl, sym,
  eq_of_some-eq, arith,
}
use research_os.Common.Text.{Text, text_eq_iff}
use research_os.Core.Enums.{human_operator, approve}
use research_os.Core.Identity.{require_opaque_id}
use research_os.Core.Approval.{
  ApprovalView, ApprovalCheck, RecordedApprovalEvaluation, check_approval, check_given,
  evaluate_recorded_approval,
}

-- A durable decision that a human operator made about this very subject.
pub record IsHumanDecision (a : ApprovalView) (subject : Text) : Type 0 where
  pub is_recorded : a.recorded ≡ true
  pub by_human : a.actor_type ≡ human_operator
  pub same_subject : a.subject_reference ≡ subject

check_given-authorizes_iff :
    (a : ApprovalView) (subject : Text)
    → ((check_given a subject).authorizes ≡ true)
      ↔ (IsHumanDecision a subject × (a.decision ≡ approve))
unfolding check_given
check_given-authorizes_iff a subject = (
  λ h. ground (arith, text_eq_iff a.subject_reference subject),
  λ h. ground (arith, text_eq_iff a.subject_reference subject),
)

-- When the check returns for a given approval, it authorizes exactly if the approval is a recorded
-- decision of a human operator about the requested subject that approves; it asks for no further
-- human review, and it names the approval.
pub check_approval-authorizes_iff :
    (a : ApprovalView) (subject : Text) {c : ApprovalCheck}
    → check_approval (some a) subject ≡ ok c
    → ((c.authorizes ≡ true) ↔ (IsHumanDecision a subject × (a.decision ≡ approve)))
      × (c.require_human_review ≡ false)
      × (c.approval_id ≡ some a.approval_id)
unfolding check_approval require_opaque_id
check_approval-authorizes_iff a subject h =
    (ground (arith, check_given-authorizes_iff a subject), ground arith, ground arith)

-- When the evaluation of a recorded approval returns, the record is valid exactly if it is a
-- recorded decision of a human operator about the subject, whichever way it went, and it authorizes
-- exactly if it is valid and approves.
pub evaluate_recorded_approval-valid_iff :
    (a : ApprovalView) (subject : Text) {e : RecordedApprovalEvaluation}
    → evaluate_recorded_approval (some a) subject ≡ ok e
    → ((e.valid_record ≡ true) ↔ IsHumanDecision a subject)
      × ((e.authorizes ≡ true) ↔ (IsHumanDecision a subject × (a.decision ≡ approve)))
unfolding evaluate_recorded_approval require_opaque_id
evaluate_recorded_approval-valid_iff a subject h = (
  (
    λ v. ground (arith, text_eq_iff a.subject_reference subject),
    λ v. ground (arith, text_eq_iff a.subject_reference subject),
  ),
  (
    λ v. ground (arith, text_eq_iff a.subject_reference subject),
    λ v. ground (arith, text_eq_iff a.subject_reference subject),
  ),
)

-- The subject has an approval, and it is a human decision to approve.
pub record IsApproved (approval : Option ApprovalView) (subject : Text) : Type 0 where
  pub view : ApprovalView
  pub given : approval ≡ some view
  pub by_human : IsHumanDecision view subject
  pub approves : view.decision ≡ approve

pub check_approval-IsApproved_iff :
    (approval : Option ApprovalView) (subject : Text) {c : ApprovalCheck}
    → check_approval approval subject ≡ ok c
    → ((c.authorizes ≡ true) ↔ IsApproved approval subject)
      × ((c.require_human_review ≡ true) ↔ (approval ≡ none))
unfolding check_approval require_opaque_id
check_approval-IsApproved_iff none subject h =
    ((λ a. ground arith, λ w. cc w.given), (λ r. refl, λ e. ground arith))
check_approval-IsApproved_iff (some a) subject h =
    let iff = (check_approval-authorizes_iff a subject h).0 in
    (
      (
        λ t. record { view = a; given = refl; by_human = (iff.0 t).0; approves = (iff.0 t).1 },
        λ w.
            let same = eq_of_some-eq w.given in
            iff.1 (
              subst (λ v. IsHumanDecision v subject) (sym same) w.by_human,
              subst (λ v. v.decision ≡ approve) (sym same) w.approves,
            ),
      ),
      (λ r. ground arith, λ e. cc e),
    )

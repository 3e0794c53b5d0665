-- ===== src/Core/Approval.antt =====
-- core/approval.py: whether a recorded human decision authorizes a subject.
pub mod Eligibility
use research_os.Common.{
  Bool, true, false, not, Option, none, some, Result, ok, err, ◌>>=◌, ◌>>◌, if◌then◌else◌,
}
use research_os.Common.Text.{Text, text_eq}
use research_os.Core.Enums.{
  ActorType, human_operator, ApprovalDecision, approve, reject, ReasonCode, CoreError, allowed,
  approval_required, approval_not_recorded, approval_invalid_actor, approval_subject_mismatch,
  approval_rejected,
}
use research_os.Core.Identity.{require_opaque_id}

pub record ApprovalView : Type 0 where
  pub approval_id : Text
  pub subject_reference : Text
  pub decision : ApprovalDecision
  pub decided_by : Text
  pub actor_type : ActorType
  pub recorded : Bool

-- `ApprovalView.__post_init__`. The types stand for the `isinstance` tests.
pub new_approval_view :
    Text → Text → ApprovalDecision → Text → ActorType → Bool → Result CoreError ApprovalView
new_approval_view approval_id subject_reference decision decided_by actor_type recorded = do
  require_opaque_id approval_id
  require_opaque_id subject_reference
  require_opaque_id decided_by
  ok (record {
    approval_id = approval_id;
    subject_reference = subject_reference;
    decision = decision;
    decided_by = decided_by;
    actor_type = actor_type;
    recorded = recorded;
  })

pub record ApprovalCheck : Type 0 where
  pub authorizes : Bool
  pub require_human_review : Bool
  pub reason_code : ReasonCode
  pub approval_id : Option Text

abbrev pub is_human : ActorType → Bool
is_human human_operator = true
is_human _ = false

abbrev pub is_reject : ApprovalDecision → Bool
is_reject reject = true
is_reject approve = false

refuse : ReasonCode → ApprovalView → ApprovalCheck
refuse reason approval = record {
  authorizes = false;
  require_human_review = false;
  reason_code = reason;
  approval_id = some approval.approval_id;
}

-- The tests of `check_approval` on the approval that it is given.
check_given : ApprovalView → Text → ApprovalCheck
unfolding refuse
check_given approval requested_subject =
    if not approval.recorded
    then refuse approval_not_recorded approval
    else if not (is_human approval.actor_type)
    then refuse approval_invalid_actor approval
    else if not (text_eq approval.subject_reference requested_subject)
    then refuse approval_subject_mismatch approval
    else if is_reject approval.decision
    then refuse approval_rejected approval
    else record {
      authorizes = true;
      require_human_review = false;
      reason_code = allowed;
      approval_id = some approval.approval_id;
    }

check_optional : Option ApprovalView → Text → ApprovalCheck
unfolding check_given
check_optional none requested_subject = record {
  authorizes = false;
  require_human_review = true;
  reason_code = approval_required;
  approval_id = none;
}
check_optional (some approval) requested_subject = check_given approval requested_subject

unfoldable pub check_approval : Option ApprovalView → Text → Result CoreError ApprovalCheck
unfolding check_optional
check_approval approval requested_subject = do
  require_opaque_id requested_subject
  ok (check_optional approval requested_subject)

pub record RecordedApprovalEvaluation : Type 0 where
  pub valid_record : Bool
  pub authorizes : Bool
  pub reason_code : ReasonCode
  pub approval_id : Option Text

abbrev is_rejected_code : ReasonCode → Bool
is_rejected_code approval_rejected = true
is_rejected_code _ = false

evaluation : Option ApprovalView → ApprovalCheck → RecordedApprovalEvaluation
evaluation none check = record {
  valid_record = false;
  authorizes = false;
  reason_code = check.reason_code;
  approval_id = none;
}
evaluation (some approval) check =
    if is_rejected_code check.reason_code
    then record {
      valid_record = true;
      authorizes = false;
      reason_code = check.reason_code;
      approval_id = some approval.approval_id;
    }
    else if check.authorizes
    then record {
      valid_record = true;
      authorizes = true;
      reason_code = check.reason_code;
      approval_id = some approval.approval_id;
    }
    else record {
      valid_record = false;
      authorizes = false;
      reason_code = check.reason_code;
      approval_id = some approval.approval_id;
    }

pub evaluate_recorded_approval :
    Option ApprovalView → Text → Result CoreError RecordedApprovalEvaluation
unfolding evaluation check_approval
evaluate_recorded_approval approval requested_subject = do
  check ← check_approval approval requested_subject
  ok (evaluation approval check)

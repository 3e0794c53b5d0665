-- ===== src/Core/Approval/Eligibility/Examples.antt =====
-- Approvals by a human operator and by a worker.
use research_os.Common.{true, false, some, ok, ◌≡◌, ◌↔◌, refl}
use research_os.Common.Text.{codes, is_blank}
use research_os.Core.Enums.{
  ActorType, human_operator, worker, approve, allowed, approval_invalid_actor,
}
use research_os.Core.Identity.{require_opaque_id}
use research_os.Core.Approval.{
  ApprovalView, ApprovalCheck, RecordedApprovalEvaluation, check_approval,
  evaluate_recorded_approval,
}
use research_os.Core.Approval.Eligibility.{IsHumanDecision, check_approval-authorizes_iff}

abbrev given_by : ActorType → ApprovalView
given_by actor = record {
  approval_id = codes "a-1";
  subject_reference = codes "run-7";
  decision = approve;
  decided_by = codes "eve";
  actor_type = actor;
  recorded = true;
}

abbrev granted : ApprovalCheck
granted = record {
  authorizes = true;
  require_human_review = false;
  reason_code = allowed;
  approval_id = some (codes "a-1");
}

check_approval_run : check_approval (some (given_by human_operator)) (codes "run-7") ≡ ok granted
unfolding check_approval require_opaque_id is_blank
check_approval_run = refl

check_approval-authorizes_iff_example :
    ((true ≡ true)
      ↔ (IsHumanDecision (given_by human_operator) (codes "run-7") × (approve ≡ approve)))
    × (false ≡ false)
    × (some (codes "a-1") ≡ some (codes "a-1"))
check_approval-authorizes_iff_example =
    check_approval-authorizes_iff (given_by human_operator) (codes "run-7") {c = granted}
      check_approval_run

abbrev refused : RecordedApprovalEvaluation
refused = record {
  valid_record = false;
  authorizes = false;
  reason_code = approval_invalid_actor;
  approval_id = some (codes "a-1");
}

evaluate_recorded_approval_run :
    evaluate_recorded_approval (some (given_by worker)) (codes "run-7") ≡ ok refused
unfolding evaluate_recorded_approval require_opaque_id is_blank
evaluate_recorded_approval_run = refl

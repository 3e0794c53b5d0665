-- ===== src/Research/Candidate/Lifecycle/Examples.antt =====
-- A candidate that is verified and rejected.
use research_os.Common.{ℕ, ◌+◌, ◌≤◌, ◌≡◌, refl, ◌↔◌}
use research_os.Research.Candidate.{CandidateState, transition_candidate}
use research_os.Research.Candidate.Lifecycle.{Run, Run-left, Run-validated_iff}

rejected-Run : Run CandidateState.opened 2 CandidateState.rejected
unfolding transition_candidate
rejected-Run =
    Run.step CandidateState.verifying refl (Run.step CandidateState.rejected refl Run.rest)

Run-left_example : (2 + 0) ≤ 2
Run-left_example = Run-left rejected-Run

Run-validated_iff_example : Run CandidateState.opened 2 CandidateState.validated ↔ (◌≡◌ {A = ℕ} 2 2)
Run-validated_iff_example = Run-validated_iff 2

-- ===== src/Research/Candidate/Admission/Examples.antt =====
-- A diagnostic proposal with its one evidence.
use research_os.Common.{◌⊎◌, none, ok, true, false, [], ◌∷◌, ◌≡◌, refl, ◌↔◌}
use research_os.Common.Text.{codes}
use research_os.Research.Candidate.{
  CandidateEvidenceRef, CandidateProposal, CandidateAdmissionContext, diagnostic_claim,
  diagnostic_classification, supporting,
}
use research_os.Research.Candidate.Admission.{
  admit_candidate, admit, decide, decide_claim, decide_support, decide_duplicate, collect_codes,
  evidence_codes, is_unsupported, is_allowed_classification, is_cross_class, cites_claim,
  expected_claim, is_supporting, seeded_reason,
}
use research_os.Research.Candidate.Proposers.{
  propose_diagnostic_candidate, propose_authorization_differential_candidate,
  propose_state_transition_candidate,
}
use research_os.Research.Candidate.Proposers.Exclusive.{proposers_exclusive}
use research_os.Research.Candidate.Admission.Eligible.{IsAdmissible, admit_candidate-admitted_iff}

abbrev echo : CandidateEvidenceRef
echo = record {
  evidence_id = codes "e-1";
  research_run_id = codes "run";
  hypothesis_id = codes "h";
  experiment_id = codes "x";
  polarity = supporting;
  claim_scope = diagnostic_claim;
}

abbrev context : CandidateAdmissionContext
context = record {
  research_run_id = codes "run";
  hypothesis_id = codes "h";
  evidence = echo ∷ [];
  missing_evidence_ids = [];
  authoritative_out_of_scope = false;
  known_duplicate_candidate_id = none;
}

abbrev proposal : CandidateProposal
proposal = record {
  proposal_id = codes "p";
  research_run_id = codes "run";
  hypothesis_id = codes "h";
  evidence_ids = codes "e-1" ∷ [];
  claim = diagnostic_claim;
  classification = diagnostic_classification;
  rationale = [];
  provenance = [];
  duplicate_of_candidate_id = none;
}

admit_candidate_run : admit_candidate proposal context ≡ admit proposal
unfolding admit_candidate decide decide_claim decide_support decide_duplicate collect_codes
    evidence_codes is_unsupported is_allowed_classification is_cross_class cites_claim
    expected_claim is_supporting seeded_reason
admit_candidate_run = refl

admit_candidate-admitted_iff_example :
    ((admit_candidate proposal context).admitted ≡ true) ↔ IsAdmissible proposal context
admit_candidate-admitted_iff_example = admit_candidate-admitted_iff proposal context

proposers_exclusive_example :
    ((propose_diagnostic_candidate context (codes "p1") ≡ ok none)
      × (propose_authorization_differential_candidate context (codes "p2") ≡ ok none))
    ⊎ ((propose_diagnostic_candidate context (codes "p1") ≡ ok none)
        × (propose_state_transition_candidate context (codes "p3") ≡ ok none))
    ⊎ ((propose_authorization_differential_candidate context (codes "p2") ≡ ok none)
        × (propose_state_transition_candidate context (codes "p3") ≡ ok none))
proposers_exclusive_example = proposers_exclusive context (codes "p1") (codes "p2") (codes "p3")

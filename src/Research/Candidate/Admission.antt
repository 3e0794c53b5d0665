-- ===== src/Research/Candidate/Admission.antt =====
-- research/candidate.py: `admit_candidate`, the decision on a proposal in its loaded context.
mod Examples
pub mod Support
pub mod Eligible
use research_os.Common.{
  Bool, true, false, not, ◌&&◌, ◌||◌, Option, none, some, List, [], ◌∷◌, ◌++◌, any, all, keep,
  is_empty, map, if◌then◌else◌,
}
use research_os.Common.Text.{Text, text_eq}
use research_os.Research.Candidate.{
  CandidateState, CandidateAdmissionOutcome, AdmissionCode, CandidateEvidenceRef, CandidateProposal,
  CandidateAdmissionContext, CandidateAdmissionDecision, admitted, rejected_insufficient_support,
  rejected_broken_provenance, rejected_claim_exceeds_evidence, rejected_not_testable,
  rejected_policy_conflict, authoritative_out_of_scope, wrong_research_run, wrong_hypothesis,
  missing_evidence, hallucinated_or_absent_evidence, evidence_wrong_run, evidence_wrong_hypothesis,
  unsupported_candidate_classification, cross_class_evidence_rejected,
  claim_not_testable_for_classification, evidence_does_not_support_claim,
  claim_exceeds_evidence_scope, unknown_duplicate_reference,
  diagnostic_candidate_seeded_from_evidence,
  http_authorization_differential_candidate_seeded_from_evidence,
  http_state_transition_authorization_candidate_seeded_from_evidence, diagnostic_claim,
  authorization_differential_claim, state_transition_claim, diagnostic_classification,
  authorization_differential_classification, state_transition_classification, supporting,
}

-- `item in ids`
abbrev pub is_in : List Text → Text → Bool
is_in ids item = any (text_eq item) ids

abbrev pub evidence_ids : CandidateAdmissionContext → List Text
evidence_ids context = map (λ e. e.evidence_id) context.evidence

-- The loop over the evidence, which breaks at the first one of another run or hypothesis.
pub evidence_codes : CandidateAdmissionContext → List CandidateEvidenceRef → List AdmissionCode
evidence_codes context [] = []
evidence_codes context (item ∷ rest) =
    let later = evidence_codes context rest in
    if not (text_eq item.research_run_id context.research_run_id)
    then evidence_wrong_run ∷ []
    else if not (text_eq item.hypothesis_id context.hypothesis_id)
    then evidence_wrong_hypothesis ∷ []
    else later

abbrev pub when : Bool → AdmissionCode → List AdmissionCode
when test code = if test then code ∷ [] else []

pub is_unsupported : CandidateProposal → CandidateAdmissionContext → Bool
is_unsupported proposal context =
    any (λ item. not (is_in (evidence_ids context) item)) proposal.evidence_ids
    || is_empty proposal.evidence_ids

-- The list `codes` before the first return.
pub collect_codes : CandidateProposal → CandidateAdmissionContext → List AdmissionCode
unfolding evidence_codes is_unsupported
collect_codes proposal context =
    when (not (text_eq proposal.research_run_id context.research_run_id)) wrong_research_run
    ++ (when (not (text_eq proposal.hypothesis_id context.hypothesis_id)) wrong_hypothesis
        ++ (when (not (is_empty context.missing_evidence_ids)) missing_evidence
            ++ (when (is_unsupported proposal context) hallucinated_or_absent_evidence
                ++ evidence_codes context context.evidence)))

abbrev pub is_broken : AdmissionCode → Bool
is_broken wrong_research_run = true
is_broken evidence_wrong_run = true
is_broken missing_evidence = true
is_broken _ = false

abbrev pub is_hallucinated : AdmissionCode → Bool
is_hallucinated hallucinated_or_absent_evidence = true
is_hallucinated _ = false

pub is_allowed_classification : Text → Bool
is_allowed_classification k =
    text_eq k diagnostic_classification
    || text_eq k authorization_differential_classification
    || text_eq k state_transition_classification

-- `claim in evidence_claims`
pub cites_claim : CandidateProposal → CandidateAdmissionContext → Text → Bool
cites_claim proposal context claim =
    any (λ e. is_in proposal.evidence_ids e.evidence_id && text_eq claim e.claim_scope)
      context.evidence

pub is_cross_class : CandidateProposal → CandidateAdmissionContext → Bool
unfolding cites_claim
is_cross_class proposal context =
    (text_eq proposal.classification state_transition_classification
      && cites_claim proposal context authorization_differential_claim)
    || (text_eq proposal.classification authorization_differential_classification
        && cites_claim proposal context state_transition_claim)

-- `expected_claim` and `expected_evidence_claim`, which are the same text for each classification
pub expected_claim : Text → Text
expected_claim k =
    if text_eq k authorization_differential_classification
    then authorization_differential_claim
    else if text_eq k state_transition_classification
    then state_transition_claim
    else diagnostic_claim

pub is_supporting : CandidateProposal → CandidateEvidenceRef → Bool
unfolding expected_claim
is_supporting proposal e =
    is_in proposal.evidence_ids e.evidence_id
    && text_eq e.polarity supporting
    && text_eq e.claim_scope (expected_claim proposal.classification)

-- `proposal.claim != supporting[0].claim_scope`
abbrev pub exceeds : CandidateProposal → List CandidateEvidenceRef → Bool
exceeds proposal [] = false
exceeds proposal (e ∷ es) = not (text_eq proposal.claim e.claim_scope)

abbrev pub same_id : Text → Option Text → Bool
same_id d none = false
same_id d (some known) = text_eq d known

abbrev pub is_unknown_duplicate : CandidateProposal → CandidateAdmissionContext → Bool
is_unknown_duplicate proposal context = elim proposal.duplicate_of_candidate_id [
  | none ↦ false
  | some d ↦ not (same_id d context.known_duplicate_candidate_id)
]

pub seeded_reason : Text → AdmissionCode
seeded_reason k =
    if text_eq k state_transition_classification
    then http_state_transition_authorization_candidate_seeded_from_evidence
    else if text_eq k authorization_differential_classification
    then http_authorization_differential_candidate_seeded_from_evidence
    else diagnostic_candidate_seeded_from_evidence

abbrev pub refuse :
    CandidateAdmissionOutcome → List AdmissionCode → CandidateProposal → CandidateAdmissionDecision
refuse outcome codes proposal = record {
  outcome = outcome;
  reason_codes = codes;
  proposal = proposal;
  admitted = false;
  initial_state = none;
}

abbrev pub admit : CandidateProposal → CandidateAdmissionDecision
admit proposal = record {
  outcome = admitted;
  reason_codes = seeded_reason proposal.classification ∷ [];
  proposal = proposal;
  admitted = true;
  initial_state = some CandidateState.opened;
}

-- The returns after the codes were collected, in their order, from the last ones to the first ones.
pub decide_duplicate :
    List AdmissionCode → CandidateProposal → CandidateAdmissionContext → CandidateAdmissionDecision
unfolding seeded_reason
decide_duplicate codes proposal context =
    if is_unknown_duplicate proposal context
    then refuse rejected_broken_provenance (unknown_duplicate_reference ∷ codes) proposal
    else if not (is_empty codes)
    then refuse rejected_insufficient_support codes proposal
    else admit proposal

pub decide_support :
    List AdmissionCode → CandidateProposal → CandidateAdmissionContext → CandidateAdmissionDecision
unfolding is_supporting decide_duplicate
decide_support codes proposal context =
    let cited = keep (is_supporting proposal) context.evidence in
    if is_empty cited
    then refuse rejected_insufficient_support (evidence_does_not_support_claim ∷ codes) proposal
    else if exceeds proposal cited
    then refuse rejected_claim_exceeds_evidence (claim_exceeds_evidence_scope ∷ codes) proposal
    else decide_duplicate codes proposal context

pub decide_claim :
    List AdmissionCode → CandidateProposal → CandidateAdmissionContext → CandidateAdmissionDecision
unfolding is_allowed_classification is_cross_class expected_claim decide_support
decide_claim codes proposal context =
    if not (is_allowed_classification proposal.classification)
    then refuse rejected_not_testable (unsupported_candidate_classification ∷ codes) proposal
    else if is_cross_class proposal context
    then refuse rejected_not_testable (cross_class_evidence_rejected ∷ codes) proposal
    else if not (text_eq proposal.claim (expected_claim proposal.classification))
    then refuse rejected_not_testable (claim_not_testable_for_classification ∷ codes) proposal
    else decide_support codes proposal context

pub decide :
    List AdmissionCode → CandidateProposal → CandidateAdmissionContext → CandidateAdmissionDecision
unfolding decide_claim
decide codes proposal context =
    if context.authoritative_out_of_scope
    then refuse rejected_policy_conflict (authoritative_out_of_scope ∷ codes) proposal
    else if any is_broken codes
    then refuse rejected_broken_provenance codes proposal
    else if any is_hallucinated codes
    then refuse rejected_broken_provenance codes proposal
    else decide_claim codes proposal context

pub admit_candidate : CandidateProposal → CandidateAdmissionContext → CandidateAdmissionDecision
unfolding collect_codes decide
admit_candidate proposal context = decide (collect_codes proposal context) proposal context

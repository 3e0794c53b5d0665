-- ===== src/Research/Candidate/Proposers.antt =====
-- research/candidate.py: the proposals that a context with one supporting evidence seeds.
pub mod Exclusive
use research_os.Common.{
  Bool, true, Option, none, some, Result, ok, List, [], ◌∷◌, not, ◌||◌, ◌>>=◌, if◌then◌else◌,
}
use research_os.Common.Text.{Text, codes, text_eq}
use research_os.Common.Json.{Json}
use research_os.Research.Errors.{ResearchError}
use research_os.Research.Candidate.{
  CandidateEvidenceRef, CandidateProposal, CandidateAdmissionContext, new_candidate_proposal,
  diagnostic_claim, authorization_differential_claim, state_transition_claim,
  diagnostic_classification, authorization_differential_classification,
  state_transition_classification, supporting,
}

-- `CandidateProposal(...)` raises on a field that is blank.
abbrev return_proposal : CandidateProposal → Result ResearchError (Option CandidateProposal)
return_proposal given = do p ← new_candidate_proposal given; ok (some p)

abbrev is_unusable : CandidateAdmissionContext → CandidateEvidenceRef → Text → Bool
is_unusable context e claim =
    not (text_eq e.polarity supporting)
    || not (text_eq e.claim_scope claim)
    || not (text_eq e.research_run_id context.research_run_id)

-- What the proposers share: one evidence, usable for the claim, seeds the proposal built from it.
unfoldable pub seed :
    CandidateAdmissionContext
    → Text
    → (CandidateEvidenceRef → Result ResearchError (Option CandidateProposal))
    → List CandidateEvidenceRef
    → Result ResearchError (Option CandidateProposal)
seed context claim build (e ∷ []) = if is_unusable context e claim then ok none else build e
seed context claim build _ = ok none

unfoldable pub propose_diagnostic_candidate :
    CandidateAdmissionContext → Text → Result ResearchError (Option CandidateProposal)
unfolding seed
propose_diagnostic_candidate context proposal_id =
    seed context diagnostic_claim
      (λ e. return_proposal (record {
        proposal_id = proposal_id;
        research_run_id = context.research_run_id;
        hypothesis_id = context.hypothesis_id;
        evidence_ids = e.evidence_id ∷ [];
        claim = diagnostic_claim;
        classification = diagnostic_classification;
        rationale =
            (codes "reason_code", Json.text (codes "DIAGNOSTIC_ECHO_EVIDENCE_SEEDED"))
            ∷ (codes "not_a_vulnerability", Json.boolean true)
            ∷ (codes "not_a_finding", Json.boolean true)
            ∷ [];
        provenance =
            (codes "source", Json.text (codes "diagnostic.echo.candidate"))
            ∷ (codes "evidence_id", Json.text e.evidence_id)
            ∷ [];
        duplicate_of_candidate_id = none;
      }))
      context.evidence

unfoldable pub propose_authorization_differential_candidate :
    CandidateAdmissionContext → Text → Result ResearchError (Option CandidateProposal)
unfolding seed
propose_authorization_differential_candidate context proposal_id =
    seed context authorization_differential_claim
      (λ e. return_proposal (record {
        proposal_id = proposal_id;
        research_run_id = context.research_run_id;
        hypothesis_id = context.hypothesis_id;
        evidence_ids = e.evidence_id ∷ [];
        claim = authorization_differential_claim;
        classification = authorization_differential_classification;
        rationale =
            (
              codes "reason_code",
              Json.text (codes "HTTP_AUTHORIZATION_DIFFERENTIAL_EVIDENCE_SEEDED"),
            )
            ∷ (codes "not_a_finding", Json.boolean true)
            ∷ [];
        provenance =
            (codes "source", Json.text (codes "http.authorization.differential.candidate"))
            ∷ (codes "evidence_id", Json.text e.evidence_id)
            ∷ [];
        duplicate_of_candidate_id = none;
      }))
      context.evidence

unfoldable pub propose_state_transition_candidate :
    CandidateAdmissionContext → Text → Result ResearchError (Option CandidateProposal)
unfolding seed
propose_state_transition_candidate context proposal_id =
    seed context state_transition_claim
      (λ e.
        if text_eq e.claim_scope authorization_differential_claim
        then ok none
        else return_proposal (record {
          proposal_id = proposal_id;
          research_run_id = context.research_run_id;
          hypothesis_id = context.hypothesis_id;
          evidence_ids = e.evidence_id ∷ [];
          claim = state_transition_claim;
          classification = state_transition_classification;
          rationale =
              (
                codes "reason_code",
                Json.text (codes "HTTP_STATE_TRANSITION_AUTHORIZATION_EVIDENCE_SEEDED"),
              )
              ∷ (codes "not_a_finding", Json.boolean true)
              ∷ [];
          provenance =
              (codes "source", Json.text (codes "http.state_transition.candidate"))
              ∷ (codes "evidence_id", Json.text e.evidence_id)
              ∷ [];
          duplicate_of_candidate_id = none;
        }))
      context.evidence

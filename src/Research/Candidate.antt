-- ===== src/Research/Candidate.antt =====
-- research/candidate.py: the states of a candidate, and the records of a proposal, of the evidence
-- that it cites and of the decision on it. Proposers and Admission hold its functions.
pub mod Proposers
pub mod Admission
pub mod Lifecycle
use research_os.Common.{
  Bool, true, false, Option, none, some, Result, ok, err, List, [], ◌∷◌, any, ◌>>=◌, ◌>>◌,
  if◌then◌else◌,
}
use research_os.Common.Text.{Text, codes, text_eq, strip, is_space, is_blank}
use research_os.Common.Json.{Json}
use research_os.Research.Errors.{ResearchError, research_input_error}

pub data CandidateState : Type 0 where
  opened verifying validated rejected inconclusive duplicate out_of_scope : CandidateState

pub data CandidateAdmissionOutcome : Type 0 where
  admitted rejected_insufficient_support rejected_broken_provenance : CandidateAdmissionOutcome
  rejected_claim_exceeds_evidence rejected_not_testable : CandidateAdmissionOutcome
  rejected_policy_conflict : CandidateAdmissionOutcome

-- `(current, target) in LEGAL_CANDIDATE_TRANSITIONS`
abbrev pub is_legal : CandidateState → CandidateState → Bool
is_legal CandidateState.opened CandidateState.verifying = true
is_legal CandidateState.verifying CandidateState.validated = true
is_legal CandidateState.verifying CandidateState.rejected = true
is_legal CandidateState.verifying CandidateState.inconclusive = true
is_legal CandidateState.opened CandidateState.out_of_scope = true
is_legal CandidateState.verifying CandidateState.out_of_scope = true
is_legal CandidateState.opened CandidateState.duplicate = true
is_legal CandidateState.verifying CandidateState.duplicate = true
is_legal _ _ = false

-- `TERMINAL_CANDIDATE_STATES`
abbrev pub is_terminal : CandidateState → Bool
is_terminal CandidateState.opened = false
is_terminal CandidateState.verifying = false
is_terminal _ = true

pub transition_candidate : CandidateState → CandidateState → Result ResearchError CandidateState
transition_candidate current target =
    if is_legal current target then ok target else err research_input_error

pub start_candidate_verification : CandidateState → Result ResearchError CandidateState
unfolding transition_candidate
start_candidate_verification current = transition_candidate current CandidateState.verifying

-- The reason codes of an admission are the fixed strings of its source, one constructor for each.
pub data AdmissionCode : Type 0 where
  wrong_research_run wrong_hypothesis missing_evidence : AdmissionCode
  hallucinated_or_absent_evidence evidence_wrong_run evidence_wrong_hypothesis : AdmissionCode
  authoritative_out_of_scope unsupported_candidate_classification : AdmissionCode
  cross_class_evidence_rejected claim_not_testable_for_classification : AdmissionCode
  evidence_does_not_support_claim claim_exceeds_evidence_scope : AdmissionCode
  unknown_duplicate_reference diagnostic_candidate_seeded_from_evidence : AdmissionCode
  http_authorization_differential_candidate_seeded_from_evidence : AdmissionCode
  http_state_transition_authorization_candidate_seeded_from_evidence : AdmissionCode

abbrev pub diagnostic_claim : Text
diagnostic_claim = codes "diagnostic echo observation matched the executed plan"

abbrev pub authorization_differential_claim : Text
authorization_differential_claim =
    codes
      "Authenticated actor can read another actor's account object because object authorization is missing on the vulnerable endpoint."

abbrev pub state_transition_claim : Text
state_transition_claim =
    codes
      "Authenticated requester performed an unauthorized workflow state transition because role or sequence authorization is missing on the workflow endpoint."

abbrev pub diagnostic_classification : Text
diagnostic_classification = codes "DIAGNOSTIC_PLUMBING"

abbrev pub authorization_differential_classification : Text
authorization_differential_classification = codes "HTTP_AUTHORIZATION_DIFFERENTIAL"

abbrev pub state_transition_classification : Text
state_transition_classification = codes "HTTP_STATE_TRANSITION_AUTHORIZATION"

-- `EvidencePolarity.SUPPORTING.value`
abbrev pub supporting : Text
supporting = codes "SUPPORTING"

abbrev forbidden_candidate_keys : List Text
forbidden_candidate_keys =
    codes "severity"
    ∷ codes "cvss"
    ∷ codes "finding"
    ∷ codes "finding_proposal"
    ∷ codes "exploitability"
    ∷ codes "authorization"
    ∷ codes "confidence"
    ∷ codes "verification"
    ∷ []

unfoldable pub require_text : Text → Result ResearchError Text
unfolding is_blank
require_text value = if is_blank value then err research_input_error else ok (strip is_space value)

unfoldable pub require_ids : List Text → Result ResearchError (List Text)
unfolding require_text
require_ids [] = ok []
require_ids (item ∷ items) = do
  cleaned ← require_text item
  rest ← require_ids items
  ok (cleaned ∷ rest)

abbrev pub is_forbidden : Text × Json → Bool
is_forbidden (key, value) = any (text_eq key) forbidden_candidate_keys

-- A mapping is the list of its entries.
unfoldable pub reject_forbidden : List (Text × Json) → Result ResearchError (List (Text × Json))
reject_forbidden payload = if any is_forbidden payload then err research_input_error else ok payload

pub record CandidateEvidenceRef : Type 0 where
  pub evidence_id : Text
  pub research_run_id : Text
  pub hypothesis_id : Text
  pub experiment_id : Text
  pub polarity : Text
  pub claim_scope : Text

-- `CandidateEvidenceRef.__post_init__`
pub new_candidate_evidence_ref :
    Text → Text → Text → Text → Text → Text → Result ResearchError CandidateEvidenceRef
unfolding require_text
new_candidate_evidence_ref evidence_id run hypothesis experiment polarity claim = do
  i ← require_text evidence_id
  r ← require_text run
  h ← require_text hypothesis
  e ← require_text experiment
  p ← require_text polarity
  c ← require_text claim
  ok (record {
    evidence_id = i;
    research_run_id = r;
    hypothesis_id = h;
    experiment_id = e;
    polarity = p;
    claim_scope = c;
  })

pub record CandidateProposal : Type 0 where
  pub proposal_id : Text
  pub research_run_id : Text
  pub hypothesis_id : Text
  pub evidence_ids : List Text
  pub claim : Text
  pub classification : Text
  pub rationale : List (Text × Json)
  pub provenance : List (Text × Json)
  pub duplicate_of_candidate_id : Option Text

unfoldable pub optional_text : Option Text → Result ResearchError (Option Text)
unfolding require_text
optional_text none = ok none
optional_text (some value) = do t ← require_text value; ok (some t)

-- `CandidateProposal.__post_init__`, on the fields as they are given
unfoldable pub new_candidate_proposal : CandidateProposal → Result ResearchError CandidateProposal
unfolding require_text require_ids reject_forbidden optional_text
new_candidate_proposal given = do
  i ← require_text given.proposal_id
  r ← require_text given.research_run_id
  h ← require_text given.hypothesis_id
  es ← require_ids given.evidence_ids
  c ← require_text given.claim
  k ← require_text given.classification
  why ← reject_forbidden given.rationale
  from ← reject_forbidden given.provenance
  d ← optional_text given.duplicate_of_candidate_id
  ok (record {
    proposal_id = i;
    research_run_id = r;
    hypothesis_id = h;
    evidence_ids = es;
    claim = c;
    classification = k;
    rationale = why;
    provenance = from;
    duplicate_of_candidate_id = d;
  })

pub record CandidateAdmissionContext : Type 0 where
  pub research_run_id : Text
  pub hypothesis_id : Text
  pub evidence : List CandidateEvidenceRef
  pub missing_evidence_ids : List Text
  pub authoritative_out_of_scope : Bool
  pub known_duplicate_candidate_id : Option Text

-- `CandidateAdmissionContext.__post_init__`, on the fields as they are given
pub new_candidate_admission_context :
    CandidateAdmissionContext → Result ResearchError CandidateAdmissionContext
unfolding require_text
new_candidate_admission_context given = do
  r ← require_text given.research_run_id
  h ← require_text given.hypothesis_id
  ok (record {
    research_run_id = r;
    hypothesis_id = h;
    evidence = given.evidence;
    missing_evidence_ids = given.missing_evidence_ids;
    authoritative_out_of_scope = given.authoritative_out_of_scope;
    known_duplicate_candidate_id = given.known_duplicate_candidate_id;
  })

pub record CandidateAdmissionDecision : Type 0 where
  pub outcome : CandidateAdmissionOutcome
  pub reason_codes : List AdmissionCode
  pub proposal : CandidateProposal
  pub admitted : Bool
  pub initial_state : Option CandidateState

-- `CandidateAdmissionDecision.creates_candidate`
abbrev pub creates_candidate : CandidateAdmissionDecision → Bool
creates_candidate d = elim d.outcome [ CandidateAdmissionOutcome.admitted ↦ d.admitted | _ ↦ false ]

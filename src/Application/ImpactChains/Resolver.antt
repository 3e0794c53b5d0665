-- ===== src/Application/ImpactChains/Resolver.antt =====
-- application/impact/proof_resolver.py: `UnitOfWorkProofResolver`, which finds proofs in the ledger.
use research_os.Common.{Option, none, some, Result, ok, err, List, [], ◌∷◌, if◌then◌else◌}
use research_os.Common.Text.{Text, codes, text_eq}
use research_os.Research.Impact.Chain.{ImpactError}
use research_os.Research.Impact.Proofs.{ProofRecord, new_proof_record}

-- The fields that the resolver reads.
pub record EvidenceRecord : Type 0 where
  pub evidence_id : Text
  pub research_run_id : Text
  pub experiment_id : Text
  pub claim_scope : Text

pub record ObservationRecord : Type 0 where
  pub observation_id : Text
  pub worker_result_id : Text
  pub observation_kind : Text

pub record WorkerResultRecord : Type 0 where
  pub worker_result_id : Text
  pub research_run_id : Text

pub record ExperimentRecord : Type 0 where
  pub experiment_id : Text
  pub research_run_id : Text

pub record Ledger : Type 0 where
  pub evidence : List EvidenceRecord
  pub observations : List ObservationRecord
  pub worker_results : List WorkerResultRecord
  pub experiments : List ExperimentRecord

module _ {A : Type 0} where
  -- `get`, by the primary key
  unfoldable pub get : (A → Text) → List A → Text → Option A
  get id_of [] id = none
  get id_of (a ∷ rows) id = if text_eq (id_of a) id then some a else get id_of rows id

abbrev pub account_read : Text
account_read =
    codes
      "Authenticated actor can read another actor's account object because object authorization is missing on the vulnerable endpoint."

abbrev pub workflow_transition : Text
workflow_transition =
    codes
      "Authenticated requester performed an unauthorized workflow state transition because role or sequence authorization is missing on the workflow endpoint."

-- `_CLAIM_SCOPE_TO_CAPABILITIES.get(claim_scope, frozenset())`
unfoldable pub claim_scope_capabilities : Text → List Text
claim_scope_capabilities claim_scope =
    if text_eq claim_scope account_read
    then codes "READ_OTHER_OBJECT" ∷ []
    else if text_eq claim_scope workflow_transition
    then codes "WORKFLOW_TRANSITION_WITHOUT_AUTH" ∷ []
    else []

abbrev pub as_some : Result ImpactError ProofRecord → Result ImpactError (Option ProofRecord)
as_some (ok r) = ok (some r)
as_some (err e) = err e

unfoldable pub resolve_experiment :
    Text → Option ExperimentRecord → Result ImpactError (Option ProofRecord)
unfolding new_proof_record
resolve_experiment proof_id none = ok none
resolve_experiment proof_id (some x) =
    as_some (new_proof_record proof_id x.research_run_id x.experiment_id [])

unfoldable pub resolve_observation :
    Text → ObservationRecord → Option WorkerResultRecord → Result ImpactError (Option ProofRecord)
unfolding new_proof_record
resolve_observation proof_id o none = ok none
resolve_observation proof_id o (some w) =
    as_some (new_proof_record proof_id w.research_run_id o.observation_kind [])

-- `_resolve_evidence`
unfoldable pub resolve_evidence : EvidenceRecord → Result ImpactError (Option ProofRecord)
unfolding new_proof_record claim_scope_capabilities
resolve_evidence e = as_some (
    new_proof_record e.evidence_id e.research_run_id e.experiment_id
      (claim_scope_capabilities e.claim_scope))

unfoldable pub resolve_other :
    Ledger → Text → Option ObservationRecord → Result ImpactError (Option ProofRecord)
unfolding get resolve_observation resolve_experiment
resolve_other ledger proof_id (some o) =
    resolve_observation proof_id o
      (get (λ w. w.worker_result_id) ledger.worker_results o.worker_result_id)
resolve_other ledger proof_id none =
    resolve_experiment proof_id (get (λ x. x.experiment_id) ledger.experiments proof_id)

unfoldable pub resolve_found :
    Ledger → Text → Option EvidenceRecord → Result ImpactError (Option ProofRecord)
unfolding get resolve_evidence resolve_other
resolve_found ledger proof_id (some e) = resolve_evidence e
resolve_found ledger proof_id none =
    resolve_other ledger proof_id (get (λ o. o.observation_id) ledger.observations proof_id)

-- `UnitOfWorkProofResolver.resolve`, whose second argument it does not read
unfoldable pub resolve_proof : Ledger → Text → Result ImpactError (Option ProofRecord)
unfolding get resolve_found
resolve_proof ledger proof_id =
    resolve_found ledger proof_id (get (λ e. e.evidence_id) ledger.evidence proof_id)

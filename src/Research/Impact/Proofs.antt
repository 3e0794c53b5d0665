-- ===== src/Research/Impact/Proofs.antt =====
-- research/impact/validator.py and research/impact/capability_map.py: the validation of a chain
-- against the proofs that it cites. The resolver, a port of the program, is a function.
pub mod Valid
use research_os.Common.{
  Bool, true, false, not, Option, none, some, Result, ok, err, List, [], ◌∷◌, ◌++◌, is_empty,
  if◌then◌else◌, ◌>>=◌, ◌>>◌,
}
use research_os.Common.Text.{Text, text_eq}
use research_os.Research.Candidate.{require_text}
use research_os.Research.Severity.{ImpactKind}
use research_os.Research.Impact.Kinds.{impact_value}
use research_os.Research.Impact.Capabilities.{allowed_kinds}
use research_os.Research.Impact.Cycle.{is_in}
use research_os.Research.Impact.Chain.{ImpactError, lift, ImpactNode, ImpactChain}

pub record ProofRecord : Type 0 where
  pub proof_id : Text
  pub research_run_id : Text
  pub target_reference : Text
  pub demonstrated_capabilities : List Text

-- `ProofRecord.__post_init__`
unfoldable pub new_proof_record : Text → Text → Text → List Text → Result ImpactError ProofRecord
unfolding require_text
new_proof_record id run target capabilities = do
  i ← lift (require_text id)
  r ← lift (require_text run)
  t ← lift (require_text target)
  ok (record {
    proof_id = i;
    research_run_id = r;
    target_reference = t;
    demonstrated_capabilities = capabilities;
  })

pub data ReasonCode : Type 0 where
  empty_proof_refs hallucinated_or_absent_proof cross_run_proof : ReasonCode
  impact_exceeds_demonstrated_capability : ReasonCode
  impact_kind_within_demonstrated_capability impact_scope_validated impact_chain_proofs_resolved :
      ReasonCode

pub record ChainValidation : Type 0 where
  pub valid : Bool
  pub reason_codes : List ReasonCode

-- The end of both validators of a chain.
abbrev pub conclude : List ReasonCode → ReasonCode → ChainValidation
conclude [] success = record { valid = true; reason_codes = success ∷ [] }
conclude (code ∷ codes) success = record { valid = false; reason_codes = code ∷ codes }

-- The end of `validate_impact_scope`: a node's proofs were collected, or one of them was bad.
abbrev pub judge : ImpactKind → Result ReasonCode (List Text) → ChainValidation
judge kind (err code) = record { valid = false; reason_codes = code ∷ [] }
judge kind (ok capabilities) =
    if is_in (allowed_kinds capabilities) (impact_value kind)
    then record { valid = true; reason_codes = impact_kind_within_demonstrated_capability ∷ [] }
    else record { valid = false; reason_codes = impact_exceeds_demonstrated_capability ∷ [] }

-- `if not result.valid: reason_codes.extend(result.reason_codes)`
abbrev pub extend_invalid : ChainValidation → List ReasonCode → List ReasonCode
extend_invalid result rest = if not result.valid then result.reason_codes ++ rest else rest

abbrev pub code_of : Result ReasonCode ProofRecord → List ReasonCode
code_of (err code) = code ∷ []
code_of (ok r) = []

-- The proof that was resolved, or why it does not count in the run.
abbrev pub in_run : Text → Option ProofRecord → Result ReasonCode ProofRecord
in_run expected_run_id none = err hallucinated_or_absent_proof
in_run expected_run_id (some r) =
    if text_eq r.research_run_id expected_run_id then ok r else err cross_run_proof

module _ (resolve : Text → Text → Option ProofRecord) (expected_run_id : Text) where
  abbrev pub resolved : Text → Result ReasonCode ProofRecord
  resolved proof_id = in_run expected_run_id (resolve proof_id expected_run_id)

  -- The loop over a node's proofs, which returns at the first bad one.
  unfoldable pub collect : List Text → List Text → Result ReasonCode (List Text)
  collect [] capabilities = ok capabilities
  collect (proof_id ∷ proof_ids) capabilities = do
    r ← resolved proof_id
    collect proof_ids (capabilities ++ r.demonstrated_capabilities)

  -- `validate_impact_scope`
  unfoldable pub validate_impact_scope : ImpactNode → ChainValidation
  unfolding collect allowed_kinds
  validate_impact_scope node = judge node.impact_kind (collect node.proof_refs [])

  -- The loop over the nodes, which keeps the codes of the nodes that are not valid.
  unfoldable pub scope_codes : List ImpactNode → List ReasonCode
  unfolding validate_impact_scope
  scope_codes [] = []
  scope_codes (node ∷ nodes) = extend_invalid (validate_impact_scope node) (scope_codes nodes)

  unfoldable pub validate_chain_impact_scope : ImpactChain → ChainValidation
  unfolding scope_codes
  validate_chain_impact_scope chain = conclude (scope_codes chain.nodes) impact_scope_validated

  -- `validator.py`, the loop over a node's proofs
  unfoldable pub proof_codes : List Text → List ReasonCode
  proof_codes [] = []
  proof_codes (proof_id ∷ proof_ids) = code_of (resolved proof_id) ++ proof_codes proof_ids

  unfoldable pub chain_codes : List ImpactNode → List ReasonCode
  unfolding proof_codes
  chain_codes [] = []
  chain_codes (node ∷ nodes) =
      let rest = chain_codes nodes in
      if is_empty node.proof_refs
      then empty_proof_refs ∷ rest
      else proof_codes node.proof_refs ++ rest

  unfoldable pub validate_chain : ImpactChain → ChainValidation
  unfolding chain_codes
  validate_chain chain = conclude (chain_codes chain.nodes) impact_chain_proofs_resolved

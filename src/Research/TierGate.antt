-- ===== src/Research/TierGate.antt =====
-- research/validation/tier_gate.py: the tiers that a validation must have passed.
pub mod Admission
pub mod Entries
use research_os.Common.{
  Bool, true, false, not, Option, none, some, Result, ok, err, List, [], ◌∷◌, keep, map, is_empty,
  ◌>>=◌, if◌then◌else◌,
}
use research_os.Common.Text.{Text, codes, text_eq}
use research_os.Research.Errors.{ResearchError, research_input_error}

pub data ValidationTier : Type 0 where
  v1 v2 v3 : ValidationTier

pub data ValidationTierOutcome : Type 0 where
  passed rejected inconclusive queued : ValidationTierOutcome

pub data ValidationAdmissionOutcome : Type 0 where
  admitted rejected_missing_required_tier rejected_tier_not_passed : ValidationAdmissionOutcome
  rejected_unknown_required_tier : ValidationAdmissionOutcome

-- A reason code: the texts of the source, with the tier and the outcome that they name.
pub data TierCode : Type 0 where
  missing : ValidationTier → TierCode
  not_passed : ValidationTier → ValidationTierOutcome → TierCode
  validation_tiers_passed : TierCode

-- `ValidationTier | str`
pub data TierArgument : Type 0 where
  tier : ValidationTier → TierArgument
  text : Text → TierArgument

-- `ValidationTierOutcome | str`
pub data OutcomeArgument : Type 0 where
  outcome : ValidationTierOutcome → OutcomeArgument
  text : Text → OutcomeArgument

-- `_REQUIRED_CHAIN`, which has an entry for every tier.
abbrev pub required_chain : ValidationTier → List ValidationTier
required_chain v1 = v1 ∷ []
required_chain v2 = v1 ∷ v2 ∷ []
required_chain v3 = v1 ∷ v2 ∷ v3 ∷ []

pub record ValidationAdmissionDecision : Type 0 where
  pub outcome : ValidationAdmissionOutcome
  pub admitted : Bool
  pub required_tiers : List ValidationTier
  pub reason_codes : List TierCode

pub coerce_tier : TierArgument → Result ResearchError ValidationTier
coerce_tier (TierArgument.tier t) = ok t
coerce_tier (TierArgument.text s) =
    if text_eq s (codes "V1")
    then ok v1
    else if text_eq s (codes "V2")
    then ok v2
    else if text_eq s (codes "V3")
    then ok v3
    else err research_input_error

pub coerce_outcome : OutcomeArgument → Result ResearchError ValidationTierOutcome
coerce_outcome (OutcomeArgument.outcome o) = ok o
coerce_outcome (OutcomeArgument.text s) =
    if text_eq s (codes "PASSED")
    then ok passed
    else if text_eq s (codes "REJECTED")
    then ok rejected
    else if text_eq s (codes "INCONCLUSIVE")
    then ok inconclusive
    else if text_eq s (codes "QUEUED")
    then ok queued
    else err research_input_error

abbrev pub same_tier : ValidationTier → ValidationTier → Bool
same_tier v1 v1 = true
same_tier v2 v2 = true
same_tier v3 v3 = true
same_tier _ _ = false

-- The dictionary comprehension, with its entries in their order.
pub normalize :
    List (TierArgument × OutcomeArgument)
    → Result ResearchError (List (ValidationTier × ValidationTierOutcome))
unfolding coerce_tier coerce_outcome
normalize [] = ok []
normalize ((key, value) ∷ rest) = do
  t ← coerce_tier key
  o ← coerce_outcome value
  later ← normalize rest
  ok ((t, o) ∷ later)

-- `normalized.get(t)`: of two entries of a tier the later one counts.
pub observed :
    List (ValidationTier × ValidationTierOutcome) → ValidationTier → Option ValidationTierOutcome
observed [] t = none
observed ((key, o) ∷ rest) t = elim (observed rest t) [
  | some later ↦ some later
  | none ↦ if same_tier key t then some o else none
]

abbrev pub is_missing : List (ValidationTier × ValidationTierOutcome) → ValidationTier → Bool
is_missing normalized t = elim (observed normalized t) [ none ↦ true | some o ↦ false ]

-- The code of a tier that was observed and has not passed.
abbrev not_passed_codes :
    List (ValidationTier × ValidationTierOutcome) → List ValidationTier → List TierCode
not_passed_codes normalized [] = []
not_passed_codes normalized (t ∷ ts) =
    let later = not_passed_codes normalized ts in
    elim (observed normalized t) [
      | none ↦ later
      | some passed ↦ later
      | some o ↦ not_passed t o ∷ later
    ]

pub validate_normalized :
    ValidationTier → List (ValidationTier × ValidationTierOutcome) → ValidationAdmissionDecision
unfolding observed
validate_normalized t normalized =
    let required = required_chain t in
    let missing_tiers = keep (is_missing normalized) required in
    let failed = not_passed_codes normalized required in
    if not (is_empty missing_tiers)
    then record {
      outcome = rejected_missing_required_tier;
      admitted = false;
      required_tiers = required;
      reason_codes = map missing missing_tiers;
    }
    else if not (is_empty failed)
    then record {
      outcome = rejected_tier_not_passed;
      admitted = false;
      required_tiers = required;
      reason_codes = failed;
    }
    else record {
      outcome = admitted;
      admitted = true;
      required_tiers = required;
      reason_codes = validation_tiers_passed ∷ [];
    }

pub validate_required_tiers :
    TierArgument
    → List (TierArgument × OutcomeArgument)
    → Result ResearchError ValidationAdmissionDecision
unfolding coerce_tier normalize validate_normalized
validate_required_tiers required_tier observed_outcomes = do
  t ← coerce_tier required_tier
  normalized ← normalize observed_outcomes
  ok (validate_normalized t normalized)

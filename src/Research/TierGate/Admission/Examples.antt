-- ===== src/Research/TierGate/Admission/Examples.antt =====
-- A chain of three tiers whose last one is only queued.
use research_os.Common.{true, false, ok, List, [], ◌∷◌, ◌≡◌, ◌≤◌, refl, ◌↔◌}
use research_os.Common.Text.{codes}
use research_os.Research.TierGate.{
  ValidationTier, ValidationAdmissionDecision, TierArgument, OutcomeArgument, TierCode, v2, v3,
  passed, queued, rejected_tier_not_passed, required_chain, coerce_tier, coerce_outcome, normalize,
  observed, validate_normalized, validate_required_tiers,
}
use research_os.Research.TierGate.Admission.{Holds, rank, validate_required_tiers-admitted_iff}
use research_os.Research.TierGate.Entries.{IsTier, LastPassed}

abbrev outcomes : List (TierArgument × OutcomeArgument)
outcomes =
    (TierArgument.text (codes "V1"), OutcomeArgument.outcome passed)
    ∷ (TierArgument.tier v2, OutcomeArgument.text (codes "PASSED"))
    ∷ (TierArgument.tier v3, OutcomeArgument.outcome queued)
    ∷ []

abbrev shut : ValidationAdmissionDecision
shut = record {
  outcome = rejected_tier_not_passed;
  admitted = false;
  required_tiers = required_chain v3;
  reason_codes = TierCode.not_passed v3 queued ∷ [];
}

validate_required_tiers_run :
    validate_required_tiers (TierArgument.text (codes "V3")) outcomes ≡ ok shut
unfolding validate_required_tiers validate_normalized normalize observed coerce_tier coerce_outcome
validate_required_tiers_run = refl

validate_required_tiers-admitted_iff_example :
    (t : ValidationTier) × IsTier (TierArgument.text (codes "V3")) t
    × ((u : ValidationTier) → Holds u (required_chain v3) ↔ (rank u ≤ rank t))
    × ((false ≡ true) ↔ ((u : ValidationTier) → rank u ≤ rank t → LastPassed u outcomes))
validate_required_tiers-admitted_iff_example =
    validate_required_tiers-admitted_iff (TierArgument.text (codes "V3")) outcomes {d = shut}
      validate_required_tiers_run

-- ===== src/Research/Candidate/Proposers/Exclusive.antt =====
-- The proposers of research/candidate.py claim different things of one evidence.
use research_os.Common.{
  true, false, Option, none, Result, ok, List, [], ◌∷◌, ◌≡◌, ◌≢◌, refl, ◌⊎◌, inl, inr, arith,
  Bool-cases,
}
use research_os.Common.Text.{Text, text_eq, text_eq_iff, text_neq}
use research_os.Research.Errors.{ResearchError}
use research_os.Research.Candidate.{
  CandidateEvidenceRef, CandidateProposal, CandidateAdmissionContext, diagnostic_claim,
  authorization_differential_claim, state_transition_claim,
}
use research_os.Research.Candidate.Proposers.{
  seed, propose_diagnostic_candidate, propose_authorization_differential_candidate,
  propose_state_transition_candidate,
}

-- An evidence of another claim seeds nothing.
seed-other :
    (c : CandidateAdmissionContext) (claim : Text)
    (build : CandidateEvidenceRef → Result ResearchError (Option CandidateProposal))
    (e : CandidateEvidenceRef)
    → text_eq e.claim_scope claim ≡ false
    → seed c claim build (e ∷ []) ≡ ok none
unfolding seed
seed-other c claim build e h = ground arith

other_claim : (x s t : Text) → s ≢ t → text_eq x s ≡ true → text_eq x t ≡ false
other_claim x s t different h = ground (arith, text_eq_iff x s, text_eq_iff x t)

module _ (c : CandidateAdmissionContext) (d a s : Text) (da : d ≢ a) (ds : d ≢ s)
    (as_differ : a ≢ s)
    (f g h : CandidateEvidenceRef → Result ResearchError (Option CandidateProposal)) where
  seed-exclusive :
      (es : List CandidateEvidenceRef)
      → ((seed c d f es ≡ ok none) × (seed c a g es ≡ ok none))
        ⊎ ((seed c d f es ≡ ok none) × (seed c s h es ≡ ok none))
        ⊎ ((seed c a g es ≡ ok none) × (seed c s h es ≡ ok none))
  unfolding seed
  seed-exclusive [] = inl (refl, refl)
  seed-exclusive (e ∷ []) = elim (Bool-cases (text_eq e.claim_scope d)) [
    | inl is_d ↦ inr (
        inr (
          seed-other c a g e (other_claim e.claim_scope d a da is_d),
          seed-other c s h e (other_claim e.claim_scope d s ds is_d),
        ))
    | inr not_d ↦ elim (Bool-cases (text_eq e.claim_scope a)) [
      | inl is_a ↦ inr (
          inl (
            seed-other c d f e not_d,
            seed-other c s h e (other_claim e.claim_scope a s as_differ is_a),
          ))
      | inr not_a ↦ inl (seed-other c d f e not_d, seed-other c a g e not_a)
    ]
  ]
  seed-exclusive (e ∷ e' ∷ es) = inl (refl, refl)

-- From one context at most one of the three proposers seeds a proposal, or raises on it: two of them
-- return none.
pub proposers_exclusive :
    (c : CandidateAdmissionContext) (i j k : Text)
    → ((propose_diagnostic_candidate c i ≡ ok none)
        × (propose_authorization_differential_candidate c j ≡ ok none))
      ⊎ ((propose_diagnostic_candidate c i ≡ ok none)
          × (propose_state_transition_candidate c k ≡ ok none))
      ⊎ ((propose_authorization_differential_candidate c j ≡ ok none)
          × (propose_state_transition_candidate c k ≡ ok none))
unfolding propose_diagnostic_candidate propose_authorization_differential_candidate
    propose_state_transition_candidate
proposers_exclusive c i j k =
    seed-exclusive c diagnostic_claim authorization_differential_claim state_transition_claim
      (text_neq _ _ refl) (text_neq _ _ refl) (text_neq _ _ refl) _ _ _ c.evidence

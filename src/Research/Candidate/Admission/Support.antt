-- ===== src/Research/Candidate/Admission/Support.antt =====
-- Which proposals become candidates (research/candidate.py, `admit_candidate`).
use mathlib.Core.Path.{subst, sym}
use research_os.Common.{
  if◌then◌else◌, Bool, true, false, ◌&&◌, ◌||◌, List, [], ◌∷◌, any, keep, is_empty, ◌≡◌, ◌≢◌, refl,
  ◌↔◌, ◌⊎◌, inl, inr, arith, Every, Some, any_iff, Bool-cases,
}
use research_os.Common.Text.{Text, text_eq, text_eq_iff, text_neq}
use research_os.Research.Candidate.{
  CandidateEvidenceRef, CandidateProposal, CandidateAdmissionContext, diagnostic_claim,
  authorization_differential_claim, state_transition_claim, diagnostic_classification,
  authorization_differential_classification, state_transition_classification, supporting,
}
use research_os.Research.Candidate.Admission.{
  is_in, evidence_codes, is_allowed_classification, cites_claim, expected_claim, is_supporting,
  exceeds,
}

-- An evidence of the context's run and hypothesis.
pub OfContext : CandidateAdmissionContext → CandidateEvidenceRef → Type 0
OfContext c e = (e.research_run_id ≡ c.research_run_id) × (e.hypothesis_id ≡ c.hypothesis_id)

-- The identifier is one of the list.
pub Among : Text → List Text → Type 0
Among id ids = Some (λ i. id ≡ i) ids

-- A cited evidence that makes the claim.
pub Cites : CandidateProposal → CandidateAdmissionContext → Text → Type 0
unfolding Among
Cites p c claim =
    Some (λ e. Among e.evidence_id p.evidence_ids × (claim ≡ e.claim_scope)) c.evidence

-- A cited evidence that supports the proposal's claim.
pub IsSupported : CandidateProposal → CandidateAdmissionContext → Type 0
unfolding Among
IsSupported p c =
    Some
      (λ e.
        Among e.evidence_id p.evidence_ids × (e.polarity ≡ supporting) × (e.claim_scope ≡ p.claim))
      c.evidence

-- The claim is the one claim of its classification.
pub IsClaimOf : Text → Text → Type 0
IsClaimOf claim k =
    ((k ≡ diagnostic_classification) × (claim ≡ diagnostic_claim))
    ⊎ ((k ≡ authorization_differential_classification) × (claim ≡ authorization_differential_claim))
    ⊎ ((k ≡ state_transition_classification) × (claim ≡ state_transition_claim))

pub is_in_iff : (id : Text) (ids : List Text) → (is_in ids id ≡ true) ↔ Among id ids
unfolding Among
is_in_iff id ids = any_iff (λ i. id ≡ i) (text_eq id) (text_eq_iff id) ids

-- Choosing one of three claims by one of three different classifications.
module _ (k claim d a s dc ac sc : Text) (da : d ≢ a) (ds : d ≢ s) (diff : a ≢ s) where
  pick_iff :
      (((text_eq k d || text_eq k a || text_eq k s)
          && text_eq claim (if text_eq k a then ac else if text_eq k s then sc else dc))
        ≡ true)
      ↔ (((k ≡ d) × (claim ≡ dc)) ⊎ ((k ≡ a) × (claim ≡ ac)) ⊎ ((k ≡ s) × (claim ≡ sc)))
  pick_iff =
      let kd = text_eq_iff k d in
      let ka = text_eq_iff k a in
      let ks = text_eq_iff k s in
      let cd = text_eq_iff claim dc in
      let ca = text_eq_iff claim ac in
      let cs = text_eq_iff claim sc in
      (λ h. ground (arith, kd, ka, ks, cd, ca, cs), λ h. ground (arith, kd, ka, ks, cd, ca, cs))

and3_iff :
    {a b c : Bool} {A B C : Type 0}
    → ((a ≡ true) ↔ A)
    → ((b ≡ true) ↔ B)
    → ((c ≡ true) ↔ C)
    → ((a && b && c) ≡ true) ↔ (A × B × C)
and3_iff f g h = (λ t. ground (arith, f, g, h), λ t. ground (arith, f, g, h))

pub claim_iff :
    (claim k : Text)
    → ((is_allowed_classification k && text_eq claim (expected_claim k)) ≡ true) ↔ IsClaimOf claim k
unfolding is_allowed_classification expected_claim IsClaimOf
claim_iff claim k =
    pick_iff k claim diagnostic_classification authorization_differential_classification
      state_transition_classification diagnostic_claim authorization_differential_claim
      state_transition_claim (text_neq _ _ refl) (text_neq _ _ refl) (text_neq _ _ refl)

pub evidence_codes-empty_iff :
    (c : CandidateAdmissionContext) (es : List CandidateEvidenceRef)
    → (is_empty (evidence_codes c es) ≡ true) ↔ Every (OfContext c) es
unfolding evidence_codes OfContext
evidence_codes-empty_iff c [] = (λ h. tt, λ h. refl)
evidence_codes-empty_iff c (e ∷ es) =
    let run = text_eq_iff e.research_run_id c.research_run_id in
    let hypothesis = text_eq_iff e.hypothesis_id c.hypothesis_id in
    let rest = evidence_codes-empty_iff c es in
    (λ h. ground (arith, run, hypothesis, rest), λ h. ground (arith, run, hypothesis, rest))

pub cites_claim_iff :
    (p : CandidateProposal) (c : CandidateAdmissionContext) (claim : Text)
    → (cites_claim p c claim ≡ true) ↔ Cites p c claim
unfolding cites_claim Cites
cites_claim_iff p c claim =
    any_iff _ _
      (λ e.
        let i = is_in_iff e.evidence_id p.evidence_ids in
        let t = text_eq_iff claim e.claim_scope in
        (λ h. ground (arith, i, t), λ h. ground (arith, i, t)))
      c.evidence

pub support_iff :
    (p : CandidateProposal) (c : CandidateAdmissionContext)
    → p.claim ≡ expected_claim p.classification
    → (any (is_supporting p) c.evidence ≡ true) ↔ IsSupported p c
unfolding is_supporting IsSupported
support_iff p c same = any_iff _ _ (λ e. test e) c.evidence
  where
    test :
        (e : CandidateEvidenceRef)
        → (is_supporting p e ≡ true) ↔ (
            Among e.evidence_id p.evidence_ids
            × (e.polarity ≡ supporting)
            × (e.claim_scope ≡ p.claim))
    test e = and3_iff (is_in_iff e.evidence_id p.evidence_ids) (text_eq_iff e.polarity supporting) (
        subst
          (λ t.
            (text_eq e.claim_scope (expected_claim p.classification) ≡ true) ↔ (e.claim_scope ≡ t))
          (sym same) (text_eq_iff _ _))

-- What supports a claim does not fall short of it.
pub exceeds-keep :
    (p : CandidateProposal) (es : List CandidateEvidenceRef)
    → p.claim ≡ expected_claim p.classification
    → exceeds p (keep (is_supporting p) es) ≡ false
unfolding is_supporting
exceeds-keep p [] h = refl
exceeds-keep p (e ∷ es) h = elim (Bool-cases (is_supporting p e)) [
  | inl t ↦ rw t (
      ground (
        arith,
        text_eq_iff p.claim e.claim_scope,
        text_eq_iff e.claim_scope (expected_claim p.classification),
      ))
  | inr f ↦ rw f (exceeds-keep p es h)
]

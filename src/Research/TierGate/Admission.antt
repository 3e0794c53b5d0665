-- ===== src/Research/TierGate/Admission.antt =====
-- What the gate admits, by the tiers up to the required one (research/validation/tier_gate.py).
mod Examples
use mathlib.Core.Path.{subst}
use research_os.Common.{
  ℕ, ◌≤◌, true, some, ok, List, [], ◌∷◌, ◌≡◌, refl, sym, ap, ◌∙◌, ◌↔◌, inl, inr, Every, Some, arith,
  >>=-eq-ok, ok-eq-ok,
}
use research_os.Research.TierGate.{
  ValidationTier, v1, v2, v3, ValidationTierOutcome, ValidationAdmissionDecision, TierArgument,
  OutcomeArgument, required_chain, passed, rejected, inconclusive, queued, coerce_tier, normalize,
  observed, validate_normalized, validate_required_tiers,
}
use research_os.Research.TierGate.Entries.{
  IsTier, LastPassed, coerce_tier-IsTier, observed-LastPassed, LastPassed-observed,
}

-- V1, V2 and V3 in this order
pub rank : ValidationTier → ℕ
rank v1 = 1
rank v2 = 2
rank v3 = 3

validate_normalized-admitted_iff :
    (t : ValidationTier) (normalized : List (ValidationTier × ValidationTierOutcome))
    → ((validate_normalized t normalized).admitted ≡ true)
      ↔ Every (λ tier. observed normalized tier ≡ some passed) (required_chain t)
unfolding validate_normalized
validate_normalized-admitted_iff t normalized = (λ h. ground arith, λ h. ground arith)

validate_normalized-required :
    (t : ValidationTier) (normalized : List (ValidationTier × ValidationTierOutcome))
    → (validate_normalized t normalized).required_tiers ≡ required_chain t
unfolding validate_normalized
validate_normalized-required t normalized = ground arith

-- The chain of a tier holds the tiers up to it, and these only.
up_to :
    (P : ValidationTier → Type 0) (t : ValidationTier)
    → Every P (required_chain t)
    → (u : ValidationTier) → rank u ≤ rank t
    → P u
unfolding rank
up_to P v1 h v1 k = h.0
up_to P v1 h v2 k = absurd (omega arith)
up_to P v1 h v3 k = absurd (omega arith)
up_to P v2 h v1 k = h.0
up_to P v2 h v2 k = h.1.0
up_to P v2 h v3 k = absurd (omega arith)
up_to P v3 h v1 k = h.0
up_to P v3 h v2 k = h.1.0
up_to P v3 h v3 k = h.1.1.0

required_chain-Every :
    (P : ValidationTier → Type 0) (t : ValidationTier)
    → ((u : ValidationTier) → rank u ≤ rank t → P u)
    → Every P (required_chain t)
unfolding rank
required_chain-Every P v1 f = (f v1 (omega arith), tt)
required_chain-Every P v2 f = (f v1 (omega arith), (f v2 (omega arith), tt))
required_chain-Every P v3 f = (f v1 (omega arith), (f v2 (omega arith), (f v3 (omega arith), tt)))

-- Some tier of a list is this one.
pub Holds : ValidationTier → List ValidationTier → Type 0
Holds u ts = Some (λ v. v ≡ u) ts

Holds-rank :
    (P : ValidationTier → Type 0) (ts : List ValidationTier)
    → Every P ts
    → (u : ValidationTier) → Holds u ts
    → P u
unfolding Holds
Holds-rank P [] e u h = absurd h
Holds-rank P (t ∷ ts) e u (inl same) = subst P same e.0
Holds-rank P (t ∷ ts) e u (inr more) = Holds-rank P ts e.1 u more

every_held : (t : ValidationTier) → Every (λ u. Holds u (required_chain t)) (required_chain t)
unfolding Holds
every_held v1 = (inl refl, tt)
every_held v2 = (inl refl, (inr (inl refl), tt))
every_held v3 = (inl refl, (inr (inl refl), (inr (inr (inl refl)), tt)))

chain_iff : (t u : ValidationTier) → Holds u (required_chain t) ↔ (rank u ≤ rank t)
unfolding Holds
chain_iff t u = (
  Holds-rank (λ v. rank v ≤ rank t) (required_chain t)
      (required_chain-Every (λ v. rank v ≤ rank t) t (λ v h. h)) u,
  up_to (λ v. Holds v (required_chain t)) t (every_held t) u,
)

-- When the gate returns, it read the required tier, and it admits exactly if of each tier from V1 to the required one
-- there is an entry, and the last one says that it passed; so a tier that is missing, queued, rejected or inconclusive
-- keeps it shut. The decision names these tiers and no other.
pub validate_required_tiers-admitted_iff :
    (required : TierArgument) (outcomes : List (TierArgument × OutcomeArgument))
    {d : ValidationAdmissionDecision}
    → validate_required_tiers required outcomes ≡ ok d
    → (t : ValidationTier) × IsTier required t
      × ((u : ValidationTier) → Holds u d.required_tiers ↔ (rank u ≤ rank t))
      × ((d.admitted ≡ true) ↔ ((u : ValidationTier) → rank u ≤ rank t → LastPassed u outcomes))
unfolding validate_required_tiers
validate_required_tiers-admitted_iff required outcomes {d = d} h =
    let (t, tier_read, h) = >>=-eq-ok (coerce_tier required) _ h in
    let (normalized, outcomes_read, h) = >>=-eq-ok (normalize outcomes) _ h in
    let same = ok-eq-ok h in
    let gate = validate_normalized-admitted_iff t normalized in
    (
      t,
      (coerce_tier-IsTier required t tier_read t).1 refl,
      λ u.
          subst (λ ts. Holds u ts ↔ (rank u ≤ rank t))
            (sym (validate_normalized-required t normalized) ∙ ap (λ d. d.required_tiers) same)
            (chain_iff t u),
      subst
          (λ d.
            (d.admitted ≡ true) ↔ ((u : ValidationTier) → rank u ≤ rank t → LastPassed u outcomes))
          same
          (
            λ e u k.
                observed-LastPassed outcomes normalized u outcomes_read
                  (up_to (λ v. observed normalized v ≡ some passed) t (gate.0 e) u k),
            λ f. gate.1 (
                required_chain-Every (λ v. observed normalized v ≡ some passed) t
                  (λ u k. LastPassed-observed outcomes normalized u outcomes_read (f u k))),
          ),
    )

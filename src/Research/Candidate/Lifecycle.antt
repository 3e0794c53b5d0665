-- ===== src/Research/Candidate/Lifecycle.antt =====
-- Runs of legal transitions of a candidate (research/candidate.py, `transition_candidate`).
mod Examples
use mathlib.Core.Path.{subst, sym}
use research_os.Common.{
  ℕ, zero, suc, ◌+◌, ◌≤◌, Bool, true, false, Result, ok, err, ◌≡◌, refl, ◌↔◌, ◌⊎◌, inl, inr, arith,
}
use research_os.Research.Candidate.{CandidateState, is_legal, is_terminal, transition_candidate}

-- A run of transitions that each returned their target, with its length.
pub data Run : CandidateState → ℕ → CandidateState → Type 0 where
  rest : {s : CandidateState} → Run s 0 s
  step :
      {s : CandidateState} {n : ℕ} {u : CandidateState} (t : CandidateState)
      → transition_candidate s t ≡ ok t
      → Run t n u
      → Run s (suc n) u

-- The transitions that a state can still make.
abbrev pub left : CandidateState → ℕ
left CandidateState.opened = 2
left CandidateState.verifying = 1
left _ = 0

legal-left : (s t : CandidateState) → transition_candidate s t ≡ ok t → suc (left t) ≤ left s
unfolding transition_candidate
legal-left s t h = ground arith

-- Every legal transition uses up one of the transitions left: two for an open candidate, one once it
-- is being verified, none in a terminal state.
pub Run-left : {s u : CandidateState} {n : ℕ} → Run s n u → (n + left u) ≤ left s
Run-left Run.rest = omega arith
Run-left (Run.step t h r) = omega (arith, legal-left _ t h, Run-left r)

-- A state is not terminal exactly if some transition from it is legal.
pub transition_candidate-is_terminal_iff :
    (s : CandidateState)
    → (is_terminal s ≡ false) ↔ ((t : CandidateState) × (transition_candidate s t ≡ ok t))
unfolding transition_candidate
transition_candidate-is_terminal_iff CandidateState.opened =
    (λ h. (CandidateState.verifying, refl), λ h. refl)
transition_candidate-is_terminal_iff CandidateState.verifying =
    (λ h. (CandidateState.validated, refl), λ h. refl)
transition_candidate-is_terminal_iff s = (λ h. cc, λ (t, h). ground arith)

Run-verdict :
    {s u : CandidateState} {n : ℕ}
    → Run s n u
    → u ≡ CandidateState.validated
    → ((s ≡ CandidateState.opened) × (n ≡ 2))
      ⊎ ((s ≡ CandidateState.verifying) × (n ≡ 1))
      ⊎ ((s ≡ CandidateState.validated) × (n ≡ 0))
unfolding transition_candidate
Run-verdict Run.rest e = inr (inr (e, refl))
Run-verdict (Run.step {s = s} t h r) e = ground (arith, Run-verdict r e)

validated-Run : (n : ℕ) → n ≡ 2 → Run CandidateState.opened n CandidateState.validated
unfolding transition_candidate
validated-Run n e =
    subst (λ n. Run CandidateState.opened n CandidateState.validated) (sym e)
      (Run.step CandidateState.verifying refl (Run.step CandidateState.validated refl Run.rest))

-- An open candidate can be validated in exactly two transitions: such a run exists, and no run of
-- another length ends in VALIDATED.
pub Run-validated_iff : (n : ℕ) → Run CandidateState.opened n CandidateState.validated ↔ (n ≡ 2)
Run-validated_iff n = (λ r. ground (arith, Run-verdict r refl), validated-Run n)

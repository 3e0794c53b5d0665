-- ===== src/Core/ScopeCompiler/Evaluation.antt =====
-- How the compiled rules decide (core/scope_compiler.py).
mod Examples
use mathlib.Core.Path.{subst}
use research_os.Common.{
  ℕ, Bool, true, false, not, ◌&&◌, Option, none, some, List, [], ◌∷◌, any, Every, Some, any_iff,
  any-eq-false_iff, ◌≡◌, refl, sym, eq_of_some-eq, ◌↔◌, ◌⊎◌, arith, if◌then◌else◌,
}
use research_os.Common.Text.{Text}
use research_os.Core.Enums.{ScopeDecision, ScopeRuleEffect, scope_expired}
use research_os.Core.Scope.{ScopeCheck, is_exclusion, is_allow}
use research_os.Core.ScopeCompiler.{
  ScopeCandidate, CompiledScopeRule, CompiledScope, origin_matches, path_matches, is_expired, scan,
  no_matches, or_default, evaluate_path, evaluate_scope_candidate,
}
use research_os.Core.ScopeCompiler.Loop.{
  applies, excludes, allows, lapsed, scan-decision, scan-lapsed,
}

-- The rule's origin and path prefix match the candidate at this path.
pub record Applies (candidate : ScopeCandidate) (path : Text) (r : CompiledScopeRule) : Type 0 where
  pub origin : origin_matches candidate r ≡ true
  pub prefix : path_matches path r.path_prefix ≡ true

-- It applies, and its expiry is not later than `at`.
pub record Lapsed (candidate : ScopeCandidate) (path : Text) (at : ℕ) (r : CompiledScopeRule)
    : Type 0 where
  pub applies_here : Applies candidate path r
  pub expired : is_expired r.expires_at at ≡ true

pub record Excludes (candidate : ScopeCandidate) (path : Text) (r : CompiledScopeRule)
    : Type 0 where
  pub applies_here : Applies candidate path r
  pub out : (r.effect ≡ ScopeRuleEffect.deny) ⊎ (r.effect ≡ ScopeRuleEffect.out_of_scope)

pub record Allows (candidate : ScopeCandidate) (path : Text) (r : CompiledScopeRule) : Type 0 where
  pub applies_here : Applies candidate path r
  pub in_scope : r.effect ≡ ScopeRuleEffect.allow

module _ (candidate : ScopeCandidate) (path : Text) where
  lapsed_iff :
      (at : ℕ) (r : CompiledScopeRule)
      → (lapsed candidate path at r ≡ true) ↔ Lapsed candidate path at r
  unfolding lapsed applies
  lapsed_iff at r = ground arith

  excludes_iff :
      (r : CompiledScopeRule) → (excludes candidate path r ≡ true) ↔ Excludes candidate path r
  unfolding excludes applies
  excludes_iff r = ground arith

  allows_iff : (r : CompiledScopeRule) → (allows candidate path r ≡ true) ↔ Allows candidate path r
  unfolding allows applies
  allows_iff r = ground arith

-- What the rules must do at a path that is in scope.
abbrev pub IsInScope : ScopeCandidate → ℕ → List CompiledScopeRule → Text → Type 0
IsInScope candidate now rules path =
    Every (λ r. ¬ Lapsed candidate path now r) rules
    × Every (λ r. ¬ Excludes candidate path r) rules
    × Some (Allows candidate path) rules

scan-allow_iff :
    (candidate : ScopeCandidate) (path : Text) (now : ℕ) (rules : List CompiledScopeRule)
    → ((scan candidate path now rules no_matches).decision ≡ ScopeDecision.allow)
      ↔ IsInScope candidate now rules path
scan-allow_iff candidate path now rules =
    let d = scan-decision candidate path now rules in
    let l = any-eq-false_iff _ _ (lapsed_iff candidate path now) rules in
    let x = any-eq-false_iff _ _ (excludes_iff candidate path) rules in
    let a = any_iff _ _ (allows_iff candidate path) rules in
    (λ h. ground (arith, d, l, x, a), λ h. ground (arith, d, l, x, a))

evaluate_path-allow_iff :
    (candidate : ScopeCandidate) (scope : CompiledScope) (now : ℕ) (error match_path : Option Text)
    → ((evaluate_path candidate scope now error match_path).decision ≡ ScopeDecision.allow) ↔ (
        (error ≡ none)
        × ((path : Text) × (match_path ≡ some path) × IsInScope candidate now scope.rules path))
unfolding evaluate_path
evaluate_path-allow_iff candidate scope now (some e) match_path = (λ h. cc, λ h. cc h.0)
evaluate_path-allow_iff candidate scope now none none = (λ h. cc, λ (e, (x, p, _)). cc p)
evaluate_path-allow_iff candidate scope now none (some path) =
    let at_path = scan-allow_iff candidate path now scope.rules in
    (
      λ h. (refl, (path, refl, at_path.0 h)),
      λ (e, (x, p, rules)).
          at_path.1 (subst (IsInScope candidate now scope.rules) (sym (eq_of_some-eq p)) rules),
    )

-- A candidate is in scope exactly if it was normalized without error to a path at which no rule
-- that applies has expired, no rule that applies excludes, and some rule that applies allows.
pub evaluate_scope_candidate-allow_iff :
    (candidate : ScopeCandidate) (scope : CompiledScope) (now clock : ℕ)
    → ((evaluate_scope_candidate candidate scope (some now) clock).decision ≡ ScopeDecision.allow)
      ↔ ((candidate.normalization_error ≡ none)
          × ((path : Text) × (candidate.scope_match_path ≡ some path)
              × IsInScope candidate now scope.rules path))
unfolding evaluate_scope_candidate
evaluate_scope_candidate-allow_iff candidate scope now clock =
    evaluate_path-allow_iff candidate scope now candidate.normalization_error
      candidate.scope_match_path

-- Where a rule that applies has expired, the decision is REQUIRE_HUMAN_REVIEW for that reason,
-- also if an exclusion applies that has not expired.
pub evaluate_scope_candidate_expired :
    (candidate : ScopeCandidate) (scope : CompiledScope) (now clock : ℕ) (path : Text)
    → candidate.normalization_error ≡ none
    → candidate.scope_match_path ≡ some path
    → Some (Lapsed candidate path now) scope.rules
    → let check = evaluate_scope_candidate candidate scope (some now) clock in
      (check.decision ≡ ScopeDecision.require_human_review) × (check.reason_code ≡ scope_expired)
unfolding evaluate_scope_candidate
evaluate_scope_candidate_expired candidate scope now clock path e p some_lapsed =
    rw (e, p)
      (scan-lapsed candidate path now scope.rules no_matches
        ((any_iff _ _ (lapsed_iff candidate path now) scope.rules).1 some_lapsed))

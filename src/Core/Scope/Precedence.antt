-- ===== src/Core/Scope/Precedence.antt =====
-- Which rule wins (core/scope.py): exclusions, then ambiguity, then allows, in any order.
mod Examples
use mathlib.Core.List.{Perm, Permᴰ}
use mathlib.Core.List.Perm
use mathlib.Core.Logic.{∥∥₁_elim}
use research_os.Common.{
  Bool, true, false, List, [], ◌∷◌, ◌++◌, any, keep, Every, Some, any_iff, any-eq-false_iff, ◌≡◌,
  refl, ◌↔◌, ◌⊎◌, ◌&&◌, map, arith, ◌∙◌, sym, any-perm, if◌then◌else◌,
}
use research_os.Core.Enums.{ScopeDecision, ScopeRuleEffect, scope_denied}
use research_os.Core.Scope.{
  ScopeRuleMatch, ScopeEvaluationInput, ScopeCheck, check_scope, is_exclusion, is_allow, is_unknown,
}

-- The rule matched and takes the target out of scope.
pub record Excludes (m : ScopeRuleMatch) : Type 0 where
  pub is_matched : m.matched ≡ true
  pub out : (m.effect ≡ ScopeRuleEffect.deny) ⊎ (m.effect ≡ ScopeRuleEffect.out_of_scope)

-- The rule matched and allows the target.
pub record Allows (m : ScopeRuleMatch) : Type 0 where
  pub is_matched : m.matched ≡ true
  pub in_scope : m.effect ≡ ScopeRuleEffect.allow

excludes : ScopeRuleMatch → Bool
excludes m = m.matched && is_exclusion m.effect

allows : ScopeRuleMatch → Bool
allows m = m.matched && is_allow m.effect

excludes_iff : (m : ScopeRuleMatch) → (excludes m ≡ true) ↔ Excludes m
unfolding excludes
excludes_iff m = ground arith

allows_iff : (m : ScopeRuleMatch) → (allows m ≡ true) ↔ Allows m
unfolding allows
allows_iff m = ground arith

-- A test over the matched rules is a test over all rules.
any-keep :
    (p : ScopeRuleMatch → Bool) (ms : List ScopeRuleMatch)
    → any p (keep (λ m. m.matched) ms) ≡ any (λ m. m.matched && p m) ms
any-keep p [] = refl
any-keep p (m ∷ ms) = ground (arith, any-keep p ms)

check_scope-decision :
    (e : ScopeEvaluationInput)
    → (check_scope e).decision ≡ (
        if any excludes e.matches
        then ScopeDecision.deny
        else if e.ambiguous
        then ScopeDecision.require_human_review
        else if any allows e.matches
        then ScopeDecision.allow
        else ScopeDecision.deny)
unfolding check_scope excludes allows
check_scope-decision e = ground (
  arith,
  any-keep (λ m. is_exclusion m.effect) e.matches,
  any-keep (λ m. is_allow m.effect) e.matches,
)

check_scope-denied_iff :
    (e : ScopeEvaluationInput)
    → ((check_scope e).reason_code ≡ scope_denied) ↔ (any excludes e.matches ≡ true)
unfolding check_scope excludes
check_scope-denied_iff e =
    let k = any-keep (λ m. is_exclusion m.effect) e.matches in
    (λ h. ground (arith, k), λ h. ground (arith, k))

-- The target is refused as denied exactly if a matched rule excludes; the decision is
-- REQUIRE_HUMAN_REVIEW exactly if no matched rule excludes and the input is ambiguous, and ALLOW
-- exactly if no matched rule excludes, the input is not ambiguous and a matched rule allows.
pub check_scope_precedence :
    (e : ScopeEvaluationInput)
    → (((check_scope e).reason_code ≡ scope_denied) ↔ Some Excludes e.matches)
      × (((check_scope e).decision ≡ ScopeDecision.require_human_review)
          ↔ (Every (λ m. ¬ Excludes m) e.matches × (e.ambiguous ≡ true)))
      × (((check_scope e).decision ≡ ScopeDecision.allow)
          ↔ (Every (λ m. ¬ Excludes m) e.matches × (e.ambiguous ≡ false) × Some Allows e.matches))
check_scope_precedence e =
    let d = check_scope-decision e in
    let r = check_scope-denied_iff e in
    let x = any_iff Excludes excludes excludes_iff e.matches in
    let n = any-eq-false_iff Excludes excludes excludes_iff e.matches in
    let a = any_iff Allows allows allows_iff e.matches in
    (
      (λ h. ground (arith, r, x), λ h. ground (arith, r, x)),
      (λ h. ground (arith, d, n), λ h. ground (arith, d, n)),
      (λ h. ground (arith, d, n, a), λ h. ground (arith, d, n, a)),
    )

-- Reordering the matches changes neither the decision nor its reason nor its classification.
pub check_scope-perm :
    {ms ns : List ScopeRuleMatch} (b : Bool)
    → Perm ms ns
    → let left = check_scope (record { matches = ms; ambiguous = b }) in
      let right = check_scope (record { matches = ns; ambiguous = b }) in
      (left.decision ≡ right.decision)
      × (left.reason_code ≡ right.reason_code)
      × (left.classification ≡ right.classification)
unfolding check_scope
check_scope-perm {ms} {ns} b h =
    let same = λ (p : ScopeRuleMatch → Bool).
      any-keep p ms ∙ any-perm (λ m. m.matched && p m) h ∙ sym (any-keep p ns) in
    let x = same (λ m. is_exclusion m.effect) in
    let a = same (λ m. is_allow m.effect) in
    let u = same (λ m. is_unknown m.effect) in
    (ground (arith, x, a), ground (arith, x, a, u), ground (arith, x, a, u))

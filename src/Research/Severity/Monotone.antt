-- ===== src/Research/Severity/Monotone.antt =====
-- More impact never lowers a severity (research/validation/severity.py).
mod Examples
use mathlib.Core.List.{Perm}
use mathlib.Core.Option
use research_os.Common.{
  ℕ, ◌≤◌, Bool, true, false, Option, none, some, List, [], ◌∷◌, ◌++◌, ◌||◌, not, any, is_empty, ◌≡◌,
  refl, ◌↔◌, arith, any-append, any-perm,
}
use research_os.Research.Severity.{
  ImpactKind, InternalSeverity, ValidationState, ScopeState, SeverityInput, SeverityResult, scored,
  p0, p1, p2, p3, platform_mapping_of, classify_severity, score_impact, has_kind, same_kind,
  is_terminal_impact, is_high_impact, account_takeover_path, auth_bypass, data_write,
  state_corruption, data_read, score, unscored, passed, in_scope,
}

-- How severe: P0 is the worst.
pub weight : Option InternalSeverity → ℕ
weight none = 0
weight (some p3) = 1
weight (some p2) = 2
weight (some p1) = 3
weight (some p0) = 4

abbrev pub with_kinds : SeverityInput → List ImpactKind → SeverityInput
with_kinds s kinds = record {
  validation_state = s.validation_state;
  scope_state = s.scope_state;
  impact_kinds = kinds;
  data_sensitivity = s.data_sensitivity;
  affected_scope = s.affected_scope;
}

-- A severity is given exactly to an impact whose validation passed and that is in scope, and the
-- platforms' severity is the one of the given severity.
pub classify_severity-scored_iff :
    (s : SeverityInput)
    → ((scored (classify_severity s) ≡ true)
        ↔ ((s.validation_state ≡ passed) × (s.scope_state ≡ in_scope)))
      × ((classify_severity s).platform_mapping
          ≡ Option.map platform_mapping_of (classify_severity s).severity)
unfolding classify_severity score_impact score unscored
classify_severity-scored_iff s = ((λ h. ground arith, λ h. ground arith), ground arith)

has_kind-more :
    (k : ImpactKind) (kinds more wider : List ImpactKind)
    → Perm wider (more ++ kinds)
    → has_kind k kinds ≡ true
    → has_kind k wider ≡ true
has_kind-more k kinds more wider h e =
    ground (arith, any-perm (same_kind k) h, any-append (same_kind k) more kinds)

empty-any : (kinds : List ImpactKind) → any (λ k. true) kinds ≡ not (is_empty kinds)
empty-any [] = refl
empty-any (k ∷ kinds) = refl

is_empty-more :
    (kinds more wider : List ImpactKind)
    → Perm wider (more ++ kinds)
    → is_empty wider ≡ true
    → is_empty kinds ≡ true
is_empty-more kinds more wider h e = ground (
  arith,
  empty-any kinds,
  empty-any wider,
  any-perm (λ k. true) h,
  any-append (λ k. true) more kinds,
)

or_first :
    (a b x y z : Bool)
    → (a ≡ true → b ≡ true)
    → (a || x || y || z) ≡ true
    → (b || x || y || z) ≡ true
or_first a b x y z f h = ground (arith, f)

terminal-more :
    (s : SeverityInput) (more wider : List ImpactKind)
    → Perm wider (more ++ s.impact_kinds)
    → is_terminal_impact s ≡ true
    → is_terminal_impact (with_kinds s wider) ≡ true
unfolding is_terminal_impact
terminal-more s more wider h =
    or_first _ _ _ _ _ (has_kind-more account_takeover_path s.impact_kinds more wider h)

or_three :
    (a b c d e f r : Bool)
    → (a ≡ true → d ≡ true)
    → (b ≡ true → e ≡ true)
    → (c ≡ true → f ≡ true)
    → (a || b || c || r) ≡ true
    → (d || e || f || r) ≡ true
or_three a b c d e f r x y z h = ground (arith, x, y, z)

high-more :
    (s : SeverityInput) (more wider : List ImpactKind)
    → Perm wider (more ++ s.impact_kinds)
    → is_high_impact s ≡ true
    → is_high_impact (with_kinds s wider) ≡ true
unfolding is_high_impact
high-more s more wider h =
    or_three _ _ _ _ _ _ _ (has_kind-more auth_bypass s.impact_kinds more wider h)
      (has_kind-more data_write s.impact_kinds more wider h)
      (has_kind-more state_corruption s.impact_kinds more wider h)

score_impact-more :
    (s : SeverityInput) (more wider : List ImpactKind)
    → Perm wider (more ++ s.impact_kinds)
    → weight (score_impact s).severity ≤ weight (score_impact (with_kinds s wider)).severity
unfolding score_impact score weight
score_impact-more s more wider h = ground (
  arith,
  is_empty-more s.impact_kinds more wider h,
  terminal-more s more wider h,
  high-more s more wider h,
  has_kind-more data_read s.impact_kinds more wider h,
)

-- A signal whose impact kinds are, in any order, those of another signal and some more, with the same
-- states, sensitivity and scope, is classified at least as severe.
pub classify_severity-monotone :
    (s : SeverityInput) (more wider : List ImpactKind)
    → Perm wider (more ++ s.impact_kinds)
    → weight (classify_severity s).severity
      ≤ weight (classify_severity (with_kinds s wider)).severity
unfolding classify_severity unscored weight
classify_severity-monotone s more wider h = ground (arith, score_impact-more s more wider h)

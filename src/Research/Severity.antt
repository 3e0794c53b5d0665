-- ===== src/Research/Severity.antt =====
-- research/validation/severity.py, and the kinds of research/impact/types.py: the severity of a
-- validated impact.
pub mod Monotone
use research_os.Common.{
  Bool, true, false, not, ◌||◌, Option, none, some, Result, ok, err, List, [], ◌∷◌, any, is_empty,
  is_some, ◌>>=◌, if◌then◌else◌,
}
use research_os.Common.Text.{Text, codes, text_eq}
use research_os.Research.Errors.{ResearchError, research_input_error}

pub data ImpactKind : Type 0 where
  data_read data_write auth_bypass state_corruption : ImpactKind
  account_takeover_path external_callback : ImpactKind

pub data InternalSeverity : Type 0 where
  p0 p1 p2 p3 : InternalSeverity

pub data ValidationState : Type 0 where
  passed not_passed : ValidationState

pub data ScopeState : Type 0 where
  in_scope not_in_scope : ScopeState

-- A value of an enumeration, or a text that names one.
pub data Argument (A : Type 0) : Type 0 where
  member : A → Argument A
  named : Text → Argument A

pub record PlatformSeverityMapping : Type 0 where
  pub internal : InternalSeverity
  pub bugcrowd_priority : Text
  pub hackerone_severity : Text
  pub vrt_category : Text

pub record SeverityInput : Type 0 where
  pub validation_state : ValidationState
  pub scope_state : ScopeState
  pub impact_kinds : List ImpactKind
  pub data_sensitivity : Text
  pub affected_scope : Text

coerce_validation : Argument ValidationState → Result ResearchError ValidationState
coerce_validation (Argument.member v) = ok v
coerce_validation (Argument.named s) =
    if text_eq s (codes "PASSED")
    then ok passed
    else if text_eq s (codes "NOT_PASSED")
    then ok not_passed
    else err research_input_error

coerce_scope : Argument ScopeState → Result ResearchError ScopeState
coerce_scope (Argument.member v) = ok v
coerce_scope (Argument.named s) =
    if text_eq s (codes "IN_SCOPE")
    then ok in_scope
    else if text_eq s (codes "NOT_IN_SCOPE")
    then ok not_in_scope
    else err research_input_error

coerce_impact_kind : Argument ImpactKind → Result ResearchError ImpactKind
coerce_impact_kind (Argument.member v) = ok v
coerce_impact_kind (Argument.named s) =
    if text_eq s (codes "DATA_READ")
    then ok data_read
    else if text_eq s (codes "DATA_WRITE")
    then ok data_write
    else if text_eq s (codes "AUTH_BYPASS")
    then ok auth_bypass
    else if text_eq s (codes "STATE_CORRUPTION")
    then ok state_corruption
    else if text_eq s (codes "ACCOUNT_TAKEOVER_PATH")
    then ok account_takeover_path
    else if text_eq s (codes "EXTERNAL_CALLBACK")
    then ok external_callback
    else err research_input_error

coerce_impact_kinds : List (Argument ImpactKind) → Result ResearchError (List ImpactKind)
unfolding coerce_impact_kind
coerce_impact_kinds [] = ok []
coerce_impact_kinds (item ∷ items) = do
  kind ← coerce_impact_kind item
  rest ← coerce_impact_kinds items
  ok (kind ∷ rest)

pub is_one_of : List Text → Text → Bool
is_one_of choices value = any (text_eq value) choices

require_choice : List Text → Text → Result ResearchError Text
unfolding is_one_of
require_choice allowed value =
    if is_one_of allowed value then ok value else err research_input_error

-- `SeverityInput.__post_init__`
pub new_severity_input :
    Argument ValidationState
    → Argument ScopeState
    → List (Argument ImpactKind)
    → Text
    → Text
    → Result ResearchError SeverityInput
unfolding coerce_validation coerce_scope coerce_impact_kinds require_choice
new_severity_input validation scope kinds sensitivity affected = do
  v ← coerce_validation validation
  s ← coerce_scope scope
  k ← coerce_impact_kinds kinds
  d ←
      require_choice (codes "NONE" ∷ codes "LOW" ∷ codes "SENSITIVE" ∷ codes "BULK_SENSITIVE" ∷ [])
        sensitivity
  a ←
      require_choice
        (codes "SINGLE_USER" ∷ codes "MULTI_USER" ∷ codes "ADMIN" ∷ codes "INFRASTRUCTURE" ∷ [])
        affected
  ok (record {
    validation_state = v;
    scope_state = s;
    impact_kinds = k;
    data_sensitivity = d;
    affected_scope = a;
  })

-- The reason codes of the source, one constructor for each text.
pub data SeverityCode : Type 0 where
  severity_rejected_validation_not_passed severity_rejected_not_in_scope : SeverityCode
  no_demonstrated_impact terminal_or_bulk_impact high_value_auth_or_write_impact : SeverityCode
  bounded_data_read_impact low_or_external_callback_only_impact : SeverityCode

pub record SeverityResult : Type 0 where
  pub severity : Option InternalSeverity
  pub platform_mapping : Option PlatformSeverityMapping
  pub reason_codes : List SeverityCode

-- `SeverityResult.scored`
abbrev pub scored : SeverityResult → Bool
scored r = is_some r.severity

pub platform_mapping_of : InternalSeverity → PlatformSeverityMapping
platform_mapping_of p0 = record {
  internal = p0;
  bugcrowd_priority = codes "P1";
  hackerone_severity = codes "Critical";
  vrt_category = codes "Server Security Misconfiguration / Privilege Escalation";
}
platform_mapping_of p1 = record {
  internal = p1;
  bugcrowd_priority = codes "P2";
  hackerone_severity = codes "High";
  vrt_category = codes "Broken Access Control";
}
platform_mapping_of p2 = record {
  internal = p2;
  bugcrowd_priority = codes "P3";
  hackerone_severity = codes "Medium";
  vrt_category = codes "Sensitive Data Exposure";
}
platform_mapping_of p3 = record {
  internal = p3;
  bugcrowd_priority = codes "P4";
  hackerone_severity = codes "Low";
  vrt_category = codes "Low Impact Security Weakness";
}

abbrev pub same_kind : ImpactKind → ImpactKind → Bool
same_kind data_read data_read = true
same_kind data_write data_write = true
same_kind auth_bypass auth_bypass = true
same_kind state_corruption state_corruption = true
same_kind account_takeover_path account_takeover_path = true
same_kind external_callback external_callback = true
same_kind _ _ = false

-- `kind.value in impact_values`
abbrev pub has_kind : ImpactKind → List ImpactKind → Bool
has_kind kind kinds = any (same_kind kind) kinds

pub is_terminal_impact : SeverityInput → Bool
is_terminal_impact signal =
    has_kind account_takeover_path signal.impact_kinds
    || text_eq signal.affected_scope (codes "ADMIN")
    || text_eq signal.affected_scope (codes "INFRASTRUCTURE")
    || text_eq signal.data_sensitivity (codes "BULK_SENSITIVE")

pub is_high_impact : SeverityInput → Bool
is_high_impact signal =
    has_kind auth_bypass signal.impact_kinds
    || has_kind data_write signal.impact_kinds
    || has_kind state_corruption signal.impact_kinds
    || text_eq signal.data_sensitivity (codes "SENSITIVE")

pub unscored : SeverityCode → SeverityResult
unscored code = record { severity = none; platform_mapping = none; reason_codes = code ∷ [] }

pub score : InternalSeverity → SeverityCode → SeverityResult
unfolding platform_mapping_of
score s code = record {
  severity = some s;
  platform_mapping = some (platform_mapping_of s);
  reason_codes = code ∷ [];
}

pub score_impact : SeverityInput → SeverityResult
unfolding is_terminal_impact is_high_impact score
score_impact signal =
    if is_empty signal.impact_kinds
    then score p3 no_demonstrated_impact
    else if is_terminal_impact signal
    then score p0 terminal_or_bulk_impact
    else if is_high_impact signal
    then score p1 high_value_auth_or_write_impact
    else if has_kind data_read signal.impact_kinds
    then score p2 bounded_data_read_impact
    else score p3 low_or_external_callback_only_impact

pub classify_severity : SeverityInput → SeverityResult
unfolding unscored score_impact
classify_severity signal = elim signal.validation_state [
  | passed ↦ elim signal.scope_state [
    | in_scope ↦ score_impact signal
    | not_in_scope ↦ unscored severity_rejected_not_in_scope
  ]
  | not_passed ↦ unscored severity_rejected_validation_not_passed
]

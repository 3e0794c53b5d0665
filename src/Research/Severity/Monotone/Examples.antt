-- ===== src/Research/Severity/Monotone/Examples.antt =====
-- A read that turns out to be a bypass too.
use mathlib.Core.List.Perm
use research_os.Common.{◌≤◌, [], ◌∷◌}
use research_os.Common.Text.{codes}
use research_os.Research.Severity.{
  SeverityInput, classify_severity, score_impact, score, is_terminal_impact, is_high_impact,
  data_read, auth_bypass, passed, in_scope,
}
use research_os.Research.Severity.Monotone.{weight, classify_severity-monotone}

abbrev read : SeverityInput
read = record {
  validation_state = passed;
  scope_state = in_scope;
  impact_kinds = data_read ∷ [];
  data_sensitivity = codes "LOW";
  affected_scope = codes "MULTI_USER";
}

classify_severity-monotone_example : 2 ≤ 3
unfolding weight classify_severity score_impact score is_terminal_impact is_high_impact
classify_severity-monotone_example =
    classify_severity-monotone read (auth_bypass ∷ []) (auth_bypass ∷ data_read ∷ []) (Perm.refl _)

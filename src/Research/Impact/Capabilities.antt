-- ===== src/Research/Impact/Capabilities.antt =====
-- research/impact/capability_map.py: the kinds of impact that demonstrated capabilities allow. A set
-- is the list of its elements.
pub mod Demonstrated
use mathlib.Core.Path.{◌∙◌, sym, ap}
use research_os.Common.{
  Bool, true, false, ◌&&◌, ◌||◌, List, [], ◌∷◌, ◌++◌, any, all, if◌then◌else◌, ◌≡◌, refl, ◌↔◌,
  arith, any-append, Bool-cases,
}
use research_os.Common.Text.{Text, codes, text_eq, text_eq_iff}
use research_os.Research.Severity.{
  ImpactKind, data_read, data_write, auth_bypass, state_corruption, account_takeover_path,
  external_callback,
}
use research_os.Research.Impact.Cycle.{is_in}
use research_os.Research.Impact.Kinds.{impact_value}

-- `DEMONSTRATED_CAPABILITY_TO_IMPACT_KIND`
abbrev pub demonstrated_capability_to_impact_kind : List (Text × List Text)
demonstrated_capability_to_impact_kind =
    (codes "READ_OTHER_OBJECT", codes "DATA_READ" ∷ codes "AUTH_BYPASS" ∷ [])
    ∷ (
      codes "WORKFLOW_TRANSITION_WITHOUT_AUTH",
      codes "STATE_CORRUPTION" ∷ codes "AUTH_BYPASS" ∷ [],
    )
    ∷ (codes "OAST_CALLBACK_RECEIVED", codes "EXTERNAL_CALLBACK" ∷ [])
    ∷ (codes "AUTHENTICATED_AS_USER", codes "AUTH_BYPASS" ∷ [])
    ∷ (codes "PRIVILEGE_ESCALATION_EVIDENCE", codes "AUTH_BYPASS" ∷ [])
    ∷ (codes "WRITE_OTHER_OBJECT", codes "DATA_WRITE" ∷ codes "STATE_CORRUPTION" ∷ [])
    ∷ (codes "CROSS_ACCOUNT_SESSION_ASSUMPTION", [])
    ∷ []

-- `COMPOSITE_CAPABILITY_REQUIREMENTS`
abbrev pub composite_capability_requirements : List (Text × List (List Text))
composite_capability_requirements =
    (
      codes "ACCOUNT_TAKEOVER_PATH",
      (codes "AUTHENTICATED_AS_USER" ∷ codes "PRIVILEGE_ESCALATION_EVIDENCE" ∷ [])
          ∷ (codes "AUTHENTICATED_AS_USER" ∷ codes "CROSS_ACCOUNT_SESSION_ASSUMPTION" ∷ [])
          ∷ [],
    )
    ∷ []

-- `table.get(capability, frozenset())`
unfoldable pub kinds_of : List (Text × List Text) → Text → List Text
kinds_of [] capability = []
kinds_of ((key, kinds) ∷ table) capability =
    if text_eq key capability then kinds else kinds_of table capability

-- The loop over the capabilities, which collects their kinds.
unfoldable pub single_kinds : List (Text × List Text) → List Text → List Text
unfolding kinds_of
single_kinds table [] = []
single_kinds table (capability ∷ capabilities) =
    kinds_of table capability ++ single_kinds table capabilities

-- `required_set.issubset(capabilities)`
abbrev pub is_subset : List Text → List Text → Bool
is_subset required capabilities = all (is_in capabilities) required

-- The loop over the kinds that need several capabilities.
unfoldable pub composite_kinds : List (Text × List (List Text)) → List Text → List Text
composite_kinds [] capabilities = []
composite_kinds ((kind, options) ∷ table) capabilities =
    let rest = composite_kinds table capabilities in
    if any (λ required. is_subset required capabilities) options then kind ∷ rest else rest

-- `_allowed_kinds`
unfoldable pub allowed_kinds : List Text → List Text
unfolding single_kinds composite_kinds
allowed_kinds capabilities =
    single_kinds demonstrated_capability_to_impact_kind capabilities
    ++ composite_kinds composite_capability_requirements capabilities

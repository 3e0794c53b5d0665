-- ===== src/Core/Capability.antt =====
-- core/capability.py: a claim of a capability, checked against the registry.
pub mod Binding
use research_os.Common.{
  ℕ, Bool, true, false, not, ℤ, pos, negsuc, Option, none, some, Result, ok, err, any, ltb, leb,
  ◌==◌, ◌>>=◌, ◌>>◌, if◌then◌else◌,
}
use research_os.Common.Text.{Text, text_eq}
use research_os.Tools.Registry
use research_os.Tools.Registry.{
  CapabilityActionDefinition, CapabilityDefinition, CapabilityRegistry, worker_executor_class,
}
use research_os.Tools.Allowlist.{
  IntegrationAllowlistEntry, integration_capability_ids, lookup_integration_capability,
}
use research_os.Core.Enums.{
  ReasonCode, SideEffectLevel, level_value, CoreError, core_input_error, allowed,
  capability_authorization_missing, unknown_capability, unknown_action,
  unsupported_capability_version, definition_fingerprint_mismatch, risk_understatement,
  risk_exceeds_capability, side_effect_binding_mismatch,
}
use research_os.Core.Identity.{require_opaque_id}

pub record CapabilityAuthorizationView : Type 0 where
  pub capability_id : Text
  pub action : Text
  pub capability_version : Text
  pub definition_fingerprint : Text
  pub authoritative_minimum_side_effect : ℕ
  pub effective_side_effect : ℕ

-- `value not in (0, 1, 2, 3)`
side_effect_in_range : ℤ → Result CoreError ℕ
side_effect_in_range (pos n) = if leb n 3 then ok n else err core_input_error
side_effect_in_range (negsuc n) = err core_input_error

-- `CapabilityAuthorizationView.__post_init__`
pub new_capability_authorization_view :
    Text → Text → Text → Text → ℤ → ℤ → Result CoreError CapabilityAuthorizationView
unfolding side_effect_in_range
new_capability_authorization_view capability_id action version fingerprint minimum effective = do
  require_opaque_id capability_id
  require_opaque_id action
  require_opaque_id version
  require_opaque_id fingerprint
  m ← side_effect_in_range minimum
  e ← side_effect_in_range effective
  ok (record {
    capability_id = capability_id;
    action = action;
    capability_version = version;
    definition_fingerprint = fingerprint;
    authoritative_minimum_side_effect = m;
    effective_side_effect = e;
  })

pub record CapabilityAuthorizationCheck : Type 0 where
  pub allowed_to_continue : Bool
  pub reason_code : ReasonCode

abbrev refuse : ReasonCode → CapabilityAuthorizationCheck
refuse reason = record { allowed_to_continue = false; reason_code = reason }

-- The tests of the claimed levels, which the Worker path and the allowlist path share word for word.
check_levels : CapabilityAuthorizationView → ℕ → ℕ → SideEffectLevel → CapabilityAuthorizationCheck
check_levels view minimum maximum request =
    if not (view.authoritative_minimum_side_effect == minimum)
    then refuse risk_understatement
    else if ltb view.effective_side_effect minimum
    then refuse risk_understatement
    else if ltb maximum view.effective_side_effect
    then refuse risk_exceeds_capability
    else if not (level_value request == view.effective_side_effect)
    then refuse side_effect_binding_mismatch
    else record { allowed_to_continue = true; reason_code = allowed }

check_entry :
    CapabilityAuthorizationView
    → SideEffectLevel
    → Option IntegrationAllowlistEntry
    → CapabilityAuthorizationCheck
check_entry view request none =
    if any (text_eq view.capability_id) integration_capability_ids
    then refuse unknown_action
    else refuse unknown_capability
check_entry view request (some entry) =
    check_levels view entry.minimum_side_effect_level entry.maximum_side_effect_level request

check_integration_allowlist :
    CapabilityAuthorizationView → SideEffectLevel → CapabilityAuthorizationCheck
check_integration_allowlist view request =
    check_entry view request (lookup_integration_capability view.capability_id view.action)

check_action :
    CapabilityAuthorizationView
    → SideEffectLevel
    → CapabilityDefinition
    → Option CapabilityActionDefinition
    → CapabilityAuthorizationCheck
check_action view request definition none = refuse unknown_action
check_action view request definition (some act) =
    if not (text_eq view.capability_version definition.version)
    then refuse unsupported_capability_version
    else if not (text_eq view.definition_fingerprint definition.definition_fingerprint)
    then refuse definition_fingerprint_mismatch
    else check_levels view act.minimum_side_effect_level act.maximum_side_effect_level request

check_definition :
    CapabilityAuthorizationView
    → SideEffectLevel
    → Option CapabilityDefinition
    → CapabilityAuthorizationCheck
check_definition view request none = check_integration_allowlist view request
check_definition view request (some definition) =
    if not (text_eq definition.executor_class worker_executor_class)
    then refuse unknown_capability
    else check_action view request definition (Registry.action definition view.action)

abbrev pub or_loaded : Option CapabilityRegistry → CapabilityRegistry → CapabilityRegistry
or_loaded none loaded = loaded
or_loaded (some registry) loaded = registry

-- `loaded` is what `load_capability_registry()` reads from the packaged documents.
unfoldable pub check_capability_authorization :
    CapabilityRegistry
    → Option CapabilityRegistry
    → Option CapabilityAuthorizationView
    → SideEffectLevel
    → CapabilityAuthorizationCheck
unfolding check_definition check_action check_integration_allowlist check_entry check_levels
    integration_capability_ids lookup_integration_capability Registry.get Registry.action
check_capability_authorization loaded registry none request =
    refuse capability_authorization_missing
check_capability_authorization loaded registry (some view) request =
    check_definition view request (Registry.get (or_loaded registry loaded) view.capability_id)

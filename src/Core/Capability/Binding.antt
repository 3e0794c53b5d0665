-- ===== src/Core/Capability/Binding.antt =====
-- Which capability claims the registry upholds (core/capability.py).
mod Examples
use mathlib.Core.Path.{subst}
use research_os.Common.{
  ℕ, ◌≤◌, Bool, true, false, Option, none, some, ◌≡◌, refl, sym, ◌↔◌, ◌⊎◌, inl, inr, arith,
  eq_of_some-eq,
}
use research_os.Common.Text.{Text, text_eq_iff}
use research_os.Tools.Registry
use research_os.Tools.Registry.{
  CapabilityActionDefinition, CapabilityDefinition, CapabilityRegistry, worker_executor_class,
}
use research_os.Tools.Allowlist.{IntegrationAllowlistEntry, lookup_integration_capability}
use research_os.Core.Enums.{SideEffectLevel, level_value}
use research_os.Core.Capability.{
  CapabilityAuthorizationView, check_levels, check_entry, check_integration_allowlist, check_action,
  check_definition, or_loaded, check_capability_authorization,
}

-- The claim states the policy's minimum, the claimed effect lies in the policy's range, and it is
-- the effect of the request.
pub record HasLevels (view : CapabilityAuthorizationView) (minimum maximum : ℕ)
    (request : SideEffectLevel) : Type 0 where
  pub claims_minimum : view.authoritative_minimum_side_effect ≡ minimum
  pub not_understated : minimum ≤ view.effective_side_effect
  pub not_exceeded : view.effective_side_effect ≤ maximum
  pub bound : level_value request ≡ view.effective_side_effect

check_levels_iff :
    (view : CapabilityAuthorizationView) (minimum maximum : ℕ) (request : SideEffectLevel)
    → ((check_levels view minimum maximum request).allowed_to_continue ≡ true)
      ↔ HasLevels view minimum maximum request
unfolding check_levels
check_levels_iff view minimum maximum request = (λ h. ground arith, λ h. ground arith)

-- A Worker definition of the claimed capability, action, version and fingerprint.
pub record UpheldBy (view : CapabilityAuthorizationView) (request : SideEffectLevel)
    (definition : CapabilityDefinition) : Type 0 where
  pub worker : definition.executor_class ≡ worker_executor_class
  pub act : CapabilityActionDefinition
  pub declared : Registry.action definition view.action ≡ some act
  pub same_version : view.capability_version ≡ definition.version
  pub same_fingerprint : view.definition_fingerprint ≡ definition.definition_fingerprint
  pub levels : HasLevels view act.minimum_side_effect_level act.maximum_side_effect_level request

-- An entry of the allowlist for the claimed capability and action.
pub record AllowlistedAs (view : CapabilityAuthorizationView) (request : SideEffectLevel)
    (entry : IntegrationAllowlistEntry) : Type 0 where
  pub listed : lookup_integration_capability view.capability_id view.action ≡ some entry
  pub levels :
      HasLevels view entry.minimum_side_effect_level entry.maximum_side_effect_level request

module _ (view : CapabilityAuthorizationView) (request : SideEffectLevel) where
  check_action_iff :
      (definition : CapabilityDefinition) (found : Option CapabilityActionDefinition)
      → ((check_action view request definition found).allowed_to_continue ≡ true) ↔ (
          (act : CapabilityActionDefinition) × (found ≡ some act)
          × (view.capability_version ≡ definition.version)
          × (view.definition_fingerprint ≡ definition.definition_fingerprint)
          × HasLevels view act.minimum_side_effect_level act.maximum_side_effect_level request)
  unfolding check_action
  check_action_iff definition none = (λ h. cc, λ (a, e, v, f, l). cc e)
  check_action_iff definition (some act) =
      let v = text_eq_iff view.capability_version definition.version in
      let f = text_eq_iff view.definition_fingerprint definition.definition_fingerprint in
      let l =
        check_levels_iff view act.minimum_side_effect_level act.maximum_side_effect_level request in
      (
        λ h. (act, refl, ground (arith, v, f, l), ground (arith, v, f, l), ground (arith, v, f, l)),
        λ (a, e, same_v, same_f, levels).
            let l' =
              check_levels_iff view a.minimum_side_effect_level a.maximum_side_effect_level
                request in
            rw (eq_of_some-eq e) (ground (arith, v, f, l', levels)),
      )

  check_entry_iff :
      (found : Option IntegrationAllowlistEntry)
      → ((check_entry view request found).allowed_to_continue ≡ true) ↔ (
          (entry : IntegrationAllowlistEntry) × (found ≡ some entry)
          × HasLevels view entry.minimum_side_effect_level entry.maximum_side_effect_level request)
  unfolding check_entry
  check_entry_iff none = (λ h. ground arith, λ (a, e, _). cc e)
  check_entry_iff (some entry) =
      let l =
        check_levels_iff view entry.minimum_side_effect_level entry.maximum_side_effect_level
          request in
      (
        λ h. (entry, refl, l.0 h),
        λ (a, e, levels). rw (eq_of_some-eq e) (
            (check_levels_iff view a.minimum_side_effect_level a.maximum_side_effect_level
                request).1
              levels),
      )

  check_definition_iff :
      (found : Option CapabilityDefinition)
      → ((check_definition view request found).allowed_to_continue ≡ true) ↔ (
          ((definition : CapabilityDefinition) × (found ≡ some definition)
            × UpheldBy view request definition)
          ⊎ ((found ≡ none)
              × ((entry : IntegrationAllowlistEntry) × AllowlistedAs view request entry)))
  unfolding check_definition check_integration_allowlist
  check_definition_iff none =
      let i = check_entry_iff (lookup_integration_capability view.capability_id view.action) in
      (
        λ h. let (entry, e, l) = i.0 h in inr (refl, (entry, record { listed = e; levels = l })),
        λ way. elim way [
          | inl (d, e, _) ↦ cc e
          | inr (_, (entry, a)) ↦ i.1 (entry, a.listed, a.levels)
        ],
      )
  check_definition_iff (some definition) =
      let w = text_eq_iff definition.executor_class worker_executor_class in
      let i = check_action_iff definition (Registry.action definition view.action) in
      (
        λ h.
            let worker : definition.executor_class ≡ worker_executor_class = ground (arith, w) in
            let (act, e, v, f, l) = i.0 (rw (w.1 worker) at h) in
            inl (
              definition,
              refl,
              record {
                worker = worker;
                act = act;
                declared = e;
                same_version = v;
                same_fingerprint = f;
                levels = l;
              },
            ),
        λ way. elim way [
          | inl (d, e, u) ↦
              let here = subst (UpheldBy view request) (sym (eq_of_some-eq e)) u in
              rw (w.1 here.worker) (
                i.1
                  (here.act, here.declared, here.same_version, here.same_fingerprint, here.levels))
          | inr (e, _) ↦ cc e
        ],
      )

-- A claim is upheld exactly if the registry (the given one, or the packaged one where none is given)
-- has a Worker definition of the claimed capability, action, version and fingerprint in whose range
-- the claimed effect lies, or has no definition of it and the allowlist has an entry in whose range
-- it lies; in both cases the claim states the policy's own minimum, and the claimed effect is that
-- of the request.
pub check_capability_authorization_iff :
    (loaded : CapabilityRegistry) (registry : Option CapabilityRegistry)
    (view : CapabilityAuthorizationView) (request : SideEffectLevel)
    → let found = Registry.get (or_loaded registry loaded) view.capability_id in
      ((check_capability_authorization loaded registry (some view) request).allowed_to_continue
        ≡ true)
      ↔ (((definition : CapabilityDefinition) × (found ≡ some definition)
            × UpheldBy view request definition)
          ⊎ ((found ≡ none)
              × ((entry : IntegrationAllowlistEntry) × AllowlistedAs view request entry)))
unfolding check_capability_authorization
check_capability_authorization_iff loaded registry view request =
    check_definition_iff view request (Registry.get (or_loaded registry loaded) view.capability_id)

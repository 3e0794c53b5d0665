-- ===== src/Core/Capability/Binding/Examples.antt =====
-- The echo capability as a Worker definition, and a claim of it.
use research_os.Common.{true, none, some, [], ◌∷◌, ◌≡◌, ◌↔◌, ◌⊎◌}
use research_os.Common.Text.{codes}
use research_os.Common.Json
use research_os.Tools.Registry
use research_os.Tools.Registry.{
  CapabilityActionDefinition, CapabilityDefinition, CapabilityRegistry,
}
use research_os.Tools.Allowlist.{IntegrationAllowlistEntry}
use research_os.Core.Enums.{level_0}
use research_os.Core.Capability.{CapabilityAuthorizationView, check_capability_authorization}
use research_os.Core.Capability.Binding.{
  UpheldBy, AllowlistedAs, check_capability_authorization_iff,
}

abbrev echo : CapabilityActionDefinition
echo = record {
  action_id = codes "echo";
  argument_schema = Json.end;
  result_schema = Json.end;
  minimum_side_effect_level = 0;
  maximum_side_effect_level = 1;
  target_types = codes "diagnostic" ∷ [];
  network_policy = none;
  requirements = [];
  supports_reproduction = true;
  supports_negative_control = true;
  normalizer_reference = none;
}

abbrev packaged : CapabilityRegistry
packaged = record {
  definitions =
      (
        codes "diagnostic.echo",
        record {
          capability_id = codes "diagnostic.echo";
          version = codes "1";
          implementation_reference = codes "worker.echo";
          executor_class = codes "WORKER";
          actions = (codes "echo", echo) ∷ [];
          definition_fingerprint = codes "f";
        },
      )
      ∷ [];
}

abbrev claim : CapabilityAuthorizationView
claim = record {
  capability_id = codes "diagnostic.echo";
  action = codes "echo";
  capability_version = codes "1";
  definition_fingerprint = codes "f";
  authoritative_minimum_side_effect = 0;
  effective_side_effect = 0;
}

check_capability_authorization_iff_example :
    let found = Registry.get packaged claim.capability_id in
    ((check_capability_authorization packaged none (some claim) level_0).allowed_to_continue ≡ true)
    ↔ (((definition : CapabilityDefinition) × (found ≡ some definition)
          × UpheldBy claim level_0 definition)
        ⊎ ((found ≡ none)
            × ((entry : IntegrationAllowlistEntry) × AllowlistedAs claim level_0 entry)))
check_capability_authorization_iff_example =
    check_capability_authorization_iff packaged none claim level_0

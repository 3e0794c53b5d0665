-- ===== src/Tools/Registry.antt =====
-- tools/registry.py: the capability definitions and their lookup. A dict is the list of its
-- entries; a key stands in it once.
use research_os.Common.{Bool, Option, none, some, List, [], ◌∷◌, ℕ, if◌then◌else◌}
use research_os.Common.Text.{Text, codes, text_eq}
use research_os.Common.Json.{Fields}

pub record CapabilityActionDefinition : Type 0 where
  pub action_id : Text
  pub argument_schema : Fields
  pub result_schema : Fields
  pub minimum_side_effect_level : ℕ
  pub maximum_side_effect_level : ℕ
  pub target_types : List Text
  pub network_policy : Option Fields
  pub requirements : List Text
  pub supports_reproduction : Bool
  pub supports_negative_control : Bool
  pub normalizer_reference : Option Text

-- `mapping.get(key)`
unfoldable pub lookup {ℓ} : {A : Type ℓ} → Text → List (Text × A) → Option A
lookup key [] = none
lookup key ((k, value) ∷ rest) = if text_eq k key then some value else lookup key rest

pub record CapabilityDefinition : Type 0 where
  pub capability_id : Text
  pub version : Text
  pub implementation_reference : Text
  pub executor_class : Text
  pub actions : List (Text × CapabilityActionDefinition)
  pub definition_fingerprint : Text

unfoldable pub action : CapabilityDefinition → Text → Option CapabilityActionDefinition
unfolding lookup
action definition action_id = lookup action_id definition.actions

pub record CapabilityRegistry : Type 0 where
  pub definitions : List (Text × CapabilityDefinition)

unfoldable pub get : CapabilityRegistry → Text → Option CapabilityDefinition
unfolding lookup
get registry capability_id = lookup capability_id registry.definitions

abbrev pub worker_executor_class : Text
worker_executor_class = codes "WORKER"

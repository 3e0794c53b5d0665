-- ===== src/Research/Orchestration/Config/Examples.antt =====
-- A configuration with a key that is not immutable.
use research_os.Common.{ok, List, [], ◌∷◌, ◌≡◌, refl, Every, pos, Some, ◌↔◌}
use research_os.Common.Text.{Text, codes}
use research_os.Common.Json.{Json}
use research_os.Research.Orchestration.{
  find, immutable_config_keys, canonical_entries, canonical_orchestration_config,
}
use research_os.Research.Orchestration.Config.{
  HasEntry, control_keys, canonical_orchestration_config_iff,
}

abbrev entries : List Text → List (Text × Json)
entries [] = []
entries (key ∷ keys) = (key, Json.number (pos 1)) ∷ entries keys

abbrev full : List (Text × Json)
full = entries immutable_config_keys

abbrev noted : List (Text × Json)
noted = (codes "operator_note", Json.null) ∷ full

canonical_orchestration_config_run : canonical_orchestration_config noted ≡ ok full
unfolding canonical_orchestration_config canonical_entries find
canonical_orchestration_config_run = refl

canonical_orchestration_config_iff_example :
    (((out : List (Text × Json)) × (canonical_orchestration_config noted ≡ ok out))
      ↔ Every (λ key. (v : Json) × HasEntry key v noted) control_keys)
    × ((out : List (Text × Json))
        → canonical_orchestration_config noted ≡ ok out
        → (key : Text) (v : Json)
        → HasEntry key v out ↔ (Some (λ k. k ≡ key) control_keys × HasEntry key v noted))
canonical_orchestration_config_iff_example = canonical_orchestration_config_iff noted

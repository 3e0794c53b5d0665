-- ===== src/Tools/Allowlist.antt =====
-- tools/integration_allowlist.py: the calls that are allowed without a Worker definition.
use research_os.Common.{ℕ, Option, none, some, List, [], ◌∷◌, map, ◌&&◌, if◌then◌else◌}
use research_os.Common.Text.{Text, codes, text_eq}

pub record IntegrationAllowlistEntry : Type 0 where
  pub capability_id : Text
  pub action : Text
  pub minimum_side_effect_level : ℕ
  pub maximum_side_effect_level : ℕ

abbrev strix_ping : IntegrationAllowlistEntry
strix_ping = record {
  capability_id = codes "strix.diagnostic.ping";
  action = codes "ping";
  minimum_side_effect_level = 0;
  maximum_side_effect_level = 0;
}

-- The dict from (capability, action) to the entry.
abbrev pub integration_capability_allowlist : List (Text × Text × IntegrationAllowlistEntry)
integration_capability_allowlist = (strix_ping.capability_id, strix_ping.action, strix_ping) ∷ []

unfoldable pub integration_capability_ids : List Text
integration_capability_ids = map (λ e. e.0) integration_capability_allowlist

find_entry :
    Text → Text → List (Text × Text × IntegrationAllowlistEntry) → Option IntegrationAllowlistEntry
find_entry capability_id action [] = none
find_entry capability_id action ((c, a, entry) ∷ rest) =
    if text_eq c capability_id && text_eq a action
    then some entry
    else find_entry capability_id action rest

unfoldable pub lookup_integration_capability : Text → Text → Option IntegrationAllowlistEntry
unfolding find_entry
lookup_integration_capability capability_id action =
    find_entry capability_id action integration_capability_allowlist

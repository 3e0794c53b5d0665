-- ===== src/Research/Impact/Kinds.antt =====
-- research/impact/types.py: the values of the enumerations, and reading a member from its value.
use research_os.Common.{Option, none, some, if◌then◌else◌, ◌≡◌, refl}
use research_os.Common.Text.{Text, codes, text_eq}
use research_os.Research.Severity.{
  ImpactKind, data_read, data_write, auth_bypass, state_corruption, account_takeover_path,
  external_callback,
}

pub data ImpactRelation : Type 0 where
  enables escalates confirms : ImpactRelation

-- `kind.value`
unfoldable pub impact_value : ImpactKind → Text
impact_value data_read = codes "DATA_READ"
impact_value data_write = codes "DATA_WRITE"
impact_value auth_bypass = codes "AUTH_BYPASS"
impact_value state_corruption = codes "STATE_CORRUPTION"
impact_value account_takeover_path = codes "ACCOUNT_TAKEOVER_PATH"
impact_value external_callback = codes "EXTERNAL_CALLBACK"

-- `ImpactKind(value)`; `none` stands for the ValueError.
unfoldable pub impact_kind_of : Text → Option ImpactKind
impact_kind_of s =
    if text_eq s (codes "DATA_READ")
    then some data_read
    else if text_eq s (codes "DATA_WRITE")
    then some data_write
    else if text_eq s (codes "AUTH_BYPASS")
    then some auth_bypass
    else if text_eq s (codes "STATE_CORRUPTION")
    then some state_corruption
    else if text_eq s (codes "ACCOUNT_TAKEOVER_PATH")
    then some account_takeover_path
    else if text_eq s (codes "EXTERNAL_CALLBACK")
    then some external_callback
    else none

unfoldable pub relation_value : ImpactRelation → Text
relation_value enables = codes "ENABLES"
relation_value escalates = codes "ESCALATES"
relation_value confirms = codes "CONFIRMS"

-- `ImpactRelation(value)`
unfoldable pub relation_of : Text → Option ImpactRelation
relation_of s =
    if text_eq s (codes "ENABLES")
    then some enables
    else if text_eq s (codes "ESCALATES")
    then some escalates
    else if text_eq s (codes "CONFIRMS")
    then some confirms
    else none

pub impact_kind_of-impact_value :
    (kind : ImpactKind) → impact_kind_of (impact_value kind) ≡ some kind
unfolding impact_kind_of impact_value
impact_kind_of-impact_value data_read = refl
impact_kind_of-impact_value data_write = refl
impact_kind_of-impact_value auth_bypass = refl
impact_kind_of-impact_value state_corruption = refl
impact_kind_of-impact_value account_takeover_path = refl
impact_kind_of-impact_value external_callback = refl

pub relation_of-relation_value : (r : ImpactRelation) → relation_of (relation_value r) ≡ some r
unfolding relation_of relation_value
relation_of-relation_value enables = refl
relation_of-relation_value escalates = refl
relation_of-relation_value confirms = refl

-- ===== src/Research/Impact/Capabilities/Demonstrated.antt =====
-- What research/impact/capability_map.py allows, kind by kind.
use mathlib.Core.Path.{◌∙◌, sym}
use research_os.Common.{
  Bool, true, false, not, ◌&&◌, ◌||◌, List, [], ◌∷◌, any, ◌≡◌, refl, arith, any-append,
}
use research_os.Common.Text.{Text, codes, text_eq, text_eq_iff}
use research_os.Research.Severity.{
  ImpactKind, data_read, data_write, auth_bypass, state_corruption, account_takeover_path,
  external_callback,
}
use research_os.Research.Impact.Cycle.{is_in}
use research_os.Research.Impact.Kinds.{impact_value}
use research_os.Research.Impact.Capabilities.{
  demonstrated_capability_to_impact_kind, composite_capability_requirements, kinds_of, single_kinds,
  composite_kinds, allowed_kinds,
}

abbrev has_key : Text → Text × List Text → Bool
has_key key (other, kinds) = text_eq other key

abbrev gives : Text → Text → Text × List Text → Bool
gives kind capability (key, kinds) = text_eq key capability && is_in kinds kind

abbrev is_distinct : List (Text × List Text) → Bool
is_distinct [] = true
is_distinct ((key, kinds) ∷ table) = not (any (has_key key) table) && is_distinct table

none_gives :
    (table : List (Text × List Text)) (kind key capability : Text)
    → key ≡ capability
    → any (has_key key) table ≡ false
    → any (gives kind capability) table ≡ false
none_gives [] kind key capability same h = refl
none_gives ((other, kinds) ∷ table) kind key capability same h =
    let different = text_eq_iff other key in
    let different' = text_eq_iff other capability in
    ground (arith, none_gives table kind key capability same, same, h, different, different')

is_in-kinds_of :
    (table : List (Text × List Text)) (kind capability : Text)
    → is_distinct table ≡ true
    → is_in (kinds_of table capability) kind ≡ any (gives kind capability) table
unfolding kinds_of
is_in-kinds_of [] kind capability h = refl
is_in-kinds_of ((key, kinds) ∷ table) kind capability h =
    let same = text_eq_iff key capability in
    let rest = is_in-kinds_of table kind capability in
    let others = none_gives table kind key capability in ground (arith, h, same, rest, others)

-- A capability of the list is the key of an entry with the kind.
abbrev supports : Text → List Text → Text × List Text → Bool
supports kind capabilities (key, kinds) = is_in capabilities key && is_in kinds kind

supports_nothing :
    (table : List (Text × List Text)) (kind : Text) → any (supports kind []) table ≡ false
supports_nothing [] kind = refl
supports_nothing (e ∷ table) kind = supports_nothing table kind

supports_more :
    (table : List (Text × List Text)) (kind c : Text) (cs : List Text)
    → any (supports kind (c ∷ cs)) table
      ≡ (any (gives kind c) table || any (supports kind cs) table)
supports_more [] kind c cs = refl
supports_more ((key, kinds) ∷ table) kind c cs = ground (arith, supports_more table kind c cs)

is_in-single_kinds :
    (table : List (Text × List Text)) (kind : Text) (capabilities : List Text)
    → is_distinct table ≡ true
    → is_in (single_kinds table capabilities) kind ≡ any (supports kind capabilities) table
unfolding single_kinds
is_in-single_kinds table kind [] h = sym (supports_nothing table kind)
is_in-single_kinds table kind (c ∷ cs) h =
    any-append (text_eq kind) (kinds_of table c) (single_kinds table cs)
    ∙ rw (is_in-kinds_of table kind c h, is_in-single_kinds table kind cs h)
        (sym (supports_more table kind c cs))

-- The kinds of impact, each with the capabilities that show it.
unfoldable pub demonstrated : ImpactKind → List Text → Bool
demonstrated data_read cs = is_in cs (codes "READ_OTHER_OBJECT")
demonstrated data_write cs = is_in cs (codes "WRITE_OTHER_OBJECT")
demonstrated auth_bypass cs =
    is_in cs (codes "READ_OTHER_OBJECT")
    || is_in cs (codes "WORKFLOW_TRANSITION_WITHOUT_AUTH")
    || is_in cs (codes "AUTHENTICATED_AS_USER")
    || is_in cs (codes "PRIVILEGE_ESCALATION_EVIDENCE")
demonstrated state_corruption cs =
    is_in cs (codes "WORKFLOW_TRANSITION_WITHOUT_AUTH") || is_in cs (codes "WRITE_OTHER_OBJECT")
demonstrated account_takeover_path cs =
    is_in cs (codes "AUTHENTICATED_AS_USER")
    && (is_in cs (codes "PRIVILEGE_ESCALATION_EVIDENCE")
        || is_in cs (codes "CROSS_ACCOUNT_SESSION_ASSUMPTION"))
demonstrated external_callback cs = is_in cs (codes "OAST_CALLBACK_RECEIVED")

entries_lem :
    (kind : ImpactKind) (cs : List Text)
    → (any (supports (impact_value kind) cs) demonstrated_capability_to_impact_kind
        || is_in (composite_kinds composite_capability_requirements cs) (impact_value kind))
      ≡ demonstrated kind cs
unfolding impact_value composite_kinds demonstrated
entries_lem data_read cs = ground arith
entries_lem data_write cs = ground arith
entries_lem auth_bypass cs = ground arith
entries_lem state_corruption cs = ground arith
entries_lem account_takeover_path cs = ground arith
entries_lem external_callback cs = ground arith

-- Whatever the capabilities, a kind of impact is allowed exactly if they show it.
pub allowed_kinds_lem :
    (kind : ImpactKind) (capabilities : List Text)
    → is_in (allowed_kinds capabilities) (impact_value kind) ≡ demonstrated kind capabilities
unfolding allowed_kinds
allowed_kinds_lem kind cs =
    any-append (text_eq (impact_value kind))
      (single_kinds demonstrated_capability_to_impact_kind cs)
      (composite_kinds composite_capability_requirements cs)
    ∙ rw (is_in-single_kinds demonstrated_capability_to_impact_kind (impact_value kind) cs refl)
        (entries_lem kind cs)

-- ===== src/Research/Impact/Chain.antt =====
-- research/impact/chain.py and the errors of research/impact/types.py: the nodes and edges of a chain
-- and what their constructors demand.
pub mod Built
use research_os.Common.{
  Bool, true, false, not, ◌||◌, Option, none, some, Result, ok, err, List, [], ◌∷◌, any, map,
  is_empty, if◌then◌else◌, ◌>>=◌, ◌>>◌, guard,
}
use research_os.Common.Text.{Text, codes, text_eq}
use research_os.Common.Json.{Json}
use research_os.Research.Errors.{ResearchError}
use research_os.Research.Candidate.{require_text, require_ids}
use research_os.Research.Severity.{ImpactKind}
use research_os.Research.Impact.Kinds.{ImpactRelation}
use research_os.Research.Impact.Cycle.{Arc, is_in, has_cycle}

-- `ResearchInputError`, and `ImpactGraphError` by its text. A search that was cut off is an error of
-- its own.
pub data ImpactError : Type 0 where
  input_error : ResearchError → ImpactError
  empty_proof_refs chain_has_no_nodes dangling_edge_from_node dangling_edge_to_node : ImpactError
  self_loop_not_allowed chain_contains_cycle search_cut_off : ImpactError

abbrev pub lift : {A : Type 0} → Result ResearchError A → Result ImpactError A
lift (ok a) = ok a
lift (err e) = err (input_error e)

pub record ImpactScopeRef : Type 0 where
  pub research_run_id : Text
  pub program_id : Text
  pub target_reference : Text

-- `ImpactScopeRef.__post_init__`
unfoldable pub new_impact_scope_ref : Text → Text → Text → Result ImpactError ImpactScopeRef
unfolding require_text
new_impact_scope_ref run program target = do
  r ← lift (require_text run)
  p ← lift (require_text program)
  t ← lift (require_text target)
  ok (record { research_run_id = r; program_id = p; target_reference = t })

pub record ImpactNode : Type 0 where
  pub node_id : Text
  pub proof_refs : List Text
  pub impact_kind : ImpactKind
  pub claim_text : Text
  pub scope_ref : ImpactScopeRef
  pub provenance : List (Text × Json)

-- `ImpactNode.__post_init__`, on the fields as they are given
unfoldable pub new_impact_node : ImpactNode → Result ImpactError ImpactNode
unfolding require_text require_ids
new_impact_node given = do
  i ← lift (require_text given.node_id)
  refs ← lift (require_ids given.proof_refs)
  guard (not (is_empty refs)) empty_proof_refs
  c ← lift (require_text given.claim_text)
  ok (record given { node_id = i; proof_refs = refs; claim_text = c })

pub record ImpactEdge : Type 0 where
  pub from_node_id : Text
  pub to_node_id : Text
  pub relation : ImpactRelation

-- `ImpactEdge.__post_init__`
unfoldable pub new_impact_edge : Text → Text → ImpactRelation → Result ImpactError ImpactEdge
unfolding require_text
new_impact_edge source target relation = do
  f ← lift (require_text source)
  t ← lift (require_text target)
  ok (record { from_node_id = f; to_node_id = t; relation = relation })

pub record ImpactChain : Type 0 where
  pub chain_id : Text
  pub nodes : List ImpactNode
  pub edges : List ImpactEdge

abbrev pub arc : ImpactEdge → Arc
arc e = record { from_node_id = e.from_node_id; to_node_id = e.to_node_id }

-- `{node.node_id for node in nodes}`: a set holds each of its elements once.
pub set_of : List Text → List Text
set_of [] = []
set_of (x ∷ xs) = let rest = set_of xs in if is_in rest x then rest else x ∷ rest

pub node_ids : List ImpactNode → List Text
unfolding set_of
node_ids nodes = set_of (map (λ n. n.node_id) nodes)

-- The loop over the edges, which raises at the first bad one.
pub check_edges : List Text → List ImpactEdge → Result ImpactError (Unit {0})
check_edges ids [] = ok tt
check_edges ids (e ∷ edges) = do
  guard (is_in ids e.from_node_id) dangling_edge_from_node
  guard (is_in ids e.to_node_id) dangling_edge_to_node
  guard (not (text_eq e.from_node_id e.to_node_id)) self_loop_not_allowed
  check_edges ids edges

abbrev pub refuse_cycle : Option Bool → Result ImpactError (Unit {0})
refuse_cycle none = err search_cut_off
refuse_cycle (some true) = err chain_contains_cycle
refuse_cycle (some false) = ok tt

-- `ImpactChain.__post_init__`; `iterate` is the order in which Python goes through a set.
unfoldable pub new_impact_chain :
    (List Text → List Text)
    → Text
    → List ImpactNode
    → List ImpactEdge
    → Result ImpactError ImpactChain
unfolding require_text node_ids check_edges has_cycle
new_impact_chain iterate chain_id nodes edges = do
  i ← lift (require_text chain_id)
  guard (not (is_empty nodes)) chain_has_no_nodes
  check_edges (node_ids nodes) edges
  refuse_cycle (has_cycle iterate (node_ids nodes) (map arc edges))
  ok (record { chain_id = i; nodes = nodes; edges = edges })

-- ===== src/Application/ImpactChains.antt =====
-- application/impact/register_impact_chain.py and application/impact/proof_resolver.py: registering a
-- chain in the ledger and building it again from there.
pub mod Constructed
pub mod Rows
pub mod Fits
pub mod RoundTrip
pub mod Resolver
pub mod Claims
mod Examples
use research_os.Common.{
  ℕ, suc, Bool, true, Option, none, some, Result, ok, err, List, [], ◌∷◌, any, guard, ◌&&◌,
  if◌then◌else◌, ◌>>=◌, ◌>>◌,
}
use research_os.Common.Text.{Text, codes, text_eq}
use research_os.Common.Json.{Json, Fields}
use research_os.Research.Errors.{research_input_error}
use research_os.Research.Impact.Kinds.{impact_value, impact_kind_of, relation_value, relation_of}
use research_os.Research.Impact.Chain.{
  ImpactError, input_error, ImpactScopeRef, new_impact_scope_ref, ImpactNode, new_impact_node,
  ImpactEdge, new_impact_edge, ImpactChain, new_impact_chain,
}
use research_os.Research.Impact.Proofs.{ProofRecord, ReasonCode, validate_chain}
use research_os.Data.Records.{DataError}
use research_os.Data.ImpactChains.{
  ImpactChainRecord, new_impact_chain_record, ImpactChainNodeRecord, new_impact_chain_node_record,
  ImpactChainEdgeRecord, new_impact_chain_edge_record, Tables, Queries, insert_impact_chain,
  get_nodes, get_edges, is_graph_hash,
}

-- What these calls raise: `type_error` is a scope with a missing or an unknown field, `value_error` a
-- text that is no member of an enumeration.
pub data ImpactChainError : Type 0 where
  validation_failed : List ReasonCode → ImpactChainError
  bad_graph_hash type_error value_error : ImpactChainError
  data_error : DataError → ImpactChainError
  impact_error : ImpactError → ImpactChainError

abbrev pub from_data : {A : Type 0} → Result DataError A → Result ImpactChainError A
from_data (ok a) = ok a
from_data (err e) = err (data_error e)

abbrev pub from_impact : {A : Type 0} → Result ImpactError A → Result ImpactChainError A
from_impact (ok a) = ok a
from_impact (err e) = err (impact_error e)

pub record RegisterImpactChainCommand : Type 0 where
  pub chain_id : Text
  pub research_run_id : Text
  pub program_id : Text
  pub chain : ImpactChain
  pub graph_hash : Option Text

-- `dict(node.scope_ref.__dict__)`
abbrev pub scope_fields : ImpactScopeRef → Fields
scope_fields s = Fields.field (codes "research_run_id") (Json.text s.research_run_id) (
    Fields.field (codes "program_id") (Json.text s.program_id)
      (Fields.field (codes "target_reference") (Json.text s.target_reference) Fields.end))

abbrev pub node_row : Text → ℕ → ℕ → ImpactNode → ImpactChainNodeRecord
node_row chain_id now index node = record {
  node_id = node.node_id;
  chain_id = chain_id;
  impact_kind = impact_value node.impact_kind;
  claim_text = node.claim_text;
  scope_ref = scope_fields node.scope_ref;
  proof_refs = node.proof_refs;
  ordering = index;
  created_at = now;
}

abbrev pub edge_row : Text → ℕ → Text → ImpactEdge → ImpactChainEdgeRecord
edge_row chain_id now edge_id edge = record {
  edge_id = edge_id;
  chain_id = chain_id;
  from_node_id = edge.from_node_id;
  to_node_id = edge.to_node_id;
  relation = relation_value edge.relation;
  created_at = now;
}

-- The rows of `enumerate(nodes)`, from an index on
unfoldable pub node_rows :
    Text → ℕ → ℕ → List ImpactNode → Result DataError (List ImpactChainNodeRecord)
unfolding impact_value new_impact_chain_node_record
node_rows chain_id now index [] = ok []
node_rows chain_id now index (node ∷ nodes) = do
  row ← new_impact_chain_node_record (node_row chain_id now index node)
  rows ← node_rows chain_id now (suc index) nodes
  ok (row ∷ rows)

-- `new_opaque_id` of the n-th edge is `new_id n`.
unfoldable pub edge_rows :
    (ℕ → Text) → Text → ℕ → ℕ → List ImpactEdge → Result DataError (List ImpactChainEdgeRecord)
unfolding relation_value new_impact_chain_edge_record
edge_rows new_id chain_id now n [] = ok []
edge_rows new_id chain_id now n (edge ∷ edges) = do
  row ← new_impact_chain_edge_record (edge_row chain_id now (new_id n) edge)
  rows ← edge_rows new_id chain_id now (suc n) edges
  ok (row ∷ rows)

abbrev pub chain_record : ℕ → RegisterImpactChainCommand → ImpactChainRecord
chain_record now command = record {
  chain_id = command.chain.chain_id;
  research_run_id = command.research_run_id;
  program_id = command.program_id;
  graph_hash = command.graph_hash;
  created_at = now;
}

-- `RegisterImpactChain.execute`, at the time `now`, with the tables that are committed; a call that
-- raises commits nothing.
unfoldable pub execute :
    Queries
    → (ℕ → Text)
    → ℕ
    → (Text → Text → Option ProofRecord)
    → Tables
    → RegisterImpactChainCommand
    → Result ImpactChainError Tables
unfolding validate_chain node_rows edge_rows new_impact_chain_record insert_impact_chain
execute db new_id now resolve t command = do
  guard (validate_chain resolve command.research_run_id command.chain).valid (
      validation_failed (validate_chain resolve command.research_run_id command.chain).reason_codes)
  guard (is_graph_hash command.graph_hash) bad_graph_hash
  nodes ← from_data (node_rows command.chain.chain_id now 0 command.chain.nodes)
  edges ← from_data (edge_rows new_id command.chain.chain_id now 0 command.chain.edges)
  r ← from_data (new_impact_chain_record (chain_record now command))
  from_data (insert_impact_chain db t r nodes edges)

abbrev or_else : {A : Type 0} → ImpactChainError → Option A → Result ImpactChainError A
or_else e none = err e
or_else e (some a) = ok a

-- The value of a field, of which `_require_text` demands that it is a text
unfoldable pub text_field : Fields → Text → Result ImpactChainError Text
text_field Fields.end name = err type_error
text_field (Fields.field key value fields) name =
    let rest = text_field fields name in
    if text_eq key name
    then elim value [
      | Json.text t ↦ ok t
      | _ ↦ err (impact_error (input_error research_input_error))
    ]
    else rest

abbrev pub scope_names : List Text
scope_names = codes "research_run_id" ∷ codes "program_id" ∷ codes "target_reference" ∷ []

unfoldable pub has_only : List Text → Fields → Bool
has_only names Fields.end = true
has_only names (Fields.field key value fields) = any (text_eq key) names && has_only names fields

-- `ImpactScopeRef(**fields)`
unfoldable pub scope_ref_of : Fields → Result ImpactChainError ImpactScopeRef
unfolding text_field has_only new_impact_scope_ref
scope_ref_of fields = do
  guard (has_only scope_names fields) type_error
  run ← text_field fields (codes "research_run_id")
  program ← text_field fields (codes "program_id")
  target ← text_field fields (codes "target_reference")
  from_impact (new_impact_scope_ref run program target)

-- The provenance of a node that was built again
abbrev pub rebuilt_from : Text → List (Text × Json)
rebuilt_from id =
    (codes "source", Json.text (codes "impact_chain.rebuild"))
    ∷ (codes "chain_id", Json.text id)
    ∷ []

unfoldable pub node_of : Text → ImpactChainNodeRecord → Result ImpactChainError ImpactNode
unfolding impact_kind_of scope_ref_of new_impact_node
node_of id row = do
  kind ← or_else value_error (impact_kind_of row.impact_kind)
  scope ← scope_ref_of row.scope_ref
  from_impact (
      new_impact_node (record {
        node_id = row.node_id;
        proof_refs = row.proof_refs;
        impact_kind = kind;
        claim_text = row.claim_text;
        scope_ref = scope;
        provenance = rebuilt_from id;
      }))

unfoldable pub edge_of : ImpactChainEdgeRecord → Result ImpactChainError ImpactEdge
unfolding relation_of new_impact_edge
edge_of row = do
  relation ← or_else value_error (relation_of row.relation)
  from_impact (new_impact_edge row.from_node_id row.to_node_id relation)

module _ {A B : Type 0} where
  -- A comprehension whose element may raise.
  unfoldable pub each : (A → Result ImpactChainError B) → List A → Result ImpactChainError (List B)
  each f [] = ok []
  each f (x ∷ xs) = do y ← f x; ys ← each f xs; ok (y ∷ ys)

-- `rebuild_impact_chain`; `iterate` is the order in which Python goes through a set.
unfoldable pub rebuild_impact_chain :
    (List Text → List Text)
    → Queries
    → Tables
    → ImpactChainRecord
    → Result ImpactChainError ImpactChain
unfolding get_nodes get_edges node_of edge_of each new_impact_chain
rebuild_impact_chain iterate db t r = do
  node_records ← from_data (get_nodes db t r.chain_id)
  edge_records ← from_data (get_edges db t r.chain_id)
  nodes ← each (node_of r.chain_id) node_records
  edges ← each edge_of edge_records
  from_impact (new_impact_chain iterate r.chain_id nodes edges)

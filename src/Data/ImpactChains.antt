-- ===== src/Data/ImpactChains.antt =====
-- data/records.py, data/postgres/repositories.py, data/postgres/mapping.py, data/postgres/tables.py:
-- the records of impact chains, their tables and what is written to and read from them.
pub mod Written
use research_os.Common.{
  ℕ, Bool, true, not, ◌||◌, Option, none, some, Result, ok, err, List, [], ◌∷◌, ◌++◌, length, any,
  all, keep, is_empty, guard, ◌==◌, ◌>>=◌, ◌>>◌,
}
use research_os.Common.Text.{Text, codes, text_eq, is_blank}
use research_os.Common.Json.{Json, Fields}
use research_os.Data.Records.{
  DataError, persistence_error, persistence_input_error, persistence_conflict_error,
  require_mapping,
}

pub record ImpactChainRecord : Type 0 where
  pub chain_id : Text
  pub research_run_id : Text
  pub program_id : Text
  pub graph_hash : Option Text
  pub created_at : ℕ

abbrev pub is_graph_hash : Option Text → Bool
is_graph_hash none = true
is_graph_hash (some hash) = length hash == 64

-- `require_opaque_id`
abbrev pub require_opaque_id : Text → Result DataError (Unit {0})
require_opaque_id value = guard (not (is_blank value)) persistence_input_error

-- `ImpactChainRecord.__post_init__`, which changes none of the values
unfoldable pub check_chain_record : ImpactChainRecord → Result DataError (Unit {0})
unfolding is_blank
check_chain_record given = do
  require_opaque_id given.chain_id
  require_opaque_id given.research_run_id
  require_opaque_id given.program_id
  guard (is_graph_hash given.graph_hash) persistence_input_error

unfoldable pub new_impact_chain_record : ImpactChainRecord → Result DataError ImpactChainRecord
unfolding check_chain_record
new_impact_chain_record given = do check_chain_record given; ok given

pub record ImpactChainNodeRecord : Type 0 where
  pub node_id : Text
  pub chain_id : Text
  pub impact_kind : Text
  pub claim_text : Text
  pub scope_ref : Fields
  pub proof_refs : List Text
  pub ordering : ℕ
  pub created_at : ℕ

-- `ImpactChainNodeRecord.__post_init__`, which changes none of the values
unfoldable pub check_node_record : ImpactChainNodeRecord → Result DataError (Unit {0})
unfolding is_blank require_mapping
check_node_record given = do
  require_opaque_id given.node_id
  require_opaque_id given.chain_id
  guard (not (is_blank given.impact_kind)) persistence_input_error
  guard (not (is_blank given.claim_text)) persistence_input_error
  require_mapping given.scope_ref
  guard (not (is_empty given.proof_refs)) persistence_input_error
  guard (all (λ id. not (is_blank id)) given.proof_refs) persistence_input_error

unfoldable pub new_impact_chain_node_record :
    ImpactChainNodeRecord → Result DataError ImpactChainNodeRecord
unfolding check_node_record
new_impact_chain_node_record given = do check_node_record given; ok given

pub record ImpactChainEdgeRecord : Type 0 where
  pub edge_id : Text
  pub chain_id : Text
  pub from_node_id : Text
  pub to_node_id : Text
  pub relation : Text
  pub created_at : ℕ

-- `ImpactChainEdgeRecord.__post_init__`, which changes none of the values
unfoldable pub check_edge_record : ImpactChainEdgeRecord → Result DataError (Unit {0})
unfolding is_blank
check_edge_record given = do
  require_opaque_id given.edge_id
  require_opaque_id given.chain_id
  require_opaque_id given.from_node_id
  require_opaque_id given.to_node_id
  guard (not (is_blank given.relation)) persistence_input_error

unfoldable pub new_impact_chain_edge_record :
    ImpactChainEdgeRecord → Result DataError ImpactChainEdgeRecord
unfolding check_edge_record
new_impact_chain_edge_record given = do check_edge_record given; ok given

-- The tables, with the row written last at the end.
pub record Tables : Type 0 where
  pub impact_chain : List ImpactChainRecord
  pub impact_chain_node : List ImpactChainNodeRecord
  pub impact_chain_edge : List ImpactChainEdgeRecord

-- What the database does: the foreign keys of a chain to the tables of runs and programs, and the order
-- of a query's rows with and without ORDER BY.
pub record Queries : Type 0 where
  pub refers : ImpactChainRecord → Bool
  pub order_by_ordering : List ImpactChainNodeRecord → List ImpactChainNodeRecord
  pub in_any_order : List ImpactChainEdgeRecord → List ImpactChainEdgeRecord

abbrev pub has_chain : Tables → Text → Bool
has_chain t id = any (λ c. text_eq c.chain_id id) t.impact_chain

-- The constraint `ck_impact_chain_edge_relation`
unfoldable pub is_relation : Text → Bool
is_relation s =
    text_eq s (codes "ENABLES") || text_eq s (codes "ESCALATES") || text_eq s (codes "CONFIRMS")

-- The primary key and the foreign keys of `impact_chain`
unfoldable pub insert_chain : Queries → Tables → ImpactChainRecord → Result DataError Tables
insert_chain db t r = do
  guard (not (has_chain t r.chain_id)) persistence_conflict_error
  guard (db.refers r) persistence_error
  ok (record t { impact_chain = t.impact_chain ++ r ∷ [] })

-- The primary key and the foreign key of `impact_chain_node`
unfoldable pub insert_nodes : Tables → List ImpactChainNodeRecord → Result DataError Tables
insert_nodes t [] = ok t
insert_nodes t (n ∷ ns) = do
  guard (not (any (λ m. text_eq m.node_id n.node_id) t.impact_chain_node))
      persistence_conflict_error
  guard (has_chain t n.chain_id) persistence_error
  insert_nodes (record t { impact_chain_node = t.impact_chain_node ++ n ∷ [] }) ns

-- The keys and the constraint of `impact_chain_edge`
unfoldable pub insert_edges : Tables → List ImpactChainEdgeRecord → Result DataError Tables
unfolding is_relation
insert_edges t [] = ok t
insert_edges t (e ∷ es) = do
  guard (not (any (λ d. text_eq d.edge_id e.edge_id) t.impact_chain_edge))
      persistence_conflict_error
  guard (has_chain t e.chain_id) persistence_error
  guard (is_relation e.relation) persistence_error
  insert_edges (record t { impact_chain_edge = t.impact_chain_edge ++ e ∷ [] }) es

-- `PostgresImpactChainRepository.insert`
unfoldable pub insert_impact_chain :
    Queries
    → Tables
    → ImpactChainRecord
    → List ImpactChainNodeRecord
    → List ImpactChainEdgeRecord
    → Result DataError Tables
unfolding insert_chain insert_nodes insert_edges
insert_impact_chain db t r nodes edges = do
  t1 ← insert_chain db t r
  t2 ← insert_nodes t1 nodes
  insert_edges t2 edges

module _ {A : Type 0} where
  -- The rows, each read by its constructor.
  unfoldable pub read_rows : (A → Result DataError A) → List A → Result DataError (List A)
  read_rows read [] = ok []
  read_rows read (row ∷ rows) = do r ← read row; rest ← read_rows read rows; ok (r ∷ rest)

unfoldable pub get_nodes : Queries → Tables → Text → Result DataError (List ImpactChainNodeRecord)
unfolding is_blank new_impact_chain_node_record read_rows
get_nodes db t id = do
  require_opaque_id id
  read_rows new_impact_chain_node_record
      (db.order_by_ordering (keep (λ n. text_eq n.chain_id id) t.impact_chain_node))

unfoldable pub get_edges : Queries → Tables → Text → Result DataError (List ImpactChainEdgeRecord)
unfolding is_blank new_impact_chain_edge_record read_rows
get_edges db t id = do
  require_opaque_id id
  read_rows new_impact_chain_edge_record
      (db.in_any_order (keep (λ e. text_eq e.chain_id id) t.impact_chain_edge))

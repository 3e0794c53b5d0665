-- ===== src/Application/ImpactChains/Rows.antt =====
-- The rows that application/impact/register_impact_chain.py writes, and what is read from them.
use mathlib.Core.Path.{subst}
use research_os.Common.{
  ℕ, suc, ◌≤◌, ◌<◌, true, none, some, Result, ok, err, List, [], ◌∷◌, map, ◌≡◌, refl, sym, ap, ◌∙◌,
  arith, Every, >>=-eq-ok, ok-eq-ok, ◌>>◌,
}
use research_os.Common.Text.{Text, text_eq, text_eq_refl}
use research_os.Research.Impact.Kinds.{
  enables, impact_kind_of-impact_value, relation_of, relation_of-relation_value,
}
use research_os.Research.Impact.Chain.{ImpactScopeRef, ImpactNode, ImpactEdge}
use research_os.Data.ImpactChains.{
  ImpactChainNodeRecord, check_node_record, check_edge_record, new_impact_chain_node_record,
  ImpactChainEdgeRecord, new_impact_chain_edge_record, read_rows,
}
use research_os.Application.ImpactChains.{
  from_impact, scope_fields, node_row, edge_row, node_rows, edge_rows, scope_ref_of, rebuilt_from,
  node_of, edge_of, each,
}
use research_os.Application.ImpactChains.Constructed.{
  IsScope, IsNode, IsEdge, scope_again, node_again, edge_again,
}

-- Checks that pass the value on.
pub checked :
    {E A : Type 0} (checks : Result E (Unit {0})) {given out : A}
    → (checks >> ok given) ≡ ok out
    → given ≡ out
checked (ok u) h = ok-eq-ok h
checked (err e) h = cc

node_record_lem :
    (given row : ImpactChainNodeRecord) → new_impact_chain_node_record given ≡ ok row → given ≡ row
unfolding new_impact_chain_node_record
node_record_lem given row h = checked (check_node_record given) h

edge_record_lem :
    (given row : ImpactChainEdgeRecord) → new_impact_chain_edge_record given ≡ ok row → given ≡ row
unfolding new_impact_chain_edge_record
edge_record_lem given row h = checked (check_edge_record given) h

-- The rows have the orderings of an increasing sequence.
unfoldable pub IsAscending : List ImpactChainNodeRecord → Type 0
IsAscending [] = Unit
IsAscending (r ∷ rows) = Every (λ s. r.ordering < s.ordering) rows × IsAscending rows

scope_ref_of-scope_fields : (s : ImpactScopeRef) → IsScope s → scope_ref_of (scope_fields s) ≡ ok s
unfolding scope_ref_of
scope_ref_of-scope_fields s h = ap from_impact (scope_again s h)

-- A node as it is built again
abbrev pub again : Text → ImpactNode → ImpactNode
again id n = record n { provenance = rebuilt_from id }

node_of-node_row :
    (id : Text) (now index : ℕ) (n : ImpactNode)
    → IsNode n
    → node_of id (node_row id now index n) ≡ ok (again id n)
unfolding node_of
node_of-node_row id now index n h =
    rw (impact_kind_of-impact_value n.impact_kind, scope_ref_of-scope_fields n.scope_ref h.1)
      (ap from_impact (node_again n (rebuilt_from id) h))

edge_of-edge_row :
    (id : Text) (now : ℕ) (edge_id : Text) (e : ImpactEdge)
    → IsEdge e
    → edge_of (edge_row id now edge_id e) ≡ ok e
unfolding edge_of
edge_of-edge_row id now edge_id e h =
    rw (relation_of-relation_value e.relation) (ap from_impact (edge_again e h))

-- The edge of a row
pub edge_back : ImpactChainEdgeRecord → ImpactEdge
unfolding relation_of
edge_back row = record {
  from_node_id = row.from_node_id;
  to_node_id = row.to_node_id;
  relation = elim (relation_of row.relation) [ none ↦ enables | some r ↦ r ];
}

edge_back-edge_row :
    (id : Text) (now : ℕ) (edge_id : Text) (e : ImpactEdge)
    → edge_back (edge_row id now edge_id e) ≡ e
unfolding edge_back
edge_back-edge_row id now edge_id e = rw (relation_of-relation_value e.relation) refl

pub every_map :
    {A : Type 0} {P Q : A → Type 0}
    → ((x : A) → P x → Q x)
    → (xs : List A) → Every P xs
    → Every Q xs
every_map f [] h = tt
every_map f (x ∷ xs) (h, hs) = (f x h, every_map f xs hs)

-- Rows that stand for the nodes, from an index on, are read and built again as the nodes.
abbrev pub AreNodeRows : Text → ℕ → List ImpactNode → List ImpactChainNodeRecord → Type 0
AreNodeRows id index nodes rows =
    Every (λ r. index ≤ r.ordering) rows
    × IsAscending rows
    × Every (λ r. text_eq r.chain_id id ≡ true) rows
    × (read_rows new_impact_chain_node_record rows ≡ ok rows)
    × (Every IsNode nodes → each (node_of id) rows ≡ ok (map (again id) nodes))

pub node_rows_lem :
    (id : Text) (now index : ℕ) (nodes : List ImpactNode) (rows : List ImpactChainNodeRecord)
    → node_rows id now index nodes ≡ ok rows
    → AreNodeRows id index nodes rows
unfolding node_rows IsAscending read_rows each
node_rows_lem id now index [] rows h =
    subst (AreNodeRows id index []) (ok-eq-ok h) (tt, tt, tt, refl, λ built. refl)
node_rows_lem id now index (n ∷ nodes) rows h =
    let (row, first, more) =
      >>=-eq-ok (new_impact_chain_node_record (node_row id now index n)) _ h in
    let (rest, others, built) = >>=-eq-ok (node_rows id now (suc index) nodes) _ more in
    let (above, ascending, own, read, rebuilt) =
      node_rows_lem id now (suc index) nodes rest others in
    let same = node_record_lem (node_row id now index n) row first in
    let passed = first ∙ ap ok (sym same) in
    subst (AreNodeRows id index (n ∷ nodes)) (ap (λ r. r ∷ rest) same ∙ ok-eq-ok built) (
      (omega arith, every_map (λ r l. omega (arith, l)) rest above),
      (every_map (λ r l. omega (arith, l)) rest above, ascending),
      (text_eq_refl id, own),
      rw (passed, read) refl,
      λ (node, nodes'). rw (node_of-node_row id now index n node, rebuilt nodes') refl,
    )

-- Rows that stand for the edges
abbrev pub AreEdgeRows : Text → List ImpactEdge → List ImpactChainEdgeRecord → Type 0
AreEdgeRows id edges rows =
    Every (λ r. text_eq r.chain_id id ≡ true) rows
    × Every (λ r. new_impact_chain_edge_record r ≡ ok r) rows
    × (Every IsEdge edges → Every (λ r. edge_of r ≡ ok (edge_back r)) rows)
    × (map edge_back rows ≡ edges)

pub edge_rows_lem :
    (new_id : ℕ → Text) (id : Text) (now k : ℕ) (edges : List ImpactEdge)
    (rows : List ImpactChainEdgeRecord)
    → edge_rows new_id id now k edges ≡ ok rows
    → AreEdgeRows id edges rows
unfolding edge_rows
edge_rows_lem new_id id now k [] rows h =
    subst (AreEdgeRows id []) (ok-eq-ok h) (tt, tt, λ built. tt, refl)
edge_rows_lem new_id id now k (e ∷ edges) rows h =
    let (row, first, more) =
      >>=-eq-ok (new_impact_chain_edge_record (edge_row id now (new_id k) e)) _ h in
    let (rest, others, built) = >>=-eq-ok (edge_rows new_id id now (suc k) edges) _ more in
    let (own, read, rebuilt, back) = edge_rows_lem new_id id now (suc k) edges rest others in
    let same = edge_record_lem (edge_row id now (new_id k) e) row first in
    let back_e = edge_back-edge_row id now (new_id k) e in
    subst (AreEdgeRows id (e ∷ edges)) (ap (λ r. r ∷ rest) same ∙ ok-eq-ok built) (
      (text_eq_refl id, own),
      (first ∙ ap ok (sym same), read),
      λ (edge, edges').
          (edge_of-edge_row id now (new_id k) e edge ∙ ap ok (sym back_e), rebuilt edges'),
      rw (back_e, back) refl,
    )

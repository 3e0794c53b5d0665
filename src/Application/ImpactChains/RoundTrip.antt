-- ===== src/Application/ImpactChains/RoundTrip.antt =====
-- A chain that application/impact/register_impact_chain.py wrote is built again by
-- application/impact/proof_resolver.py.
use mathlib.Core.Path.{subst}
use mathlib.Core.List.{Permᴰ}
use mathlib.Core.List.Permᴰ
use research_os.Common.{
  Every-permᴰ, ℕ, false, Option, ok, List, map, keep, guard, ◌≡◌, refl, sym, ap, ◌∙◌, ◌↔◌, Every,
  >>=-eq-ok, ok-eq-ok,
}
use research_os.Common.Text.{Text, text_eq, is_blank}
use research_os.Research.Impact.Cycle.Walks.{Among}
use research_os.Research.Impact.Chain.{ImpactChain}
use research_os.Research.Impact.Chain.Built.{new_impact_chain-ok_iff}
use research_os.Research.Impact.Proofs.{ProofRecord, validate_chain}
use research_os.Data.ImpactChains.{
  ImpactChainNodeRecord, ImpactChainEdgeRecord, Tables, Queries, is_graph_hash, insert_impact_chain,
  check_chain_record, new_impact_chain_record, new_impact_chain_edge_record, get_nodes, get_edges,
}
use research_os.Data.ImpactChains.Written.{IsReferring, insert_impact_chain_lem, keep_new}
use research_os.Application.ImpactChains.{
  RegisterImpactChainCommand, validation_failed, bad_graph_hash, execute, chain_record,
  rebuild_impact_chain, from_data, node_rows, edge_rows, edge_of,
}
use research_os.Application.ImpactChains.Constructed.{IsNode, IsEdge}
use research_os.Application.ImpactChains.Rows.{
  IsAscending, again, edge_back, node_rows_lem, edge_rows_lem, checked,
}
use research_os.Application.ImpactChains.Fits.{
  each_lem, read_rows_lem, from_data-eq-ok, built_fields, IsChain, chain-Fits, again-Fits,
  opaque_id_written,
}

module _ (iterate iterate' : List Text → List Text)
    (kept : (xs : List Text) (x : Text) → Among x (iterate xs) ↔ Among x xs)
    (kept' : (xs : List Text) (x : Text) → Among x (iterate' xs) ↔ Among x xs) (db : Queries)
    (ordered : (rows : List ImpactChainNodeRecord)
      → IsAscending rows
      → db.order_by_ordering rows ≡ rows)
    (selected : (rows : List ImpactChainEdgeRecord) → Permᴰ (db.in_any_order rows) rows)
    (new_id : ℕ → Text) (now : ℕ) (resolve : Text → Text → Option ProofRecord) (t t' : Tables)
    (command : RegisterImpactChainCommand) where
  -- The rows of a registered chain
  abbrev IsRegistered : List ImpactChainNodeRecord → List ImpactChainEdgeRecord → Type 0
  IsRegistered nodes edges =
      (node_rows command.chain.chain_id now 0 command.chain.nodes ≡ ok nodes)
      × (edge_rows new_id command.chain.chain_id now 0 command.chain.edges ≡ ok edges)
      × (insert_impact_chain db t (chain_record now command) nodes edges ≡ ok t')

  registered :
      execute db new_id now resolve t command ≡ ok t'
      → (nodes : List ImpactChainNodeRecord) × (edges : List ImpactChainEdgeRecord) × IsRegistered
          nodes edges
  unfolding execute new_impact_chain_record
  registered h =
      let c = command.chain in
      let result = validate_chain resolve command.research_run_id c in
      let (u, valid, more1) =
        >>=-eq-ok (guard result.valid (validation_failed result.reason_codes)) _ h in
      let (v, hash, more2) =
        >>=-eq-ok (guard (is_graph_hash command.graph_hash) bad_graph_hash) _ more1 in
      let (nodes, first, more3) =
        >>=-eq-ok (from_data (node_rows c.chain_id now 0 c.nodes)) _ more2 in
      let (edges, second, more4) =
        >>=-eq-ok (from_data (edge_rows new_id c.chain_id now 0 c.edges)) _ more3 in
      let (r, third, more5) =
        >>=-eq-ok (from_data (new_impact_chain_record (chain_record now command))) _ more4 in
      let same =
        checked (check_chain_record (chain_record now command))
          (from_data-eq-ok (new_impact_chain_record (chain_record now command)) third) in
      (
        nodes,
        edges,
        (
          from_data-eq-ok (node_rows c.chain_id now 0 c.nodes) first,
          from_data-eq-ok (edge_rows new_id c.chain_id now 0 c.edges) second,
          subst (λ x. insert_impact_chain db t x nodes edges ≡ ok t') (sym same)
              (from_data-eq-ok (insert_impact_chain db t r nodes edges) more5),
        ),
      )

  -- What is read of the rows of the chain
  nodes_read :
      (nodes : List ImpactChainNodeRecord) (edges : List ImpactChainEdgeRecord)
      → is_blank command.chain.chain_id ≡ false
      → IsReferring t
      → IsRegistered nodes edges
      → get_nodes db t' command.chain.chain_id ≡ ok nodes
  unfolding get_nodes IsReferring
  nodes_read nodes edges written referring (first, second, third) =
      let id = command.chain.chain_id in
      let (above, ascending, own, read, rebuilt) =
        node_rows_lem id now 0 command.chain.nodes nodes first in
      let (absent, chains, nodes', edges', known, known') =
        insert_impact_chain_lem db t t' (chain_record now command) nodes edges third in
      let kept_rows =
        ap (keep (λ n. text_eq n.chain_id id)) nodes'
        ∙ keep_new (λ n. n.chain_id) id t.impact_chain_node nodes t.impact_chain absent referring.0
            own in
      rw (opaque_id_written id written, kept_rows, ordered nodes ascending, read) refl

  edges_read :
      (nodes : List ImpactChainNodeRecord) (edges : List ImpactChainEdgeRecord)
      → is_blank command.chain.chain_id ≡ false
      → IsReferring t
      → IsRegistered nodes edges
      → get_edges db t' command.chain.chain_id ≡ ok (db.in_any_order edges)
  unfolding get_edges IsReferring
  edges_read nodes edges written referring (first, second, third) =
      let id = command.chain.chain_id in
      let (own, read, rebuilt, back) =
        edge_rows_lem new_id id now 0 command.chain.edges edges second in
      let (absent, chains, nodes', edges', known, known') =
        insert_impact_chain_lem db t t' (chain_record now command) nodes edges third in
      let kept_rows =
        ap (keep (λ e. text_eq e.chain_id id)) edges'
        ∙ keep_new (λ e. e.chain_id) id t.impact_chain_edge edges t.impact_chain absent referring.1
            own in
      let read' =
        Every-permᴰ (λ e. new_impact_chain_edge_record e ≡ ok e) (Permᴰ.symm (selected edges))
          read in
      rw
        (
          opaque_id_written id written,
          kept_rows,
          read_rows_lem new_impact_chain_edge_record (db.in_any_order edges) read',
        )
        refl

  -- What is built again has the chain's nodes and, in some order, its edges.
  abbrev IsRebuilt : ImpactChain → Type 0
  IsRebuilt c =
      (c.chain_id ≡ command.chain.chain_id)
      × (c.nodes ≡ map (again command.chain.chain_id) command.chain.nodes)
      × Permᴰ c.edges command.chain.edges

  -- Where every row of a node and of an edge belongs to a chain, a chain, its nodes and its edges that
  -- their constructors built, and that the call registers without an error, is built again from the
  -- tables without an error, whatever the order of the sets and that of the selected edges: it has the
  -- same identifier, the same nodes in the same order, with a provenance that names the chain, and the same
  -- edges up to their order.
  pub rebuild_impact_chain-execute :
      IsChain iterate command.chain
      → Every IsNode command.chain.nodes
      → Every IsEdge command.chain.edges
      → IsReferring t
      → execute db new_id now resolve t command ≡ ok t'
      → (c : ImpactChain) × (rebuild_impact_chain iterate' db t' (chain_record now command) ≡ ok c)
        × IsRebuilt c
  unfolding rebuild_impact_chain
  rebuild_impact_chain-execute chain nodes_built edges_built referring h =
      let (nodes, edges, row_steps) = registered h in
      let id = command.chain.chain_id in
      let (fits, named) = chain-Fits iterate kept command.chain chain in
      let got_nodes = nodes_read nodes edges fits.0 referring row_steps in
      let got_edges = edges_read nodes edges fits.0 referring row_steps in
      let (above, ascending, own, read, rebuilt) =
        node_rows_lem id now 0 command.chain.nodes nodes row_steps.0 in
      let (own', read', rebuilt', back) =
        edge_rows_lem new_id id now 0 command.chain.edges edges row_steps.1 in
      let backs = db.in_any_order edges in
      let each_edge = each_lem edge_of edge_back backs (
        Every-permᴰ (λ e. edge_of e ≡ ok (edge_back e)) (Permᴰ.symm (selected edges))
          (rebuilt' edges_built)) in
      let order = subst (Permᴰ (map edge_back backs)) back (Permᴰ.map edge_back (selected edges)) in
      let fits' =
        again-Fits id command.chain.nodes command.chain.edges (map edge_back backs) order fits in
      let (c, built) =
        (new_impact_chain-ok_iff iterate' kept' id (map (again id) command.chain.nodes)
            (map edge_back backs)).0.1
          fits' in
      let (named', same_nodes, same_edges) = built_fields iterate' id _ _ c built in
      (
        c,
        rw (got_nodes, got_edges, rebuilt nodes_built, each_edge, built) refl,
        (
          ok-eq-ok (sym named' ∙ named),
          sym same_nodes,
          subst (λ x. Permᴰ x command.chain.edges) same_edges order,
        ),
      )

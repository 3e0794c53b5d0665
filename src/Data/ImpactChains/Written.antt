-- ===== src/Data/ImpactChains/Written.antt =====
-- What `PostgresImpactChainRepository.insert` leaves in the tables (data/postgres/repositories.py).
use mathlib.Core.Path.{subst}
use mathlib.Core.List.{append_assoc, append-nil}
use research_os.Common.{
  Bool, true, false, not, ok, List, [], ◌∷◌, ◌++◌, any, keep, guard, ◌≡◌, refl, sym, ap, ◌∙◌, arith,
  Every, Bool-cases, inl, inr, >>=-eq-ok, ok-eq-ok, any-append, keep-append,
}
use research_os.Common.Text.{Text, text_eq, eq_of_text_eq}
use research_os.Data.Records.{persistence_error, persistence_conflict_error}
use research_os.Data.ImpactChains.{
  ImpactChainRecord, ImpactChainNodeRecord, ImpactChainEdgeRecord, Tables, Queries, has_chain,
  is_relation, insert_chain, insert_nodes, insert_edges, insert_impact_chain,
}

abbrev of_chain : Text → ImpactChainRecord → Bool
of_chain id c = text_eq c.chain_id id

-- Every row of the nodes and of the edges belongs to a chain of the tables.
unfoldable pub IsReferring : Tables → Type 0
IsReferring t =
    Every (λ n. has_chain t n.chain_id ≡ true) t.impact_chain_node
    × Every (λ e. has_chain t e.chain_id ≡ true) t.impact_chain_edge

guard-eq-ok :
    {E : Type 0} (test : Bool) (raised : E) {u : Unit {0}} → guard test raised ≡ ok u → test ≡ true
guard-eq-ok true raised h = refl
guard-eq-ok false raised h = cc

abbrev pub HasNodesOf : Tables → List ImpactChainNodeRecord → Tables → Type 0
HasNodesOf t ns t' =
    (t'.impact_chain ≡ t.impact_chain)
    × (t'.impact_chain_node ≡ t.impact_chain_node ++ ns)
    × (t'.impact_chain_edge ≡ t.impact_chain_edge)
    × Every (λ n. has_chain t n.chain_id ≡ true) ns

insert_nodes_lem :
    (t t' : Tables) (ns : List ImpactChainNodeRecord)
    → insert_nodes t ns ≡ ok t'
    → HasNodesOf t ns t'
unfolding insert_nodes
insert_nodes_lem t t' [] h =
    subst (HasNodesOf t []) (ok-eq-ok h) (refl, sym (append-nil t.impact_chain_node), refl, tt)
insert_nodes_lem t t' (n ∷ ns) h =
    let fresh = not (any (λ m. text_eq m.node_id n.node_id) t.impact_chain_node) in
    let (u, new, more) = >>=-eq-ok (guard fresh persistence_conflict_error) _ h in
    let (v, known, rest) = >>=-eq-ok (guard (has_chain t n.chain_id) persistence_error) _ more in
    let t1 : Tables = record t { impact_chain_node = t.impact_chain_node ++ n ∷ [] } in
    let (chains, nodes, edges, referring) = insert_nodes_lem t1 t' ns rest in
    (
      chains,
      nodes ∙ append_assoc t.impact_chain_node (n ∷ []) ns,
      edges,
      (guard-eq-ok (has_chain t n.chain_id) persistence_error known, referring),
    )

abbrev pub HasEdgesOf : Tables → List ImpactChainEdgeRecord → Tables → Type 0
HasEdgesOf t es t' =
    (t'.impact_chain ≡ t.impact_chain)
    × (t'.impact_chain_node ≡ t.impact_chain_node)
    × (t'.impact_chain_edge ≡ t.impact_chain_edge ++ es)
    × Every (λ e. has_chain t e.chain_id ≡ true) es

insert_edges_lem :
    (t t' : Tables) (es : List ImpactChainEdgeRecord)
    → insert_edges t es ≡ ok t'
    → HasEdgesOf t es t'
unfolding insert_edges
insert_edges_lem t t' [] h =
    subst (HasEdgesOf t []) (ok-eq-ok h) (refl, refl, sym (append-nil t.impact_chain_edge), tt)
insert_edges_lem t t' (e ∷ es) h =
    let fresh = not (any (λ d. text_eq d.edge_id e.edge_id) t.impact_chain_edge) in
    let (u, new, more) = >>=-eq-ok (guard fresh persistence_conflict_error) _ h in
    let (v, known, more2) = >>=-eq-ok (guard (has_chain t e.chain_id) persistence_error) _ more in
    let (w, named, rest) = >>=-eq-ok (guard (is_relation e.relation) persistence_error) _ more2 in
    let t1 : Tables = record t { impact_chain_edge = t.impact_chain_edge ++ e ∷ [] } in
    let (chains, nodes, edges, referring) = insert_edges_lem t1 t' es rest in
    (
      chains,
      nodes,
      edges ∙ append_assoc t.impact_chain_edge (e ∷ []) es,
      (guard-eq-ok (has_chain t e.chain_id) persistence_error known, referring),
    )

-- The tables after an insertion that was not refused
abbrev pub IsInserted :
    Tables
    → ImpactChainRecord
    → List ImpactChainNodeRecord
    → List ImpactChainEdgeRecord
    → Tables
    → Type 0
IsInserted t r ns es t' =
    (has_chain t r.chain_id ≡ false)
    × (t'.impact_chain ≡ t.impact_chain ++ r ∷ [])
    × (t'.impact_chain_node ≡ t.impact_chain_node ++ ns)
    × (t'.impact_chain_edge ≡ t.impact_chain_edge ++ es)
    × Every (λ n. has_chain t' n.chain_id ≡ true) ns
    × Every (λ e. has_chain t' e.chain_id ≡ true) es

insert_chain_lem :
    (db : Queries) (t t' : Tables) (r : ImpactChainRecord)
    → insert_chain db t r ≡ ok t'
    → (has_chain t r.chain_id ≡ false) × (record t { impact_chain = t.impact_chain ++ r ∷ [] } ≡ t')
unfolding insert_chain
insert_chain_lem db t t' r h =
    let (u, new, more) =
      >>=-eq-ok (guard (not (has_chain t r.chain_id)) persistence_conflict_error) _ h in
    let (v, refers, rest) = >>=-eq-ok (guard (db.refers r) persistence_error) _ more in
    let absent = guard-eq-ok (not (has_chain t r.chain_id)) persistence_conflict_error new in
    (ground (arith, absent), ok-eq-ok rest)

module _ {A : Type 0} (id_of : A → Text) where
  -- The rows belong to chains of a list.
  abbrev pub AreKnown : List A → List ImpactChainRecord → Type 0
  AreKnown rows chains = Every (λ a. any (of_chain (id_of a)) chains ≡ true) rows

  known_more :
      (rows : List A) (chains more : List ImpactChainRecord)
      → AreKnown rows chains
      → AreKnown rows (chains ++ more)
  known_more [] chains more h = tt
  known_more (a ∷ rows) chains more (h, hs) =
      (any-append (of_chain (id_of a)) chains more ∙ rw h refl, known_more rows chains more hs)

  known_append :
      (rows new : List A) (chains : List ImpactChainRecord)
      → AreKnown rows chains
      → AreKnown new chains
      → AreKnown (rows ++ new) chains
  known_append [] new chains h k = k
  known_append (a ∷ rows) new chains (h, hs) k = (h, known_append rows new chains hs k)

  none_of :
      (id : Text) (rows : List A) (chains : List ImpactChainRecord)
      → any (of_chain id) chains ≡ false
      → AreKnown rows chains
      → keep (λ a. text_eq (id_of a) id) rows ≡ []
  none_of id [] chains absent h = refl
  none_of id (a ∷ rows) chains absent (h, hs) = elim (Bool-cases (text_eq (id_of a) id)) [
    | inl same ↦
        let known =
          subst (λ x. any (of_chain x) chains ≡ true) (eq_of_text_eq (id_of a) id same) h in
        cc
    | inr other ↦ rw other (none_of id rows chains absent hs)
  ]

  all_of :
      (id : Text) (rows : List A)
      → Every (λ a. text_eq (id_of a) id ≡ true) rows
      → keep (λ a. text_eq (id_of a) id) rows ≡ rows
  all_of id [] h = refl
  all_of id (a ∷ rows) (h, hs) = rw h (ap (λ x. a ∷ x) (all_of id rows hs))

  -- The rows of a chain that is new are those that were added for it.
  pub keep_new :
      (id : Text) (rows new : List A) (chains : List ImpactChainRecord)
      → any (of_chain id) chains ≡ false
      → AreKnown rows chains
      → Every (λ a. text_eq (id_of a) id ≡ true) new
      → keep (λ a. text_eq (id_of a) id) (rows ++ new) ≡ new
  keep_new id rows new chains absent known own =
      keep-append (λ a. text_eq (id_of a) id) rows new
      ∙ rw (none_of id rows chains absent known, all_of id new own) refl

pub insert_impact_chain_lem :
    (db : Queries) (t t' : Tables) (r : ImpactChainRecord) (ns : List ImpactChainNodeRecord)
    (es : List ImpactChainEdgeRecord)
    → insert_impact_chain db t r ns es ≡ ok t'
    → IsInserted t r ns es t'
unfolding insert_impact_chain
insert_impact_chain_lem db t t' r ns es h =
    let (t1, first, more) = >>=-eq-ok (insert_chain db t r) _ h in
    let (t2, second, third) = >>=-eq-ok (insert_nodes t1 ns) _ more in
    let (absent, made) = insert_chain_lem db t t1 r first in
    let (chains, nodes, edges, known) = insert_nodes_lem t1 t2 ns second in
    let (chains', nodes', edges', known') = insert_edges_lem t2 t' es third in
    (
      absent,
      chains' ∙ chains ∙ ap (λ x. x.impact_chain) (sym made),
      nodes' ∙ nodes ∙ ap (λ x. x.impact_chain_node ++ ns) (sym made),
      edges' ∙ ap (λ x. x ++ es) (edges ∙ ap (λ x. x.impact_chain_edge) (sym made)),
      subst (AreKnown (λ n. n.chain_id) ns) (sym (chains' ∙ chains)) known,
      subst (AreKnown (λ e. e.chain_id) es) (sym chains') known',
    )

-- Where every row of a node and of an edge belongs to a chain, it does so after an insertion.
pub insert_impact_chain-IsReferring :
    (db : Queries) (t t' : Tables) (r : ImpactChainRecord) (ns : List ImpactChainNodeRecord)
    (es : List ImpactChainEdgeRecord)
    → insert_impact_chain db t r ns es ≡ ok t'
    → IsReferring t
    → IsReferring t'
unfolding IsReferring
insert_impact_chain-IsReferring db t t' r ns es h (nodes_known, edges_known) =
    let (absent, chains, nodes, edges, known, known') = insert_impact_chain_lem db t t' r ns es h in
    let node_id = λ (n : ImpactChainNodeRecord). n.chain_id in
    let edge_id = λ (e : ImpactChainEdgeRecord). e.chain_id in
    (
      subst (λ x. AreKnown node_id x t'.impact_chain) (sym nodes)
          (known_append node_id t.impact_chain_node ns t'.impact_chain
            (subst (AreKnown node_id t.impact_chain_node) (sym chains)
              (known_more node_id t.impact_chain_node t.impact_chain (r ∷ []) nodes_known))
            known),
      subst (λ x. AreKnown edge_id x t'.impact_chain) (sym edges)
          (known_append edge_id t.impact_chain_edge es t'.impact_chain
            (subst (AreKnown edge_id t.impact_chain_edge) (sym chains)
              (known_more edge_id t.impact_chain_edge t.impact_chain (r ∷ []) edges_known))
            known'),
    )

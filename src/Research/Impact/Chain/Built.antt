-- ===== src/Research/Impact/Chain/Built.antt =====
-- Which chains are built (research/impact/chain.py, `ImpactChain.__post_init__`).
use mathlib.Core.Path.{subst, sym}
use research_os.Common.{
  Bool, true, false, not, some, Result, ok, err, List, [], ◌∷◌, map, is_empty, ◌≡◌, ◌≢◌, refl, ◌↔◌,
  ◌⊎◌, inl, inr, Every, arith, guard, ◌>>=◌, ◌>>◌, if◌then◌else◌,
}
use research_os.Common.Text.{Text, text_eq_iff, is_blank, is_space, strip}
use research_os.Research.Candidate.{require_text}
use research_os.Research.Impact.Cycle.{is_in, has_cycle}
use research_os.Research.Impact.Cycle.Walks.{Among, is_in_iff}
use research_os.Research.Impact.Cycle.Correct.{HasEnds, Trail, has_cycle_iff}
use research_os.Research.Impact.Chain.{
  search_cut_off, ImpactNode, ImpactEdge, ImpactChain, arc, set_of, node_ids, check_edges,
  refuse_cycle, new_impact_chain, lift, chain_has_no_nodes,
}

-- Adding an element to a set, on the test whether it is there.
among_add_iff :
    (b : Bool) (y : Text) (rest : List Text) (x : Text)
    → (b ≡ true → Among y rest)
    → Among x (if b then rest else y ∷ rest) ↔ ((x ≡ y) ⊎ Among x rest)
unfolding Among
among_add_iff true y rest x h = (
  λ m. inr m,
  λ m. elim m [ inl same ↦ subst (λ z. Among z rest) (sym same) (h refl) | inr r ↦ r ],
)
among_add_iff false y rest x h = (λ m. m, λ m. m)

set_of_iff : (xs : List Text) (x : Text) → Among x (set_of xs) ↔ Among x xs
unfolding set_of Among
set_of_iff [] x = (λ h. h, λ h. h)
set_of_iff (y ∷ ys) x =
    let rest = set_of_iff ys x in
    let added = among_add_iff (is_in (set_of ys) y) y (set_of ys) x (is_in_iff (set_of ys) y).0 in
    (
      λ h. elim (added.0 h) [ inl e ↦ inl e | inr r ↦ inr (rest.0 r) ],
      λ h. added.1 (elim h [ inl e ↦ inl e | inr r ↦ inr (rest.1 r) ]),
    )

check_edges_iff :
    (ids : List Text) (edges : List ImpactEdge)
    → (check_edges ids edges ≡ ok tt)
      ↔ Every (λ e. HasEnds ids (arc e) × (e.from_node_id ≢ e.to_node_id)) edges
unfolding check_edges HasEnds
check_edges_iff ids [] = (λ h. tt, λ h. refl)
check_edges_iff ids (e ∷ edges) =
    let source = is_in_iff ids e.from_node_id in
    let target = is_in_iff ids e.to_node_id in
    let same = text_eq_iff e.from_node_id e.to_node_id in
    let rest = check_edges_iff ids edges in
    (
      λ h. ground (arith, source, target, same, rest),
      λ h. ground (arith, source, target, same, rest),
    )

ends_change :
    (ids ids' : List Text)
    → ((x : Text) → Among x ids → Among x ids')
    → (edges : List ImpactEdge)
    → Every (λ e. HasEnds ids (arc e) × (e.from_node_id ≢ e.to_node_id)) edges
    → Every (λ e. HasEnds ids' (arc e) × (e.from_node_id ≢ e.to_node_id)) edges
unfolding HasEnds
ends_change ids ids' f [] h = tt
ends_change ids ids' f (e ∷ edges) (((from, to), differ), h) =
    (((f e.from_node_id from, f e.to_node_id to), differ), ends_change ids ids' f edges h)

arcs_ends :
    (ids : List Text) (edges : List ImpactEdge)
    → Every (λ e. HasEnds ids (arc e) × (e.from_node_id ≢ e.to_node_id)) edges
    → Every (HasEnds ids) (map arc edges)
arcs_ends ids [] h = tt
arcs_ends ids (e ∷ edges) ((ends, differ), h) = (ends, arcs_ends ids edges h)

-- The edges name two different nodes each.
unfoldable pub HasProperEdges : List ImpactNode → List ImpactEdge → Type 0
unfolding HasEnds
HasProperEdges nodes edges =
    Every (λ e. HasEnds (map (λ n. n.node_id) nodes) (arc e) × (e.from_node_id ≢ e.to_node_id))
      edges

proper_edges_iff :
    (nodes : List ImpactNode) (edges : List ImpactEdge)
    → (check_edges (node_ids nodes) edges ≡ ok tt) ↔ HasProperEdges nodes edges
unfolding HasProperEdges node_ids HasEnds
proper_edges_iff nodes edges =
    let ids = map (λ n. n.node_id) nodes in
    (
      λ h.
          ends_change (set_of ids) ids (λ x. (set_of_iff ids x).0) edges
            ((check_edges_iff (set_of ids) edges).0 h),
      λ h.
          (check_edges_iff (set_of ids) edges).1
            (ends_change ids (set_of ids) (λ x. (set_of_iff ids x).1) edges h),
    )

-- A block of four calls, of which only the first gives a value.
block_ok_iff :
    {E A C : Type 0}
    → (a : Result E A) → (b c d : Result E (Unit {0})) → (f : A → C)
    → ((x : C) × ((do i ← a; b; c; d; ok (f i)) ≡ ok x))
      ↔ (((i : A) × (a ≡ ok i)) × (b ≡ ok tt) × (c ≡ ok tt) × (d ≡ ok tt))
block_ok_iff (ok i) (ok u) (ok v) (ok w) f = (λ h. ((i, refl), refl, refl, refl), λ h. (f i, refl))
block_ok_iff (err e) b c d f = (λ (x, h). cc, λ ((i, h), k, l, m). cc)
block_ok_iff (ok i) (err e) c d f = (λ (x, h). cc, λ (h, k, l, m). cc)
block_ok_iff (ok i) (ok u) (err e) d f = (λ (x, h). cc, λ (h, k, l, m). cc)
block_ok_iff (ok i) (ok u) (ok v) (err e) f = (λ (x, h). cc, λ (h, k, l, m). cc)

block-eq-err :
    {E A C : Type 0}
    → (a : Result E A) → (b c d : Result E (Unit {0})) → (f : A → C) → {raised : E}
    → (do i ← a; b; c; d; ok (f i)) ≡ err raised
    → (a ≡ err raised) ⊎ (b ≡ err raised) ⊎ (c ≡ err raised) ⊎ ((c ≡ ok tt) × (d ≡ err raised))
block-eq-err (ok i) (ok u) (ok v) (ok w) f h = cc
block-eq-err (err e) b c d f h = inl cc
block-eq-err (ok i) (err e) c d f h = inr (inl cc)
block-eq-err (ok i) (ok u) (err e) d f h = inr (inr (inl cc))
block-eq-err (ok i) (ok u) (ok v) (err e) f h = inr (inr (inr (refl, cc)))

require_text_iff :
    (value : Text) → ((t : Text) × (lift (require_text value) ≡ ok t)) ↔ (is_blank value ≡ false)
unfolding require_text
require_text_iff value =
    (λ (t, h). ground (arith, h), λ h. (strip is_space value, ground (arith, h)))

require_text-never : (value : Text) → lift (require_text value) ≢ err search_cut_off
unfolding require_text
require_text-never value h = ground (arith, h)

check_edges-never :
    (ids : List Text) (edges : List ImpactEdge) → check_edges ids edges ≢ err search_cut_off
unfolding check_edges
check_edges-never ids [] h = cc
check_edges-never ids (e ∷ edges) h = ground (arith, h, check_edges-never ids edges)

has_node_iff :
    (nodes : List ImpactNode)
    → (guard (not (is_empty nodes)) chain_has_no_nodes ≡ ok tt) ↔ (is_empty nodes ≡ false)
has_node_iff nodes = (λ h. ground (arith, h), λ h. ground (arith, h))

has_node-never :
    (nodes : List ImpactNode) → guard (not (is_empty nodes)) chain_has_no_nodes ≢ err search_cut_off
has_node-never nodes h = ground (arith, h)

refuse_some_iff : {P : Type 0} (b : Bool) → (b ≡ true) ↔ P → (refuse_cycle (some b) ≡ ok tt) ↔ ¬ P
refuse_some_iff true same = (λ e. cc, λ none. absurd (none (same.0 refl)))
refuse_some_iff false same = (λ e p. let absurd_eq = same.1 p in cc, λ none. refl)

refuse_some-never : (b : Bool) → refuse_cycle (some b) ≢ err search_cut_off
refuse_some-never true e = cc
refuse_some-never false e = cc

module _ (iterate : List Text → List Text)
    (kept : (xs : List Text) (x : Text) → Among x (iterate xs) ↔ Among x xs) (chain_id : Text)
    (nodes : List ImpactNode) (edges : List ImpactEdge) where
  -- What the search returns once the edges were checked.
  searched :
      check_edges (node_ids nodes) edges ≡ ok tt
      → (b : Bool) × (has_cycle iterate (node_ids nodes) (map arc edges) ≡ some b)
        × ((b ≡ true) ↔ ((x : Text) × Trail (map arc edges) x x))
  searched h =
      has_cycle_iff iterate kept (node_ids nodes) (map arc edges)
        (arcs_ends (node_ids nodes) edges ((check_edges_iff (node_ids nodes) edges).0 h))

  refuse_iff :
      check_edges (node_ids nodes) edges ≡ ok tt
      → (refuse_cycle (has_cycle iterate (node_ids nodes) (map arc edges)) ≡ ok tt)
        ↔ ¬ ((x : Text) × Trail (map arc edges) x x)
  refuse_iff h =
      let (b, found, same) = searched h in
      subst (λ o. (refuse_cycle o ≡ ok tt) ↔ ¬ ((x : Text) × Trail (map arc edges) x x)) (sym found)
        (refuse_some_iff b same)

  refuse-never :
      check_edges (node_ids nodes) edges ≡ ok tt
      → refuse_cycle (has_cycle iterate (node_ids nodes) (map arc edges)) ≢ err search_cut_off
  refuse-never h =
      let (b, found, same) = searched h in
      subst (λ o. refuse_cycle o ≢ err search_cut_off) (sym found) (refuse_some-never b)

  abbrev built : Text → ImpactChain
  built i = record { chain_id = i; nodes = nodes; edges = edges }

  -- Whatever the order of the sets, a chain is built from these parts exactly if its identifier is
  -- not blank, it has a node, every edge joins two different nodes of the chain, and no walk along
  -- the edges leads back to its start; and the search that tests the last of these is never cut off.
  pub new_impact_chain-ok_iff :
      (((c : ImpactChain) × (new_impact_chain iterate chain_id nodes edges ≡ ok c)) ↔ (
        (is_blank chain_id ≡ false)
        × (is_empty nodes ≡ false)
        × HasProperEdges nodes edges
        × ¬ ((x : Text) × Trail (map arc edges) x x)))
      × (new_impact_chain iterate chain_id nodes edges ≢ err search_cut_off)
  unfolding new_impact_chain
  new_impact_chain-ok_iff =
      let name = lift (require_text chain_id) in
      let has_node = guard (not (is_empty nodes)) chain_has_no_nodes in
      let checked = check_edges (node_ids nodes) edges in
      let refused = refuse_cycle (has_cycle iterate (node_ids nodes) (map arc edges)) in
      let block = block_ok_iff name has_node checked refused (λ i. built i) in
      (
        (
          λ h.
              let (a, b, c, d) = block.0 h in
              (
                (require_text_iff chain_id).0 a,
                (has_node_iff nodes).0 b,
                (proper_edges_iff nodes edges).0 c,
                (refuse_iff c).0 d,
              ),
          λ (a, b, c, d).
              let proper = (proper_edges_iff nodes edges).1 c in
              block.1 (
                (require_text_iff chain_id).1 a,
                (has_node_iff nodes).1 b,
                proper,
                (refuse_iff proper).1 d,
              ),
        ),
        λ h. elim (block-eq-err name has_node checked refused (λ i. built i) h) [
          | inl a ↦ require_text-never chain_id a
          | inr (inl b) ↦ has_node-never nodes b
          | inr (inr (inl c)) ↦ check_edges-never (node_ids nodes) edges c
          | inr (inr (inr (c, d))) ↦ refuse-never c d
        ],
      )

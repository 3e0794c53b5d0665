-- ===== src/Application/ImpactChains/Fits.antt =====
-- Reading rows, and what the constructor of a chain asks of its parts, for parts in another order.
use mathlib.Core.Path.{subst}
use mathlib.Core.List.{Permᴰ}
use mathlib.Core.List.Permᴰ
use research_os.Common.{
  Every-permᴰ, false, not, Result, ok, err, List, [], ◌∷◌, map, guard, ◌≡◌, ◌≢◌, refl, sym, ap, ◌∙◌,
  ◌↔◌, inl, inr, Every, Some, Bool-cases, >>=-eq-ok, ok-eq-ok, is_empty,
}
use research_os.Common.Text.{Text, is_blank}
use research_os.Research.Candidate.{require_text}
use research_os.Research.Impact.Cycle.{Arc, has_cycle}
use research_os.Research.Impact.Cycle.Walks.{Among}
use research_os.Research.Impact.Cycle.Correct.{HasEnds, Connects, Trail, single, more}
use research_os.Research.Impact.Chain.{
  ImpactNode, ImpactEdge, ImpactChain, arc, new_impact_chain, lift, node_ids, check_edges,
  refuse_cycle, chain_has_no_nodes,
}
use research_os.Research.Impact.Chain.Built.{HasProperEdges, new_impact_chain-ok_iff}
use research_os.Data.Records.{DataError}
use research_os.Data.ImpactChains.{read_rows, require_opaque_id}
use research_os.Application.ImpactChains.{ImpactChainError, from_data, each}
use research_os.Application.ImpactChains.Constructed.{
  lift-eq-ok, require_text_again, require_text_blank,
}
use research_os.Application.ImpactChains.Rows.{again}

module _ {A : Type 0} (P : A → Type 0) where
  pub Some-permᴰ : {xs ys : List A} → Permᴰ xs ys → Some P xs → Some P ys
  Some-permᴰ Permᴰ.nil h = h
  Some-permᴰ (Permᴰ.cons e p) (inl h) = inl (subst P e h)
  Some-permᴰ (Permᴰ.cons e p) (inr h) = inr (Some-permᴰ p h)
  Some-permᴰ (Permᴰ.swap d e) (inl h) = inr (inl (subst P d h))
  Some-permᴰ (Permᴰ.swap d e) (inr (inl h)) = inl (subst P e h)
  Some-permᴰ (Permᴰ.swap d e) (inr (inr h)) = inr (inr h)
  Some-permᴰ (Permᴰ.trans p q) h = Some-permᴰ q (Some-permᴰ p h)

Trail-permᴰ : {es ds : List Arc} → Permᴰ es ds → {u v : Text} → Trail es u v → Trail ds u v
unfolding Connects
Trail-permᴰ p (single c) = single (Some-permᴰ _ p c)
Trail-permᴰ p (more c t) = more (Some-permᴰ _ p c) (Trail-permᴰ p t)

module _ {A B : Type 0} where
  pub each_lem :
      (f : A → Result ImpactChainError B) (g : A → B) (xs : List A)
      → Every (λ x. f x ≡ ok (g x)) xs
      → each f xs ≡ ok (map g xs)
  unfolding each
  each_lem f g [] h = refl
  each_lem f g (x ∷ xs) (h, hs) = rw (h, each_lem f g xs hs) refl

pub read_rows_lem :
    {A : Type 0} (read : A → Result DataError A) (xs : List A)
    → Every (λ x. read x ≡ ok x) xs
    → read_rows read xs ≡ ok xs
unfolding read_rows
read_rows_lem read [] h = refl
read_rows_lem read (x ∷ xs) (h, hs) = rw (h, read_rows_lem read xs hs) refl

pub opaque_id_written : (v : Text) → is_blank v ≡ false → require_opaque_id v ≡ ok tt
opaque_id_written v h = rw h refl

node_ids-again :
    (id : Text) (nodes : List ImpactNode)
    → map (λ n. n.node_id) (map (again id) nodes) ≡ map (λ n. n.node_id) nodes
node_ids-again id [] = refl
node_ids-again id (n ∷ nodes) = ap (λ x. n.node_id ∷ x) (node_ids-again id nodes)

is_empty-again :
    (id : Text) (nodes : List ImpactNode) → is_empty (map (again id) nodes) ≡ is_empty nodes
is_empty-again id [] = refl
is_empty-again id (n ∷ nodes) = refl

pub from_data-eq-ok :
    {A : Type 0} (call : Result DataError A) {a : A} → from_data call ≡ ok a → call ≡ ok a
from_data-eq-ok (ok b) h = ap ok (ok-eq-ok h)
from_data-eq-ok (err e) h = cc

pub built_fields :
    (iterate : List Text → List Text) (id : Text) (nodes : List ImpactNode)
    (edges : List ImpactEdge) (c : ImpactChain)
    → new_impact_chain iterate id nodes edges ≡ ok c
    → (require_text id ≡ ok c.chain_id) × (nodes ≡ c.nodes) × (edges ≡ c.edges)
unfolding new_impact_chain
built_fields iterate id nodes edges c h =
    let (i, named, more1) = >>=-eq-ok (lift (require_text id)) _ h in
    let (u, has_node, more2) =
      >>=-eq-ok (guard (not (is_empty nodes)) chain_has_no_nodes) _ more1 in
    let (v, checked_edges, more3) = >>=-eq-ok (check_edges (node_ids nodes) edges) _ more2 in
    let (w, acyclic, built) =
      >>=-eq-ok (refuse_cycle (has_cycle iterate (node_ids nodes) (map arc edges))) _ more3 in
    let made = ok-eq-ok built in
    (
      lift-eq-ok (require_text id) named ∙ ap (λ x. ok x.chain_id) made,
      ap (λ x. x.nodes) made,
      ap (λ x. x.edges) made,
    )

-- A chain that the constructor built
abbrev pub IsChain : (List Text → List Text) → ImpactChain → Type 0
IsChain iterate c =
    (id : Text) × (nodes : List ImpactNode) × (edges : List ImpactEdge) × (new_impact_chain iterate
        id nodes edges
      ≡ ok c)

text_written : (t : Text) → require_text t ≡ ok t → is_blank t ≡ false
text_written t h = elim (Bool-cases (is_blank t)) [
  | inl blank ↦ absurd (require_text_blank t t blank h)
  | inr written ↦ written
]

abbrev pub Fits : Text → List ImpactNode → List ImpactEdge → Type 0
Fits id nodes edges =
    (is_blank id ≡ false)
    × (is_empty nodes ≡ false)
    × HasProperEdges nodes edges
    × ¬ ((x : Text) × Trail (map arc edges) x x)

pub chain-Fits :
    (iterate : List Text → List Text)
    (kept : (xs : List Text) (x : Text) → Among x (iterate xs) ↔ Among x xs) (c : ImpactChain)
    → IsChain iterate c
    → Fits c.chain_id c.nodes c.edges × (require_text c.chain_id ≡ ok c.chain_id)
chain-Fits iterate kept c (id, nodes, edges, h) =
    let (named, same_nodes, same_edges) = built_fields iterate id nodes edges c h in
    let (written, has_node, proper, acyclic) =
      (new_impact_chain-ok_iff iterate kept id nodes edges).0.0 (c, h) in
    let again_id = require_text_again id c.chain_id named in
    (
      (
        text_written c.chain_id again_id,
        subst (λ x. is_empty x ≡ false) same_nodes has_node,
        subst (λ x. HasProperEdges x c.edges) same_nodes
            (subst (HasProperEdges nodes) same_edges proper),
        subst (λ x. ¬ ((y : Text) × Trail (map arc x) y y)) same_edges acyclic,
      ),
      again_id,
    )

pub again-Fits :
    (id : Text) (nodes : List ImpactNode) (edges edges' : List ImpactEdge)
    → Permᴰ edges' edges
    → Fits id nodes edges
    → Fits id (map (again id) nodes) edges'
unfolding HasProperEdges
again-Fits id nodes edges edges' p (written, has_node, proper, acyclic) = (
  written,
  is_empty-again id nodes ∙ has_node,
  subst (λ ids. Every (λ e. HasEnds ids (arc e) × (e.from_node_id ≢ e.to_node_id)) edges')
      (sym (node_ids-again id nodes)) (Every-permᴰ _ (Permᴰ.symm p) proper),
  λ (x, t). acyclic (x, Trail-permᴰ (Permᴰ.map arc p) t),
)

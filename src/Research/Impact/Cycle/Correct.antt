-- ===== src/Research/Impact/Cycle/Correct.antt =====
-- The search of research/impact/chain.py ends, and finds a cycle exactly if there is one.
use mathlib.Core.Path.{subst, sym}
use research_os.Common.{
  Bool, true, false, none, some, List, [], ◌∷◌, length, ◌≡◌, refl, inl, inr, ◌↔◌, Every, Some,
  arith,
}
use research_os.Common.Text.{Text, text_eq_iff}
use research_os.Research.Impact.Cycle.{
  Arc, adjacency, Outcome, cycle, clear, out_of_fuel, search_from, has_cycle,
}
use research_os.Research.Impact.Cycle.Walks.{
  Among, Walk, IsTopological, topological-acyclic, every-among,
}
use research_os.Research.Impact.Cycle.Finish.{Post, Finished, search_lem, unvisited-length}

-- The end nodes of an edge are nodes.
unfoldable pub HasEnds : List Text → Arc → Type 0
unfolding Among
HasEnds nodes e = Among e.from_node_id nodes × Among e.to_node_id nodes

-- An edge of the list leads from one node to the other.
unfoldable pub Connects : List Arc → Text → Text → Type 0
Connects edges u v = Some (λ e. (e.from_node_id ≡ u) × (v ≡ e.to_node_id)) edges

-- A walk along the edges, of one edge or more.
pub data Trail (edges : List Arc) : Text → Text → Type 0 where
  single : {u v : Text} → Connects edges u v → Trail edges u v
  more : {u v w : Text} → Connects edges u v → Trail edges v w → Trail edges u w

adjacency_iff : (edges : List Arc) (u v : Text) → Among v (adjacency edges u) ↔ Connects edges u v
unfolding adjacency Among Connects
adjacency_iff [] u v = (λ h. h, λ h. h)
adjacency_iff (e ∷ edges) u v =
    let same = text_eq_iff e.from_node_id u in
    let rest = adjacency_iff edges u v in
    (λ h. ground (arith, same, rest), λ h. ground (arith, same, rest))

connects_ends :
    (nodes : List Text) (edges : List Arc) (u v : Text)
    → Every (HasEnds nodes) edges
    → Connects edges u v
    → Among u nodes × Among v nodes
unfolding Connects HasEnds
connects_ends nodes (e ∷ edges) u v (ends, h) (inl (from_u, to_v)) =
    (subst (λ x. Among x nodes) from_u ends.0, subst (λ x. Among x nodes) (sym to_v) ends.1)
connects_ends nodes (e ∷ edges) u v (ends, h) (inr m) = connects_ends nodes edges u v h m
connects_ends nodes [] u v h m = absurd m

every_iff : {P : Text → Type 0} (vs : List Text) → ((v : Text) → Among v vs → P v) → Every P vs
unfolding Among
every_iff [] h = tt
every_iff (v ∷ vs) h = (h v (inl refl), every_iff vs (λ w m. h w (inr m)))

-- Python goes through a set in some order.
module _ (iterate : List Text → List Text)
    (kept : (xs : List Text) (x : Text) → Among x (iterate xs) ↔ Among x xs) (node_ids : List Text)
    (edges : List Arc) (ends : Every (HasEnds node_ids) edges) where
  abbrev neighbors : Text → List Text
  neighbors u = iterate (adjacency edges u)

  neighbors_iff : (u v : Text) → Among v (neighbors u) ↔ Connects edges u v
  neighbors_iff u v = (
    λ m. (adjacency_iff edges u v).0 ((kept (adjacency edges u) v).0 m),
    λ c. (kept (adjacency edges u) v).1 ((adjacency_iff edges u v).1 c),
  )

  Trail-of_Walk : {u v : Text} → Walk neighbors u v → Trail edges u v
  Trail-of_Walk (Walk.edge {u} {v} m) = single ((neighbors_iff u v).0 m)
  Trail-of_Walk (Walk.step {u} {v} m p) = more ((neighbors_iff u v).0 m) (Trail-of_Walk p)

  Walk-of_Trail : {u v : Text} → Trail edges u v → Walk neighbors u v
  Walk-of_Trail (single {u} {v} c) = Walk.edge ((neighbors_iff u v).1 c)
  Walk-of_Trail (more {u} {v} c p) = Walk.step ((neighbors_iff u v).1 c) (Walk-of_Trail p)

  trail_starts : {u v : Text} → Trail edges u v → Among u node_ids
  trail_starts (single {u} {v} c) = (connects_ends node_ids edges u v ends c).0
  trail_starts (more {u} {v} c p) = (connects_ends node_ids edges u v ends c).0

  decided :
      (o : Outcome)
      → Post neighbors node_ids (record { visited = []; rec_stack = [] }) [] (iterate node_ids) o
      → (b : Bool) × (elim o [ clear s ↦ some false | cycle ↦ some true | out_of_fuel ↦ none ]
          ≡ some b)
        × ((b ≡ true) ↔ ((x : Text) × Trail edges x x))
  unfolding Post
  decided cycle (x, p) = (true, refl, (λ h. (x, Trail-of_Walk p), λ h. refl))
  decided out_of_fuel p = absurd p
  decided (clear t) p = (
    false,
    refl,
    (
      λ h. cc,
      λ (x, q). absurd (
          topological-acyclic neighbors p.done' x p.finished.topological
            (every-among neighbors p.done' (iterate node_ids) x p.all
              ((kept node_ids x).1 (trail_starts q)))
            (Walk-of_Trail q)),
    ),
  )

  start : Finished neighbors node_ids [] (record { visited = []; rec_stack = [] })
  unfolding Among IsTopological
  start = record { topological = tt; split = λ x m. absurd m }

  -- Where both ends of every edge are nodes, and whatever the order in which Python goes through its
  -- sets, the search returns: it is True exactly if some walk along the edges leads back to its start.
  pub has_cycle_iff :
      (b : Bool) × (has_cycle iterate node_ids edges ≡ some b)
      × ((b ≡ true) ↔ ((x : Text) × Trail edges x x))
  unfolding has_cycle
  has_cycle_iff = decided (search_from neighbors (length node_ids) (iterate node_ids) _) (
      search_lem neighbors node_ids
        (λ u.
          every_iff (neighbors u)
            (λ v m. (connects_ends node_ids edges u v ends ((neighbors_iff u v).0 m)).1))
        (length node_ids) (iterate node_ids) (record { visited = []; rec_stack = [] }) [] refl
        (unvisited-length node_ids) (every_iff (iterate node_ids) (λ u m. (kept node_ids u).0 m))
        start)

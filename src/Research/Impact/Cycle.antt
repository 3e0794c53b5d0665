-- ===== src/Research/Impact/Cycle.antt =====
pub mod Walks
pub mod Finish
pub mod Correct
-- research/impact/chain.py: `_has_cycle`, a depth-first search with the sets `visited` and
-- `rec_stack`. A set is the list of its elements, the last one added first.
use research_os.Common.{
  ℕ, zero, suc, Bool, true, false, Option, none, some, List, [], ◌∷◌, any, length, keep, map,
  if◌then◌else◌,
}
use research_os.Common.Text.{Text, text_eq}

-- An edge by the identifiers of its ends.
pub record Arc : Type 0 where
  pub from_node_id : Text
  pub to_node_id : Text

abbrev pub is_in : List Text → Text → Bool
is_in ids item = any (text_eq item) ids

abbrev pub leaves : Text → Arc → Bool
leaves u e = text_eq e.from_node_id u

-- `adjacency[u]`, in the order of the edges; a repeated neighbour is skipped by the search.
pub adjacency : List Arc → Text → List Text
adjacency edges u = map (λ e. e.to_node_id) (keep (leaves u) edges)

pub record Search : Type 0 where
  pub visited : List Text
  pub rec_stack : List Text

pub remove : List Text → Text → List Text
remove [] u = []
remove (x ∷ xs) u = if text_eq x u then xs else x ∷ remove xs u

-- `visit` returned True, or False in a state, or it was given too little fuel.
pub data Outcome : Type 0 where
  cycle out_of_fuel : Outcome
  clear : Search → Outcome

abbrev pub enter : Text → Search → Search
enter u s = record { visited = u ∷ s.visited; rec_stack = u ∷ s.rec_stack }

pub leave : Text → Outcome → Outcome
unfolding remove
leave u (clear s) = clear (record s { rec_stack = remove s.rec_stack u })
leave u o = o

-- The loop over the neighbours, with the call that visits one of them.
pub scan : (Text → Search → Outcome) → List Text → Search → Outcome
scan go [] s = clear s
scan go (v ∷ vs) s = elim (is_in s.visited v) [
  | false ↦ elim (go v s) [ clear t ↦ scan go vs t | o ↦ o ]
  | true ↦ elim (is_in s.rec_stack v) [ true ↦ cycle | false ↦ scan go vs s ]
]

module _ (neighbors : Text → List Text) where
  -- `visit`, whose fuel bounds the depth of the recursion.
  pub visit : ℕ → Text → Search → Outcome
  unfolding leave scan
  visit zero u s = out_of_fuel
  visit (suc fuel) u s = leave u (scan (visit fuel) (neighbors u) (enter u s))

  -- The loop over the nodes.
  pub search_from : ℕ → List Text → Search → Outcome
  unfolding visit
  search_from fuel [] s = clear s
  search_from fuel (u ∷ us) s = elim (is_in s.visited u) [
    | false ↦ elim (visit fuel u s) [ clear t ↦ search_from fuel us t | o ↦ o ]
    | true ↦ search_from fuel us s
  ]

-- `iterate` is the order in which Python goes through a set; `none` is too little fuel.
unfoldable pub has_cycle : (List Text → List Text) → List Text → List Arc → Option Bool
unfolding adjacency search_from
has_cycle iterate node_ids edges =
    elim (search_from (λ u. iterate (adjacency edges u)) (length node_ids) (iterate node_ids)
      (record { visited = []; rec_stack = [] })) [
        | clear s ↦ some false
        | cycle ↦ some true
        | out_of_fuel ↦ none
      ]

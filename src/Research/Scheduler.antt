-- ===== src/Research/Scheduler.antt =====
-- research/scheduler/score.py and types.py, with the cells of research/coverage/types.py. The explanations
-- of a score are left out. The bonus of an age, which the source computes in floats, is a function.
pub mod Bounds
pub mod Keys
pub mod Order
mod Examples
use research_os.Common.{
  ℕ, suc, ◌+◌, ◌-◌, ◌*◌, Bool, true, false, not, ◌&&◌, ◌||◌, Option, none, some, ℤ, pos, negsuc,
  List, [], ◌∷◌, map, keep, if◌then◌else◌, ltb, leb, ◌==◌,
}
use research_os.Common.Text.{Text, text_eq}

pub data CoverageState : Type 0 where
  not_applicable untested hypothesized v1_passed v2_passed v3_queued covered : CoverageState

pub record CoverageCell : Type 0 where
  pub node_canonical_key : Text
  pub identity_id : Text
  pub family_id : Text
  pub state : CoverageState
  pub missing_evidence : List Text

pub record FamilyStats : Type 0 where
  pub family_id : Text
  pub supported_count : ℕ
  pub falsified_count : ℕ

pub record BudgetView : Type 0 where
  pub daily_llm_budget_microdollars : Option ℕ
  pub consumed_microdollars : ℕ

-- `is_exhausted`
abbrev pub is_spent : Option ℕ → ℕ → Bool
is_spent none consumed = false
is_spent (some budget) consumed = leb budget consumed

-- A value of `freshness_by_node`: the times of a node, or one time
pub record NodeFreshness : Type 0 where
  pub first_seen_at : Option ℕ
  pub latest_activity_at : Option ℕ

pub data Freshness : Type 0 where
  times : NodeFreshness → Freshness
  time : ℕ → Freshness

pub record HunterScore : Type 0 where
  pub total_score : ℤ
  pub state_weight : ℤ
  pub family_success_bonus : ℤ
  pub family_exploration_bonus : ℤ
  pub freshness_bonus : ℤ
  pub budget_suitability_bonus : ℤ

pub record ScoredCell : Type 0 where
  pub cell : CoverageCell
  pub score : HunterScore

pub record HunterScoreInput : Type 0 where
  pub cells : List CoverageCell
  pub family_stats : List FamilyStats
  pub freshness_by_node : Text → Option Freshness
  pub budget_view : BudgetView
  pub reference_time : ℕ

-- `STATE_WEIGHT`
unfoldable pub state_weight_of : CoverageState → ℤ
state_weight_of untested = pos 50
state_weight_of hypothesized = pos 40
state_weight_of v1_passed = pos 30
state_weight_of v2_passed = pos 20
state_weight_of v3_queued = pos 10
state_weight_of covered = pos 0
state_weight_of not_applicable = pos 0

-- The cells with a debt
unfoldable pub is_open : CoverageState → Bool
is_open covered = false
is_open not_applicable = false
is_open _ = true

-- `a - b`
unfoldable pub minus : ℕ → ℕ → ℤ
minus a b = if leb b a then pos (a - b) else negsuc (b - suc a)

infixl 35 ◌+ℤ◌
unfoldable pub ◌+ℤ◌ : ℤ → ℤ → ℤ
unfolding minus
pos a +ℤ pos b = pos (a + b)
pos a +ℤ negsuc b = minus a (suc b)
negsuc a +ℤ pos b = minus b (suc a)
negsuc a +ℤ negsuc b = negsuc (suc (a + b))

-- `min(20, max(-20, 5 * (supported - falsified)))`
unfoldable pub success_bonus : ℕ → ℕ → ℤ
success_bonus supported falsified =
    if leb falsified supported
    then if leb 20 (5 * (supported - falsified)) then pos 20 else pos (5 * (supported - falsified))
    else if leb 20 (5 * (falsified - supported))
    then negsuc 19
    else minus 0 (5 * (falsified - supported))

abbrev pub exploration_bonus : ℕ → ℕ → ℤ
exploration_bonus supported falsified =
    if ltb (supported + falsified) 2 && falsified == 0 then pos 5 else pos 0

-- `family_stats.get(family_id)`, where a later entry of one family replaces an earlier one
unfoldable pub stats_of : List FamilyStats → Text → Option FamilyStats
stats_of [] id = none
stats_of (s ∷ stats) id = elim (stats_of stats id) [
  | some later ↦ some later
  | none ↦ if text_eq s.family_id id then some s else none
]

abbrev pub family_bonuses : Option FamilyStats → ℤ × ℤ
family_bonuses none = (pos 0, pos 5)
family_bonuses (some s) = (
  success_bonus s.supported_count s.falsified_count,
  exploration_bonus s.supported_count s.falsified_count,
)

abbrev or_first : Option ℕ → Option ℕ → Option ℕ
or_first none first = first
or_first (some latest) first = some latest

abbrev pub latest_activity : Option Freshness → Option ℕ
latest_activity none = none
latest_activity (some (time t)) = some t
latest_activity (some (times f)) = or_first f.latest_activity_at f.first_seen_at

unfoldable pub budget_bonus : Bool → CoverageState → ℤ
budget_bonus false state = pos 0
budget_bonus true v2_passed = negsuc 19
budget_bonus true v3_queued = negsuc 19
budget_bonus true untested = pos 5
budget_bonus true hypothesized = pos 5
budget_bonus true v1_passed = pos 5
budget_bonus true state = pos 0

abbrev closed_score : CoverageState → HunterScore
closed_score state = record {
  total_score = pos 0;
  state_weight = state_weight_of state;
  family_success_bonus = pos 0;
  family_exploration_bonus = pos 0;
  freshness_bonus = pos 0;
  budget_suitability_bonus = pos 0;
}

-- `max(0, z)`
abbrev pub at_least_zero : ℤ → ℤ
at_least_zero (pos n) = pos n
at_least_zero (negsuc n) = pos 0

-- `int(24 - age / 3600.0)` in floats, for an age in microseconds, which is not negative
module _ (hours_left : ℕ → ℤ) where
  -- An activity in the future has the age 0, as subtraction stops there.
  abbrev pub freshness_bonus_of : ℕ → Option ℕ → ℤ
  freshness_bonus_of reference_time none = pos 0
  freshness_bonus_of reference_time (some latest) =
      at_least_zero (hours_left (reference_time - latest))

  unfoldable pub open_score : HunterScoreInput → CoverageCell → HunterScore
  unfolding state_weight_of success_bonus stats_of budget_bonus ◌+ℤ◌
  open_score input cell =
      let weight = state_weight_of cell.state in
      let family = family_bonuses (stats_of input.family_stats cell.family_id) in
      let fresh =
        freshness_bonus_of input.reference_time
          (latest_activity (input.freshness_by_node cell.node_canonical_key)) in
      let budget =
        budget_bonus
          (is_spent input.budget_view.daily_llm_budget_microdollars
            input.budget_view.consumed_microdollars)
          cell.state in
      record {
        total_score = weight +ℤ family.0 +ℤ family.1 +ℤ fresh +ℤ budget;
        state_weight = weight;
        family_success_bonus = family.0;
        family_exploration_bonus = family.1;
        freshness_bonus = fresh;
        budget_suitability_bonus = budget;
      }

  -- `score_cell`
  unfoldable pub score_cell : HunterScoreInput → CoverageCell → HunterScore
  unfolding open_score is_open
  score_cell input cell =
      if not (is_open cell.state) then closed_score cell.state else open_score input cell

  -- The loop over the cells
  unfoldable pub scored_cells : HunterScoreInput → List CoverageCell → List ScoredCell
  unfolding is_open score_cell
  scored_cells input cells =
      map (λ c. record { cell = c; score = score_cell input c }) (keep (λ c. is_open c.state) cells)

-- `<` of two strs
unfoldable pub text_less : Text → Text → Bool
text_less s [] = false
text_less [] (b ∷ t) = true
text_less (a ∷ s) (b ∷ t) = ltb a b || (a == b && text_less s t)

unfoldable pub less : ℤ → ℤ → Bool
less (pos a) (pos b) = ltb a b
less (pos a) (negsuc b) = false
less (negsuc a) (pos b) = true
less (negsuc a) (negsuc b) = ltb b a

abbrev pub equal : ℤ → ℤ → Bool
equal (pos a) (pos b) = a == b
equal (negsuc a) (negsuc b) = a == b
equal a b = false

-- The keys `(-total_score, node_canonical_key, identity_id, family_id)` as tuples
unfoldable pub key_less : ScoredCell → ScoredCell → Bool
unfolding less text_less
key_less a b =
    less b.score.total_score a.score.total_score
    || (equal b.score.total_score a.score.total_score
        && (text_less a.cell.node_canonical_key b.cell.node_canonical_key
            || (text_eq a.cell.node_canonical_key b.cell.node_canonical_key
                && (text_less a.cell.identity_id b.cell.identity_id
                    || (text_eq a.cell.identity_id b.cell.identity_id
                        && text_less a.cell.family_id b.cell.family_id)))))

-- `list.sort`, which is stable
unfoldable pub insert_cell : ScoredCell → List ScoredCell → List ScoredCell
unfolding key_less
insert_cell x [] = x ∷ []
insert_cell x (y ∷ ys) =
    let rest = insert_cell x ys in if key_less y x then y ∷ rest else x ∷ y ∷ ys

unfoldable pub sort_cells : List ScoredCell → List ScoredCell
unfolding insert_cell
sort_cells [] = []
sort_cells (x ∷ xs) = insert_cell x (sort_cells xs)

unfoldable pub schedule : (ℕ → ℤ) → HunterScoreInput → List ScoredCell
unfolding scored_cells sort_cells
schedule hours_left input = sort_cells (scored_cells hours_left input input.cells)

-- ===== src/Research/Scheduler/Examples.antt =====
-- Three cells, one of them covered.
use mathlib.Core.List.{Permᴰ}
use research_os.Common.{ℕ, ◌-◌, ◌/◌, some, ℤ, pos, [], ◌∷◌, map, Every, List, ◌≡◌, refl, arith}
use research_os.Common.Text.{Text, codes}
use research_os.Research.Scheduler.{
  CoverageState, untested, v2_passed, covered, CoverageCell, HunterScoreInput, time, score_cell,
  schedule,
}
use research_os.Research.Scheduler.Order.{Selected, IsScheduled, IsScored, schedule_lem}
use research_os.Research.Scheduler.Bounds.{IsBetween, IsAtMostADay, score_cell-IsBetween}

abbrev cell : Text → CoverageState → CoverageCell
cell node state = record {
  node_canonical_key = node;
  identity_id = codes "user";
  family_id = codes "family";
  state = state;
  missing_evidence = [];
}

abbrev input : HunterScoreInput
input = record {
  cells = cell (codes "c") v2_passed ∷ cell (codes "b") covered ∷ cell (codes "a") untested ∷ [];
  family_stats =
      record { family_id = codes "family"; supported_count = 0; falsified_count = 6 } ∷ [];
  freshness_by_node = λ key. some (time 7200000000);
  budget_view = record { daily_llm_budget_microdollars = some 5; consumed_microdollars = 9 };
  reference_time = 10800000000;
}

abbrev hours_left : ℕ → ℤ
hours_left age = pos (24 - age / 3600000000)

at_most_a_day : (age : ℕ) → IsAtMostADay (hours_left age)
unfolding IsAtMostADay
at_most_a_day age = omega arith

order_test :
    map (λ s. s.cell.node_canonical_key) (schedule hours_left input) ≡ codes "a" ∷ codes "c" ∷ []
unfolding schedule
order_test = refl

penalty_test : (score_cell hours_left input (cell (codes "c") v2_passed)).total_score ≡ pos 3
unfolding score_cell
penalty_test = refl

schedule_lem_example :
    (selected : List CoverageCell) × Selected input.cells selected
    × Permᴰ (map (λ s. s.cell) (schedule hours_left input)) selected
    × Every (IsScored hours_left input) (schedule hours_left input)
    × IsScheduled (schedule hours_left input)
schedule_lem_example = schedule_lem hours_left input

score_cell-IsBetween_example :
    IsBetween 40 104 (score_cell hours_left input (cell (codes "c") v2_passed)).total_score
score_cell-IsBetween_example =
    score_cell-IsBetween hours_left at_most_a_day input (cell (codes "c") v2_passed)

-- ===== src/Research/Scheduler/Bounds.antt =====
-- The bounds of a score (research/scheduler/score.py, `score_cell`).
use research_os.Common.{
  ℕ, suc, ◌+◌, ◌-◌, ◌*◌, ◌≤◌, ◌<◌, ℤ, pos, negsuc, Bool, true, false, ◌&&◌, Option, none, some,
  arith, Bool-cases, inl, inr, leb, ltb, ◌==◌,
}
use research_os.Research.Scheduler.{
  CoverageState, not_applicable, untested, hypothesized, v1_passed, v2_passed, v3_queued, covered,
  CoverageCell, HunterScoreInput, FamilyStats, state_weight_of, success_bonus, exploration_bonus,
  family_bonuses, freshness_bonus_of, at_least_zero, budget_bonus, ◌+ℤ◌, minus, open_score,
  score_cell, is_open, stats_of, latest_activity, is_spent,
}

-- `-low ≤ z ≤ high`
unfoldable pub IsBetween : ℕ → ℕ → ℤ → Type 0
IsBetween low high (pos n) = n ≤ high
IsBetween low high (negsuc n) = n < low

minus-IsBetween : (low high a b : ℕ) → a ≤ high → b ≤ low → IsBetween low high (minus a b)
unfolding IsBetween minus
minus-IsBetween low high a b h k = elim (Bool-cases (leb b a)) [
  | inl below ↦ rw below (omega (arith, h, k))
  | inr above ↦ rw above (ground (arith, above, h, k))
]

add-IsBetween :
    (l h l' h' : ℕ) (x y : ℤ)
    → IsBetween l h x
    → IsBetween l' h' y
    → IsBetween (l + l') (h + h') (x +ℤ y)
unfolding IsBetween ◌+ℤ◌
add-IsBetween l h l' h' (pos a) (pos b) p q = omega (arith, p, q)
add-IsBetween l h l' h' (pos a) (negsuc b) p q =
    minus-IsBetween (l + l') (h + h') a (suc b) (omega (arith, p)) (omega (arith, q))
add-IsBetween l h l' h' (negsuc a) (pos b) p q =
    minus-IsBetween (l + l') (h + h') b (suc a) (omega (arith, q)) (omega (arith, p))
add-IsBetween l h l' h' (negsuc a) (negsuc b) p q = omega (arith, p, q)

weight-IsBetween : (state : CoverageState) → IsBetween 0 50 (state_weight_of state)
unfolding IsBetween state_weight_of
weight-IsBetween not_applicable = omega arith
weight-IsBetween untested = omega arith
weight-IsBetween hypothesized = omega arith
weight-IsBetween v1_passed = omega arith
weight-IsBetween v2_passed = omega arith
weight-IsBetween v3_queued = omega arith
weight-IsBetween covered = omega arith

success-IsBetween : (supported falsified : ℕ) → IsBetween 20 20 (success_bonus supported falsified)
unfolding IsBetween success_bonus
success-IsBetween s f = elim (Bool-cases (leb f s)) [
  | inl more ↦ elim (Bool-cases (leb 20 (5 * (s - f)))) [
    | inl cut ↦ rw (more, cut) (omega arith)
    | inr kept ↦ rw (more, kept) (ground (arith, kept))
  ]
  | inr fewer ↦ elim (Bool-cases (leb 20 (5 * (f - s)))) [
    | inl cut ↦ rw (fewer, cut) (omega arith)
    | inr kept ↦
        rw (fewer, kept)
          (minus-IsBetween 20 20 0 (5 * (f - s)) (omega arith) (ground (arith, kept)))
  ]
]

exploration-IsBetween :
    (supported falsified : ℕ) → IsBetween 0 5 (exploration_bonus supported falsified)
unfolding IsBetween
exploration-IsBetween s f = elim (Bool-cases (ltb (s + f) 2 && f == 0)) [
  | inl new ↦ rw new (omega arith)
  | inr old ↦ rw old (omega arith)
]

budget-IsBetween :
    (spent : Bool) (state : CoverageState) → IsBetween 20 5 (budget_bonus spent state)
unfolding IsBetween budget_bonus
budget-IsBetween false state = omega arith
budget-IsBetween true not_applicable = omega arith
budget-IsBetween true untested = omega arith
budget-IsBetween true hypothesized = omega arith
budget-IsBetween true v1_passed = omega arith
budget-IsBetween true v2_passed = omega arith
budget-IsBetween true v3_queued = omega arith
budget-IsBetween true covered = omega arith

pos-IsBetween : (low high n : ℕ) → n ≤ high → IsBetween low high (pos n)
unfolding IsBetween
pos-IsBetween low high n h = h

family-IsBetween :
    (stats : Option FamilyStats)
    → IsBetween 20 20 (family_bonuses stats).0 × IsBetween 0 5 (family_bonuses stats).1
family-IsBetween none = (pos-IsBetween 20 20 0 (omega arith), pos-IsBetween 0 5 5 (omega arith))
family-IsBetween (some s) = (
  success-IsBetween s.supported_count s.falsified_count,
  exploration-IsBetween s.supported_count s.falsified_count,
)

-- At most a day's hours
unfoldable pub IsAtMostADay : ℤ → Type 0
IsAtMostADay (pos n) = n ≤ 24
IsAtMostADay (negsuc n) = Unit

cut-IsBetween : (z : ℤ) → IsAtMostADay z → IsBetween 0 24 (at_least_zero z)
unfolding IsBetween IsAtMostADay
cut-IsBetween (pos n) h = h
cut-IsBetween (negsuc n) h = omega arith

module _ (hours_left : ℕ → ℤ) (a_day : (age : ℕ) → IsAtMostADay (hours_left age)) where
  fresh-IsBetween :
      (reference_time : ℕ) (latest : Option ℕ)
      → IsBetween 0 24 (freshness_bonus_of hours_left reference_time latest)
  fresh-IsBetween t none = pos-IsBetween 0 24 0 (omega arith)
  fresh-IsBetween t (some l) = cut-IsBetween (hours_left (t - l)) (a_day (t - l))

  open_score-IsBetween :
      (input : HunterScoreInput) (cell : CoverageCell)
      → IsBetween 40 104 (open_score hours_left input cell).total_score
  unfolding open_score
  open_score-IsBetween input cell =
      let (success, exploration) = family-IsBetween (stats_of input.family_stats cell.family_id) in
      add-IsBetween 20 99 20 5 _ _
        (add-IsBetween 20 75 0 24 _ _
          (add-IsBetween 20 70 0 5 _ _
            (add-IsBetween 0 50 20 20 _ _ (weight-IsBetween cell.state) success) exploration)
          (fresh-IsBetween input.reference_time
            (latest_activity (input.freshness_by_node cell.node_canonical_key))))
        (budget-IsBetween
          (is_spent input.budget_view.daily_llm_budget_microdollars
            input.budget_view.consumed_microdollars)
          cell.state)

  -- Where an age leaves at most 24 hours, every score is at least -40 and at most 104.
  pub score_cell-IsBetween :
      (input : HunterScoreInput) (cell : CoverageCell)
      → IsBetween 40 104 (score_cell hours_left input cell).total_score
  unfolding score_cell
  score_cell-IsBetween input cell = elim (Bool-cases (is_open cell.state)) [
    | inl open' ↦ rw open' (open_score-IsBetween input cell)
    | inr closed ↦ rw closed (pos-IsBetween 40 104 0 (omega arith))
  ]

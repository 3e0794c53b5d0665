-- ===== src/Research/Scheduler/Order.antt =====
-- The order of a schedule (research/scheduler/score.py, `schedule`).
use mathlib.Core.Path.{subst}
use mathlib.Core.List.{Permᴰ}
use mathlib.Core.List.Permᴰ
use research_os.Common.{
  Every-permᴰ, ℕ, ℤ, true, false, List, [], ◌∷◌, map, keep, Every, ◌≡◌, ◌≢◌, ◌⊎◌, refl, sym,
  Bool-cases, inl, inr,
}
use research_os.Research.Scheduler.{
  CoverageState, not_applicable, untested, hypothesized, v1_passed, v2_passed, v3_queued, covered,
  CoverageCell, ScoredCell, HunterScoreInput, is_open, score_cell, scored_cells, key_less,
  insert_cell, sort_cells, schedule,
}
use research_os.Research.Scheduler.Keys.{IsBefore, IsBefore-trans, key_less-true, key_less-false}

-- Every cell may stand before each of those that follow it.
unfoldable pub IsScheduled : List ScoredCell → Type 0
IsScheduled [] = Unit
IsScheduled (x ∷ xs) = Every (IsBefore x) xs × IsScheduled xs

-- The cells that are neither covered nor not applicable, in their order.
pub data Selected : List CoverageCell → List CoverageCell → Type 0 where
  none_left : Selected [] []
  take :
      {c : CoverageCell} {cs ds : List CoverageCell}
      → c.state ≢ covered
      → c.state ≢ not_applicable
      → Selected cs ds
      → Selected (c ∷ cs) (c ∷ ds)
  skip :
      {c : CoverageCell} {cs ds : List CoverageCell}
      → (c.state ≡ covered) ⊎ (c.state ≡ not_applicable)
      → Selected cs ds
      → Selected (c ∷ cs) ds

insert_nothing : (x : ScoredCell) → insert_cell x [] ≡ x ∷ []
unfolding insert_cell
insert_nothing x = refl

insert_later :
    (x y : ScoredCell) (ys : List ScoredCell)
    → key_less y x ≡ true
    → insert_cell x (y ∷ ys) ≡ y ∷ insert_cell x ys
unfolding insert_cell
insert_later x y ys h = rw h refl

insert_here :
    (x y : ScoredCell) (ys : List ScoredCell)
    → key_less y x ≡ false
    → insert_cell x (y ∷ ys) ≡ x ∷ y ∷ ys
unfolding insert_cell
insert_here x y ys h = rw h refl

insert_cell-permᴰ : (x : ScoredCell) (ys : List ScoredCell) → Permᴰ (insert_cell x ys) (x ∷ ys)
insert_cell-permᴰ x [] =
    subst (λ l. Permᴰ l (x ∷ [])) (sym (insert_nothing x)) (Permᴰ.refl (x ∷ []))
insert_cell-permᴰ x (y ∷ ys) = elim (Bool-cases (key_less y x)) [
  | inl later ↦
      subst (λ l. Permᴰ l (x ∷ y ∷ ys)) (sym (insert_later x y ys later))
        (Permᴰ.trans (Permᴰ.cons refl (insert_cell-permᴰ x ys)) (Permᴰ.swap refl refl))
  | inr here ↦
      subst (λ l. Permᴰ l (x ∷ y ∷ ys)) (sym (insert_here x y ys here)) (Permᴰ.refl (x ∷ y ∷ ys))
]

IsBefore-all :
    (x y : ScoredCell) (zs : List ScoredCell)
    → IsBefore x y
    → Every (IsBefore y) zs
    → Every (IsBefore x) zs
IsBefore-all x y [] h k = tt
IsBefore-all x y (z ∷ zs) h k = (IsBefore-trans x y z h k.0, IsBefore-all x y zs h k.1)

insert_cell-IsScheduled :
    (x : ScoredCell) (ys : List ScoredCell) → IsScheduled ys → IsScheduled (insert_cell x ys)
unfolding IsScheduled
insert_cell-IsScheduled x [] s = subst IsScheduled (sym (insert_nothing x)) (tt, tt)
insert_cell-IsScheduled x (y ∷ ys) s = elim (Bool-cases (key_less y x)) [
  | inl later ↦ subst IsScheduled (sym (insert_later x y ys later)) (
    Every-permᴰ (IsBefore y) (Permᴰ.symm (insert_cell-permᴰ x ys)) (key_less-true y x later, s.0),
    insert_cell-IsScheduled x ys s.1,
  )
  | inr here ↦
      let first = key_less-false x y here in
      subst IsScheduled (sym (insert_here x y ys here)) ((first, IsBefore-all x y ys first s.0), s)
]

sort_cells_lem : (xs : List ScoredCell) → IsScheduled (sort_cells xs) × Permᴰ (sort_cells xs) xs
unfolding sort_cells IsScheduled
sort_cells_lem [] = (tt, Permᴰ.nil)
sort_cells_lem (x ∷ xs) =
    let (sorted, same) = sort_cells_lem xs in
    (
      insert_cell-IsScheduled x (sort_cells xs) sorted,
      Permᴰ.trans (insert_cell-permᴰ x (sort_cells xs)) (Permᴰ.cons refl same),
    )

cells_scored :
    (hours_left : ℕ → ℤ) (input : HunterScoreInput) (cells : List CoverageCell)
    → map (λ s. s.cell) (scored_cells hours_left input cells) ≡ keep (λ c. is_open c.state) cells
unfolding scored_cells
cells_scored hours_left input cells =
    map_back (λ c. record { cell = c; score = score_cell hours_left input c }) (λ c. refl)
      (keep (λ c. is_open c.state) cells)
  where
    map_back :
        (f : CoverageCell → ScoredCell)
        → ((c : CoverageCell) → (f c).cell ≡ c)
        → (cs : List CoverageCell) → map (λ s. s.cell) (map f cs) ≡ cs
    map_back f g [] = refl
    map_back f g (c ∷ cs) = rw (g c, map_back f g cs) refl

open_cases :
    (state : CoverageState)
    → ((is_open state ≡ true) × (state ≢ covered) × (state ≢ not_applicable))
      ⊎ ((is_open state ≡ false) × ((state ≡ covered) ⊎ (state ≡ not_applicable)))
unfolding is_open
open_cases covered = inr (refl, inl refl)
open_cases not_applicable = inr (refl, inr refl)
open_cases untested = inl (refl, λ e. cc, λ e. cc)
open_cases hypothesized = inl (refl, λ e. cc, λ e. cc)
open_cases v1_passed = inl (refl, λ e. cc, λ e. cc)
open_cases v2_passed = inl (refl, λ e. cc, λ e. cc)
open_cases v3_queued = inl (refl, λ e. cc, λ e. cc)

Selected-keep : (cells : List CoverageCell) → Selected cells (keep (λ c. is_open c.state) cells)
Selected-keep [] = none_left
Selected-keep (c ∷ cells) = elim (open_cases c.state) [
  | inl (debt, uncovered, applicable) ↦ rw debt (take uncovered applicable (Selected-keep cells))
  | inr (settled, why) ↦ rw settled (skip why (Selected-keep cells))
]

-- The score is the one of its cell.
abbrev pub IsScored : (ℕ → ℤ) → HunterScoreInput → ScoredCell → Type 0
IsScored hours_left input s = s.score ≡ score_cell hours_left input s.cell

scores_given :
    (hours_left : ℕ → ℤ) (input : HunterScoreInput) (cells : List CoverageCell)
    → Every
        (IsScored hours_left input)
        (map (λ c. record { cell = c; score = score_cell hours_left input c }) cells)
scores_given hours_left input [] = tt
scores_given hours_left input (c ∷ cs) = (refl, scores_given hours_left input cs)

-- Whatever bonus an age gives, a schedule holds the cells that are neither covered nor not applicable, each as often as
-- the input, each with its score, and every cell in it may stand before each of those that follow it: by the higher
-- score, and among equal scores by the smaller node key, then the smaller identity, then the smaller family.
pub schedule_lem :
    (hours_left : ℕ → ℤ) (input : HunterScoreInput)
    → (selected : List CoverageCell) × Selected input.cells selected
      × Permᴰ (map (λ s. s.cell) (schedule hours_left input)) selected
      × Every (IsScored hours_left input) (schedule hours_left input)
      × IsScheduled (schedule hours_left input)
unfolding schedule scored_cells
schedule_lem hours_left input =
    let scored = scored_cells hours_left input input.cells in
    let (sorted, same) = sort_cells_lem scored in
    (
      keep (λ c. is_open c.state) input.cells,
      Selected-keep input.cells,
      subst (Permᴰ (map (λ s. s.cell) (sort_cells scored)))
          (cells_scored hours_left input input.cells) (Permᴰ.map (λ s. s.cell) same),
      Every-permᴰ (IsScored hours_left input) (Permᴰ.symm same)
          (scores_given hours_left input (keep (λ c. is_open c.state) input.cells)),
      sorted,
    )

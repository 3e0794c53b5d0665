-- ===== src/Research/Orchestration/Bounds.antt =====
-- A run stops in time, and what its stops mean (research/orchestration.py).
mod Examples
use research_os.Common.{
  ℕ, zero, suc, ◌+◌, ◌≤◌, ◌<◌, Bool, true, false, Option, none, some, ◌≡◌, ◌≢◌, refl, ◌↔◌, ◌⊎◌, inl,
  inr, arith, List, [], ◌∷◌, length,
}
use research_os.Research.Orchestration.{
  OrchestrationBounds, OrchestrationUsage, OrchestrationState, CycleOutcome, StopReason,
  NextCycleAction, is_terminal, check_orchestration_bounds, next_cycle_action,
  cycle_outcome_for_stop, orchestration_state_for_stop,
}

-- Every limit has an allowance left, and no more fallbacks than allowed were used.
pub record HasRoom (b : OrchestrationBounds) (u : OrchestrationUsage) : Type 0 where
  pub cycles : u.cycles_completed < b.max_cycles
  pub elapsed : u.elapsed_ms < b.max_elapsed_ms
  pub experiments : u.experiments_executed < b.max_experiments
  pub calls : u.model_calls < b.max_model_calls
  pub invocations : u.worker_invocations < b.max_worker_invocations
  pub fallbacks : u.runtime_fallbacks ≤ b.max_runtime_fallback

-- The next cycle goes on (with a selected opportunity, or a diagnostic) exactly if no outcome is
-- open, every limit has room, and either something is selected and no more than allowed, or nothing
-- is selected and there is no hypothesis yet or repeated control experiments are allowed. It names a
-- reason exactly if it stops.
pub next_cycle_action-goes_on_iff :
    (b : OrchestrationBounds) (u : OrchestrationUsage) (selected hypotheses : ℕ)
    (open_outcome : Bool)
    → let (action, reason) = next_cycle_action b u selected hypotheses open_outcome in
      ((action ≢ NextCycleAction.stop) ↔ (
        (open_outcome ≡ false)
        × HasRoom b u
        × (((0 < selected) × (selected ≤ b.max_selected_opportunities))
            ⊎ ((selected ≡ 0)
                × ((hypotheses ≡ 0) ⊎ (b.allow_repeated_control_experiments ≡ true))))))
      × ((action ≡ NextCycleAction.stop) ↔ (reason ≢ none))
unfolding next_cycle_action check_orchestration_bounds
next_cycle_action-goes_on_iff b u selected hypotheses open_outcome =
    ((λ h. ground arith, λ h. ground arith), (λ h. ground arith, λ h. ground arith))

-- The stop reason's cycle outcome and its durable state agree: both ask for a human, both pause, the
-- outcome is BLOCKED exactly if the state is BLOCKED or FAILED_OPERATIONAL, and it is COMPLETE exactly
-- if the state is COMPLETED or BUDGET_EXHAUSTED. No stop leaves the run ready or running.
pub stop_outcome_agrees :
    (r : StopReason)
    → let outcome = cycle_outcome_for_stop r in
      let state = orchestration_state_for_stop r in
      ((outcome ≡ CycleOutcome.require_human_review) ↔ (state ≡ OrchestrationState.waiting_human))
      × ((outcome ≡ CycleOutcome.pause) ↔ (state ≡ OrchestrationState.paused))
      × ((outcome ≡ CycleOutcome.blocked) ↔ (
          (state ≡ OrchestrationState.blocked) ⊎ (state ≡ OrchestrationState.failed_operational)))
      × ((outcome ≡ CycleOutcome.complete) ↔ (
          (state ≡ OrchestrationState.completed) ⊎ (state ≡ OrchestrationState.budget_exhausted)))
      × (state ≢ OrchestrationState.ready)
      × (state ≢ OrchestrationState.running)
unfolding cycle_outcome_for_stop orchestration_state_for_stop
stop_outcome_agrees r = ground arith

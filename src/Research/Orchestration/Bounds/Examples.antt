-- ===== src/Research/Orchestration/Bounds/Examples.antt =====
-- The next cycle of a fresh run, and a stop for an open breaker.
use research_os.Common.{ℕ, ◌≤◌, ◌<◌, true, false, none, some, ◌≡◌, ◌≢◌, refl, ◌↔◌, ◌⊎◌}
use research_os.Research.Orchestration.{
  OrchestrationBounds, OrchestrationUsage, OrchestrationState, CycleOutcome, StopReason,
  NextCycleAction, next_cycle_action, check_orchestration_bounds, cycle_outcome_for_stop,
  orchestration_state_for_stop,
}
use research_os.Research.Orchestration.Bounds.{
  HasRoom, next_cycle_action-goes_on_iff, stop_outcome_agrees,
}

abbrev bounds : OrchestrationBounds
bounds = record {
  max_cycles = 8;
  max_experiments = 8;
  max_model_calls = 20;
  max_worker_invocations = 20;
  max_elapsed_ms = 60000;
  max_selected_opportunities = 3;
  max_runtime_fallback = 1;
  side_effect_ceiling = 1;
  allow_repeated_control_experiments = false;
}

abbrev after : ℕ → OrchestrationUsage
after cycles = record {
  cycles_completed = cycles;
  experiments_executed = 2;
  model_calls = 5;
  worker_invocations = 3;
  elapsed_ms = 1200;
  opportunities_selected = 2;
  runtime_fallbacks = 1;
  worker_requests = 3;
  execution_time_ms = 900;
  artifact_bytes = 512;
}

next_cycle_action_run :
    (next_cycle_action bounds (after 2) 2 1 false
      ≡ (NextCycleAction.use_selected_opportunity, none))
    × (next_cycle_action bounds (after 8) 2 1 false
        ≡ (NextCycleAction.stop, some StopReason.max_cycles_reached))
unfolding next_cycle_action check_orchestration_bounds
next_cycle_action_run = (refl, refl)

next_cycle_action-goes_on_iff_example :
    let (action, reason) = next_cycle_action bounds (after 2) 2 1 false in
    ((action ≢ NextCycleAction.stop) ↔ (
      (false ≡ false)
      × HasRoom bounds (after 2)
      × (((0 < 2) × (2 ≤ 3)) ⊎ ((◌≡◌ {A = ℕ} 2 0) × ((◌≡◌ {A = ℕ} 1 0) ⊎ (false ≡ true))))))
    × ((action ≡ NextCycleAction.stop) ↔ (reason ≢ none))
next_cycle_action-goes_on_iff_example = next_cycle_action-goes_on_iff bounds (after 2) 2 1 false

stop_outcome_agrees_example :
    ((CycleOutcome.blocked ≡ CycleOutcome.require_human_review)
      ↔ (OrchestrationState.blocked ≡ OrchestrationState.waiting_human))
    × ((CycleOutcome.blocked ≡ CycleOutcome.pause)
        ↔ (OrchestrationState.blocked ≡ OrchestrationState.paused))
    × ((CycleOutcome.blocked ≡ CycleOutcome.blocked) ↔ (
        (OrchestrationState.blocked ≡ OrchestrationState.blocked)
        ⊎ (OrchestrationState.blocked ≡ OrchestrationState.failed_operational)))
    × ((CycleOutcome.blocked ≡ CycleOutcome.complete) ↔ (
        (OrchestrationState.blocked ≡ OrchestrationState.completed)
        ⊎ (OrchestrationState.blocked ≡ OrchestrationState.budget_exhausted)))
    × (OrchestrationState.blocked ≢ OrchestrationState.ready)
    × (OrchestrationState.blocked ≢ OrchestrationState.running)
unfolding cycle_outcome_for_stop orchestration_state_for_stop
stop_outcome_agrees_example = stop_outcome_agrees StopReason.core_blocked

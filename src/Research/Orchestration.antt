-- ===== src/Research/Orchestration.antt =====
-- research/orchestration.py: the bounds of an autonomous run, the choice of the next cycle, and what
-- a stop means.
pub mod Bounds
pub mod Config
use research_os.Common.{
  ℕ, Bool, true, false, not, ℤ, pos, negsuc, Option, none, some, Result, ok, err, List, [], ◌∷◌,
  map, any, is_empty, keep, is_some, ltb, leb, ◌==◌, ◌>>=◌, ◌>>◌, if◌then◌else◌,
}
use research_os.Common.Text.{Text, codes, text_eq}
use research_os.Common.Json.{Json}
use research_os.Research.Errors.{ResearchError, research_input_error}

pub data OrchestrationState : Type 0 where
  ready running paused waiting_human blocked budget_exhausted completed : OrchestrationState
  failed_operational : OrchestrationState

pub data StopReason : Type 0 where
  completed_no_more_opportunities budget_exhausted max_cycles_reached : StopReason
  max_duration_reached require_human_review no_compatible_runtime core_blocked : StopReason
  operator_paused operator_cancelled operational_failure content_policy_blocked : StopReason
  auth_required rate_limited cancelled : StopReason

pub data CycleOutcome : Type 0 where
  continue pause complete blocked require_human_review : CycleOutcome

pub data NextCycleAction : Type 0 where
  stop bootstrap_diagnostic use_selected_opportunity : NextCycleAction

-- `TERMINAL_ORCHESTRATION_STATES`
abbrev pub is_terminal : OrchestrationState → Bool
is_terminal OrchestrationState.completed = true
is_terminal OrchestrationState.budget_exhausted = true
is_terminal OrchestrationState.failed_operational = true
is_terminal _ = false

-- The int that passes the test is kept as a natural number.
require_non_negative : ℤ → Result ResearchError ℕ
require_non_negative (pos n) = ok n
require_non_negative (negsuc n) = err research_input_error

require_side_effect_ceiling : ℤ → Result ResearchError ℕ
require_side_effect_ceiling (pos n) = if leb n 3 then ok n else err research_input_error
require_side_effect_ceiling (negsuc n) = err research_input_error

pub record OrchestrationBounds : Type 0 where
  pub max_cycles : ℕ
  pub max_experiments : ℕ
  pub max_model_calls : ℕ
  pub max_worker_invocations : ℕ
  pub max_elapsed_ms : ℕ
  pub max_selected_opportunities : ℕ
  pub max_runtime_fallback : ℕ
  pub side_effect_ceiling : ℕ
  pub allow_repeated_control_experiments : Bool

-- `OrchestrationBounds.__post_init__`
pub new_orchestration_bounds :
    ℤ → ℤ → ℤ → ℤ → ℤ → ℤ → ℤ → ℤ → Bool → Result ResearchError OrchestrationBounds
unfolding require_non_negative require_side_effect_ceiling
new_orchestration_bounds cycles experiments model_calls invocations elapsed opportunities fallback
      ceiling repeated =
    do
      c ← require_non_negative cycles
      e ← require_non_negative experiments
      m ← require_non_negative model_calls
      w ← require_non_negative invocations
      t ← require_non_negative elapsed
      o ← require_non_negative opportunities
      f ← require_non_negative fallback
      s ← require_side_effect_ceiling ceiling
      ok (record {
        max_cycles = c;
        max_experiments = e;
        max_model_calls = m;
        max_worker_invocations = w;
        max_elapsed_ms = t;
        max_selected_opportunities = o;
        max_runtime_fallback = f;
        side_effect_ceiling = s;
        allow_repeated_control_experiments = repeated;
      })

-- Its `__post_init__` admits exactly the numbers that are not negative, which the type gives.
pub record OrchestrationUsage : Type 0 where
  pub cycles_completed : ℕ
  pub experiments_executed : ℕ
  pub model_calls : ℕ
  pub worker_invocations : ℕ
  pub elapsed_ms : ℕ
  pub opportunities_selected : ℕ
  pub runtime_fallbacks : ℕ
  pub worker_requests : ℕ
  pub execution_time_ms : ℕ
  pub artifact_bytes : ℕ

-- The text `reason` of the check is not modelled.
pub record BoundCheck : Type 0 where
  pub allowed : Bool
  pub stop_reason : Option StopReason

abbrev hit : StopReason → BoundCheck
hit reason = record { allowed = false; stop_reason = some reason }

pub check_orchestration_bounds : OrchestrationBounds → OrchestrationUsage → BoundCheck
check_orchestration_bounds bounds usage =
    if leb bounds.max_cycles usage.cycles_completed
    then hit StopReason.max_cycles_reached
    else if leb bounds.max_elapsed_ms usage.elapsed_ms
    then hit StopReason.max_duration_reached
    else if leb bounds.max_experiments usage.experiments_executed
    then hit StopReason.budget_exhausted
    else if leb bounds.max_model_calls usage.model_calls
    then hit StopReason.budget_exhausted
    else if leb bounds.max_worker_invocations usage.worker_invocations
    then hit StopReason.budget_exhausted
    else if ltb bounds.max_runtime_fallback usage.runtime_fallbacks
    then hit StopReason.no_compatible_runtime
    else record { allowed = true; stop_reason = none }

pub next_cycle_action :
    OrchestrationBounds → OrchestrationUsage → ℕ → ℕ → Bool → NextCycleAction × Option StopReason
next_cycle_action bounds usage selected_count hypothesis_count unknown_outcome_open =
    let bound = check_orchestration_bounds bounds usage in
    if unknown_outcome_open
    then (NextCycleAction.stop, some StopReason.operational_failure)
    else if not bound.allowed
    then (NextCycleAction.stop, bound.stop_reason)
    else if ltb 0 selected_count
    then (if ltb bounds.max_selected_opportunities selected_count
        then (NextCycleAction.stop, some StopReason.budget_exhausted)
        else (NextCycleAction.use_selected_opportunity, none))
    else if hypothesis_count == 0
    then (NextCycleAction.bootstrap_diagnostic, none)
    else if bounds.allow_repeated_control_experiments
    then (NextCycleAction.bootstrap_diagnostic, none)
    else (NextCycleAction.stop, some StopReason.completed_no_more_opportunities)

pub cycle_outcome_for_stop : StopReason → CycleOutcome
cycle_outcome_for_stop StopReason.require_human_review = CycleOutcome.require_human_review
cycle_outcome_for_stop StopReason.operator_paused = CycleOutcome.pause
cycle_outcome_for_stop StopReason.cancelled = CycleOutcome.complete
cycle_outcome_for_stop StopReason.core_blocked = CycleOutcome.blocked
cycle_outcome_for_stop StopReason.no_compatible_runtime = CycleOutcome.blocked
cycle_outcome_for_stop StopReason.content_policy_blocked = CycleOutcome.blocked
cycle_outcome_for_stop StopReason.operational_failure = CycleOutcome.blocked
cycle_outcome_for_stop StopReason.auth_required = CycleOutcome.blocked
cycle_outcome_for_stop StopReason.rate_limited = CycleOutcome.blocked
cycle_outcome_for_stop _ = CycleOutcome.complete

pub orchestration_state_for_stop : StopReason → OrchestrationState
orchestration_state_for_stop StopReason.budget_exhausted = OrchestrationState.budget_exhausted
orchestration_state_for_stop StopReason.require_human_review = OrchestrationState.waiting_human
orchestration_state_for_stop StopReason.operator_paused = OrchestrationState.paused
orchestration_state_for_stop StopReason.operational_failure = OrchestrationState.failed_operational
orchestration_state_for_stop StopReason.cancelled = OrchestrationState.completed
orchestration_state_for_stop StopReason.core_blocked = OrchestrationState.blocked
orchestration_state_for_stop StopReason.no_compatible_runtime = OrchestrationState.blocked
orchestration_state_for_stop StopReason.content_policy_blocked = OrchestrationState.blocked
orchestration_state_for_stop StopReason.auth_required = OrchestrationState.blocked
orchestration_state_for_stop StopReason.rate_limited = OrchestrationState.blocked
orchestration_state_for_stop _ = OrchestrationState.completed

-- A mapping is the list of its entries; the first entry of a key counts.
pub find : Text → List (Text × Json) → Option Json
find key [] = none
find key ((k, value) ∷ rest) = if text_eq k key then some value else find key rest

abbrev pub immutable_config_keys : List Text
immutable_config_keys =
    codes "research_run_id"
    ∷ codes "budget_id"
    ∷ codes "target_reference"
    ∷ codes "research_question"
    ∷ codes "policy_version"
    ∷ codes "routing_policy_version"
    ∷ codes "scope_fingerprint"
    ∷ codes "max_cycles"
    ∷ codes "max_experiments"
    ∷ codes "max_model_calls"
    ∷ codes "max_worker_invocations"
    ∷ codes "max_elapsed_ms"
    ∷ codes "max_selected_opportunities"
    ∷ codes "max_runtime_fallback"
    ∷ codes "side_effect_ceiling"
    ∷ codes "allow_repeated_control_experiments"
    ∷ []

-- A key that is missing makes the call fail.
abbrev pub with_value :
    Text
    → Option Json
    → Result ResearchError (List (Text × Json))
    → Result ResearchError (List (Text × Json))
with_value key none rest = err research_input_error
with_value key (some value) rest = do entries ← rest; ok ((key, value) ∷ entries)

-- The entries of the keys in their order.
pub canonical_entries : List Text → List (Text × Json) → Result ResearchError (List (Text × Json))
unfolding find
canonical_entries [] payload = ok []
canonical_entries (key ∷ keys) payload =
    with_value key (find key payload) (canonical_entries keys payload)

pub canonical_orchestration_config : List (Text × Json) → Result ResearchError (List (Text × Json))
unfolding canonical_entries
canonical_orchestration_config payload = canonical_entries immutable_config_keys payload

-- `digest` is json.dumps with sorted keys, and SHA-256 of its bytes.
pub orchestration_config_fingerprint :
    (List (Text × Json) → Text) → List (Text × Json) → Result ResearchError Text
unfolding canonical_orchestration_config
orchestration_config_fingerprint digest payload = do
  canonical ← canonical_orchestration_config payload
  ok (digest canonical)

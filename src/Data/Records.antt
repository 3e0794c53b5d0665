-- ===== src/Data/Records.antt =====
-- data/records.py and data/errors.py: the records of issued budgets and of their consumption.
use research_os.Common.{
  ℕ, zero, suc, Bool, true, false, not, Option, none, some, ℤ, pos, negsuc, Result, ok, err, List,
  guard, ◌>>=◌, ◌>>◌,
}
use research_os.Common.Text.{Text, is_blank}
use research_os.Common.Json.{Json, Fields}
use research_os.SafeData.{PathStep, reject_secret_keys}

pub data DataError : Type 0 where
  persistence_error persistence_conflict_error persistence_input_error : DataError
  budget_overspend_error : DataError

-- `ALLOWED_BUDGET_RESOURCE_TYPES`: a text of another value does not pass the constructor.
pub data ResourceType : Type 0 where
  model_call model_tokens_in model_tokens_out model_escalation_decision : ResourceType
  worker_invocation request execution_time artifact_bytes cost : ResourceType

-- `ALLOWED_BUDGET_UNITS`
pub data BudgetUnit : Type 0 where
  count milliseconds bytes : BudgetUnit

pub record IssuedBudgetRecord : Type 0 where
  pub budget_id : Text
  pub research_run_id : Option Text
  pub max_requests : ℕ
  pub max_tool_calls : ℕ
  pub max_runtime_ms : ℕ
  pub max_concurrency : ℕ
  pub issued_at : ℕ

pub record BudgetConsumptionRecord : Type 0 where
  pub consumption_id : Text
  pub budget_id : Text
  pub research_run_id : Option Text
  pub resource_type : ResourceType
  pub amount : ℕ
  pub unit : BudgetUnit
  pub occurred_at : ℕ
  pub provenance : Text
  pub experiment_id : Option Text
  pub request_id : Option Text
  pub resource_metadata : Option Fields

-- The fields of `ResearchOrchestrationRecord` that the ledger reads.
pub record ResearchOrchestrationRecord : Type 0 where
  pub research_run_id : Text
  pub max_model_calls : ℕ

abbrev pub is_optional_id : Option Text → Bool
is_optional_id none = true
is_optional_id (some id) = not (is_blank id)

-- `amount > 0`
abbrev pub positive : ℤ → Result DataError ℕ
positive (pos zero) = err persistence_input_error
positive (pos (suc n)) = ok (suc n)
positive (negsuc n) = err persistence_input_error

-- The unit that a resource must have; COST has none.
abbrev pub unit_fits : ResourceType → BudgetUnit → Bool
unit_fits execution_time milliseconds = true
unit_fits execution_time _ = false
unit_fits artifact_bytes bytes = true
unit_fits artifact_bytes _ = false
unit_fits cost _ = false
unit_fits _ count = true
unit_fits _ _ = false

abbrev pub as_input_error : Result (List (List PathStep)) Json → Result DataError (Unit {0})
as_input_error (err found) = err persistence_input_error
as_input_error (ok cleaned) = ok tt

-- `_require_mapping`
unfoldable pub require_mapping : Fields → Result DataError (Unit {0})
unfolding reject_secret_keys
require_mapping fields = as_input_error (reject_secret_keys (Json.object fields))

-- `_optional_mapping`
unfoldable pub optional_mapping : Option Fields → Result DataError (Unit {0})
unfolding require_mapping
optional_mapping none = ok tt
optional_mapping (some fields) = require_mapping fields

-- `BudgetConsumptionRecord.__post_init__`
unfoldable pub new_budget_consumption_record :
    Text
    → Text
    → Option Text
    → ResourceType
    → ℤ
    → BudgetUnit
    → ℕ
    → Text
    → Option Text
    → Option Text
    → Option Fields
    → Result DataError BudgetConsumptionRecord
unfolding is_blank optional_mapping
new_budget_consumption_record consumption_id budget_id run resource amount unit at provenance
      experiment request_id metadata =
    do
      guard (not (is_blank consumption_id)) persistence_input_error
      guard (not (is_blank budget_id)) persistence_input_error
      guard (is_optional_id run) persistence_input_error
      n ← positive amount
      guard (not (is_blank provenance)) persistence_input_error
      guard (is_optional_id experiment) persistence_input_error
      guard (is_optional_id request_id) persistence_input_error
      optional_mapping metadata
      guard (unit_fits resource unit) persistence_input_error
      ok (record {
        consumption_id = consumption_id;
        budget_id = budget_id;
        research_run_id = run;
        resource_type = resource;
        amount = n;
        unit = unit;
        occurred_at = at;
        provenance = provenance;
        experiment_id = experiment;
        request_id = request_id;
        resource_metadata = metadata;
      })

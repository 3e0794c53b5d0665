-- ===== src/Application/BudgetConsumption.antt =====
-- application/budget_consumption.py: the service that records what a run consumed of its budget.
pub mod Insertion
pub mod Envelope
pub mod Puts
pub mod Repeats
pub mod Requests
use research_os.Common.{
  ℕ, Bool, true, false, not, ◌&&◌, Option, none, some, ℤ, Result, ok, err, List, any, if◌then◌else◌,
  ◌>>=◌, ◌>>◌, guard,
}
use research_os.Common.Text.{Text, text_eq}
use research_os.Common.Json.{Fields}
use research_os.Core.Budget.{BudgetUsage}
use research_os.Data.Records.{
  DataError, budget_overspend_error, persistence_conflict_error, ResourceType, BudgetUnit,
  IssuedBudgetRecord, BudgetConsumptionRecord, new_budget_consumption_record,
}
use research_os.Data.Ledger.{usage_from_consumptions, same_optional}
use research_os.Data.Store.{
  Store, Database, find_budget, list_for_budget, insert, insert_within_allowance, is_repeat,
}

pub data ApplicationError : Type 0 where
  application_error budget_consumption_rejected : ApplicationError
  data_error : DataError → ApplicationError

pub record RecordBudgetConsumptionCommand : Type 0 where
  pub budget_id : Text
  pub research_run_id : Option Text
  pub resource_type : ResourceType
  pub amount : ℤ
  pub unit : BudgetUnit
  pub provenance : Text
  pub experiment_id : Option Text
  pub request_id : Option Text
  pub resource_metadata : Option Fields

pub record RecordBudgetConsumptionResult : Type 0 where
  pub consumption_id : Option Text
  pub already_recorded : Bool
  pub usage : BudgetUsage

-- An exception of the data layer that the service does not catch.
abbrev pub lift : {A : Type 0} → Result DataError A → Result ApplicationError A
lift (ok a) = ok a
lift (err e) = err (data_error e)

-- `except BudgetOverspendError`, and `except PersistenceConflictError`, after which the store is
-- unchanged and the call counts as a duplicate.
abbrev pub caught : Store → Result DataError Store → Result ApplicationError (Store × Bool)
caught s (ok t) = ok (t, false)
caught s (err budget_overspend_error) = err budget_consumption_rejected
caught s (err persistence_conflict_error) = ok (s, true)
caught s (err e) = err (data_error e)

abbrev pub uncaught : Result DataError Store → Result ApplicationError (Store × Bool)
uncaught (ok t) = ok (t, false)
uncaught (err e) = err (data_error e)

-- A record that only counts against the daily budget of the program, or one that the issued budget
-- must allow.
unfoldable pub write_record :
    Database
    → Store
    → BudgetConsumptionRecord
    → ResourceType
    → Result ApplicationError (Store × Bool)
write_record db s r ResourceType.model_tokens_in = uncaught (insert db s r)
write_record db s r ResourceType.model_tokens_out = uncaught (insert db s r)
write_record db s r ResourceType.model_escalation_decision = uncaught (insert db s r)
write_record db s r _ = caught s (insert_within_allowance db s r)

-- The three branches: a duplicate writes nothing.
unfoldable pub write :
    Database → Store → Bool → BudgetConsumptionRecord → Result ApplicationError (Store × Bool)
unfolding write_record
write db s duplicate r = if duplicate then ok (s, true) else write_record db s r r.resource_type

abbrev pub run_fits : Option Text → IssuedBudgetRecord → Bool
run_fits none issued = true
run_fits (some run) issued = same_optional issued.research_run_id (some run)

abbrev pub require_issued : Option IssuedBudgetRecord → Result ApplicationError IssuedBudgetRecord
require_issued none = err application_error
require_issued (some issued) = ok issued

abbrev pub new_record :
    Text → ℕ → RecordBudgetConsumptionCommand → Result ApplicationError BudgetConsumptionRecord
new_record new_id now command = lift (
    new_budget_consumption_record new_id command.budget_id command.research_run_id
      command.resource_type command.amount command.unit now command.provenance command.experiment_id
      command.request_id command.resource_metadata)

abbrev pub is_duplicate : Database → Store → RecordBudgetConsumptionCommand → Bool
is_duplicate db s command =
    any (is_repeat command.request_id command.resource_type)
      (list_for_budget db s command.budget_id)

abbrev pub result_of :
    Database
    → Text
    → RecordBudgetConsumptionCommand
    → Store × Bool
    → Store × RecordBudgetConsumptionResult
result_of db new_id command (t, repeated) = (
  t,
  record {
    consumption_id = if repeated then none else some new_id;
    already_recorded = repeated;
    usage = usage_from_consumptions (list_for_budget db t command.budget_id);
  },
)

-- `RecordBudgetConsumption.execute`, in one transaction, with the id and the time that it draws; an
-- error leaves the store as it was.
pub execute :
    Database
    → Text
    → ℕ
    → Store
    → RecordBudgetConsumptionCommand
    → Result ApplicationError (Store × RecordBudgetConsumptionResult)
unfolding write
execute db new_id now s command = do
  issued ← require_issued (find_budget s.issued_budget command.budget_id)
  guard (run_fits command.research_run_id issued) application_error
  r ← new_record new_id now command
  written ← write db s (is_duplicate db s command) r
  ok (result_of db new_id command written)

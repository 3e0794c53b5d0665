-- ===== src/Data/Ledger.antt =====
-- data/budget_ledger.py: what was consumed of an issued budget, and what is left of it.
pub mod Totals
use research_os.Common.{
  ℕ, zero, suc, ◌+◌, Bool, true, false, not, Option, none, some, ℤ, pos, negsuc, Result, ok, err,
  List, [], ◌∷◌, ltb, ◌>>=◌, ◌>>◌, guard,
}
use research_os.Common.Text.{Text, text_eq}
use research_os.Core.Budget.{BudgetUsage}
use research_os.Data.Records.{
  DataError, budget_overspend_error, ResourceType, model_call, worker_invocation, request,
  execution_time, artifact_bytes, IssuedBudgetRecord, BudgetConsumptionRecord,
  ResearchOrchestrationRecord,
}

pub record LedgerTotals : Type 0 where
  pub model_calls : ℕ
  pub worker_requests : ℕ
  pub worker_invocations : ℕ
  pub execution_time_ms : ℕ
  pub artifact_bytes : ℕ

-- The body of the loop.
unfoldable pub add_record : LedgerTotals → BudgetConsumptionRecord → LedgerTotals
add_record t r = elim r.resource_type [
  | model_call ↦ record t { model_calls = t.model_calls + r.amount }
  | request ↦ record t { worker_requests = t.worker_requests + r.amount }
  | worker_invocation ↦ record t { worker_invocations = t.worker_invocations + r.amount }
  | execution_time ↦ record t { execution_time_ms = t.execution_time_ms + r.amount }
  | artifact_bytes ↦ record t { artifact_bytes = t.artifact_bytes + r.amount }
  | _ ↦ t
]

unfoldable pub total_from : LedgerTotals → List BudgetConsumptionRecord → LedgerTotals
unfolding add_record
total_from t [] = t
total_from t (r ∷ rs) = total_from (add_record t r) rs

unfoldable pub ledger_totals : List BudgetConsumptionRecord → LedgerTotals
unfolding total_from
ledger_totals records =
    total_from
      (record {
        model_calls = 0;
        worker_requests = 0;
        worker_invocations = 0;
        execution_time_ms = 0;
        artifact_bytes = 0;
      })
      records

abbrev pub to_budget_usage : LedgerTotals → BudgetUsage
to_budget_usage t = record {
  requests = t.worker_requests;
  tool_calls = t.worker_invocations;
  runtime_ms = t.execution_time_ms;
  concurrency = 0;
}

unfoldable pub usage_from_consumptions : List BudgetConsumptionRecord → BudgetUsage
unfolding ledger_totals
usage_from_consumptions records = to_budget_usage (ledger_totals records)

-- `a - b` on ints
unfoldable pub difference : ℕ → ℕ → ℤ
difference a zero = pos a
difference zero (suc b) = negsuc b
difference (suc a) (suc b) = difference a b

-- `amount > remaining`
abbrev pub exceeds_remaining : ℕ → ℤ → Bool
exceeds_remaining amount (pos n) = ltb n amount
exceeds_remaining amount (negsuc n) = true

unfoldable pub remaining_for_resource :
    IssuedBudgetRecord → BudgetUsage → ResourceType → Result DataError ℤ
unfolding difference
remaining_for_resource issued usage request = ok (difference issued.max_requests usage.requests)
remaining_for_resource issued usage worker_invocation =
    ok (difference issued.max_tool_calls usage.tool_calls)
remaining_for_resource issued usage execution_time =
    ok (difference issued.max_runtime_ms usage.runtime_ms)
remaining_for_resource issued usage _ = err budget_overspend_error

unfoldable pub remaining_model_calls : ResearchOrchestrationRecord → LedgerTotals → ℤ
unfolding difference
remaining_model_calls orchestration totals =
    difference orchestration.max_model_calls totals.model_calls

abbrev pub same_optional : Option Text → Option Text → Bool
same_optional none none = true
same_optional (some a) (some b) = text_eq a b
same_optional _ _ = false

unfoldable pub assert_model_call :
    Option ResearchOrchestrationRecord
    → LedgerTotals
    → BudgetConsumptionRecord
    → Result DataError (Unit {0})
unfolding remaining_model_calls
assert_model_call none totals incoming = err budget_overspend_error
assert_model_call (some o) totals incoming = do
  guard (same_optional incoming.research_run_id (some o.research_run_id)) budget_overspend_error
  guard (not (exceeds_remaining incoming.amount (remaining_model_calls o totals)))
      budget_overspend_error

unfoldable pub assert_resource :
    IssuedBudgetRecord → LedgerTotals → BudgetConsumptionRecord → Result DataError (Unit {0})
unfolding remaining_for_resource
assert_resource issued totals incoming = do
  remaining ← remaining_for_resource issued (to_budget_usage totals) incoming.resource_type
  guard (not (exceeds_remaining incoming.amount remaining)) budget_overspend_error

unfoldable pub assert_within_allowance :
    IssuedBudgetRecord
    → List BudgetConsumptionRecord
    → BudgetConsumptionRecord
    → Option ResearchOrchestrationRecord
    → Result DataError (Unit {0})
unfolding ledger_totals assert_model_call assert_resource
assert_within_allowance issued existing incoming orchestration = elim incoming.resource_type [
  | model_call ↦ assert_model_call orchestration (ledger_totals existing) incoming
  | _ ↦ assert_resource issued (ledger_totals existing) incoming
]

-- ===== src/Core/Budget.antt =====
-- core/budget.py: the budget envelope of a run, its allocation to experiments, and the checks.
pub mod Allocation
use research_os.Common.{
  ℕ, Bool, true, false, not, ◌||◌, ℤ, pos, negsuc, Result, ok, err, ◌>>=◌, ◌>>◌, guard, ltb, leb,
  if◌then◌else◌,
}
use research_os.Common.Text.{Text, text_eq, is_blank}
use research_os.Core.Enums.{
  ReasonCode, CoreError, allowed, budget_mismatch, budget_exhausted, invalid_budget_error,
  budget_allocation_error,
}
use research_os.Core.Identity.{require_opaque_id}

-- The int that passes the test is kept as a natural number.
require_non_negative : ℤ → Result CoreError ℕ
require_non_negative (pos n) = ok n
require_non_negative (negsuc n) = err invalid_budget_error

pub record IssuedBudget : Type 0 where
  pub budget_id : Text
  pub max_requests : ℕ
  pub max_tool_calls : ℕ
  pub max_runtime_ms : ℕ
  pub max_concurrency : ℕ

-- `IssuedBudget.__post_init__`
pub new_issued_budget : Text → ℤ → ℤ → ℤ → ℤ → Result CoreError IssuedBudget
unfolding require_non_negative
new_issued_budget budget_id max_requests max_tool_calls max_runtime_ms max_concurrency = do
  require_opaque_id budget_id
  requests ← require_non_negative max_requests
  tool_calls ← require_non_negative max_tool_calls
  runtime_ms ← require_non_negative max_runtime_ms
  concurrency ← require_non_negative max_concurrency
  ok (record {
    budget_id = budget_id;
    max_requests = requests;
    max_tool_calls = tool_calls;
    max_runtime_ms = runtime_ms;
    max_concurrency = concurrency;
  })

pub record BudgetUsage : Type 0 where
  pub requests : ℕ
  pub tool_calls : ℕ
  pub runtime_ms : ℕ
  pub concurrency : ℕ

-- `BudgetUsage.__post_init__`
pub new_budget_usage : ℤ → ℤ → ℤ → ℤ → Result CoreError BudgetUsage
unfolding require_non_negative
new_budget_usage requests tool_calls runtime_ms concurrency = do
  r ← require_non_negative requests
  t ← require_non_negative tool_calls
  m ← require_non_negative runtime_ms
  c ← require_non_negative concurrency
  ok (record { requests = r; tool_calls = t; runtime_ms = m; concurrency = c })

pub record BudgetCheck : Type 0 where
  pub allowed_to_continue : Bool
  pub reason_code : ReasonCode
  pub budget_id : Text

abbrev stop : ReasonCode → Text → BudgetCheck
stop reason ident = record { allowed_to_continue = false; reason_code = reason; budget_id = ident }

abbrev continue : Text → BudgetCheck
continue ident = record { allowed_to_continue = true; reason_code = allowed; budget_id = ident }

pub record ProgramDailyBudget : Type 0 where
  pub program_id : Text
  pub date : Text
  pub limit_microdollars : ℕ
  pub spent_microdollars : ℕ

-- `ProgramDailyBudget.__post_init__`
pub new_program_daily_budget : Text → Text → ℤ → ℤ → Result CoreError ProgramDailyBudget
unfolding require_non_negative
new_program_daily_budget program_id date limit spent = do
  require_opaque_id program_id
  guard (not (is_blank date)) invalid_budget_error
  limit' ← require_non_negative limit
  spent' ← require_non_negative spent
  ok (record {
    program_id = program_id;
    date = date;
    limit_microdollars = limit';
    spent_microdollars = spent';
  })

pub check_program_daily_budget : ProgramDailyBudget → Text → Result CoreError BudgetCheck
check_program_daily_budget budget requested_program_id = do
  require_opaque_id requested_program_id
  ok (
      if not (text_eq requested_program_id budget.program_id)
      then stop budget_mismatch budget.program_id
      else if leb budget.limit_microdollars budget.spent_microdollars
      then stop budget_exhausted budget.program_id
      else continue budget.program_id)

exceeds : IssuedBudget → IssuedBudget → Bool
exceeds child parent =
    ltb parent.max_requests child.max_requests
    || ltb parent.max_tool_calls child.max_tool_calls
    || ltb parent.max_runtime_ms child.max_runtime_ms
    || ltb parent.max_concurrency child.max_concurrency

pub allocate_experiment_budget : IssuedBudget → Text → ℤ → ℤ → ℤ → ℤ → Result CoreError IssuedBudget
unfolding new_issued_budget exceeds
allocate_experiment_budget parent budget_id max_requests max_tool_calls max_runtime_ms
      max_concurrency =
    do
      child ← new_issued_budget budget_id max_requests max_tool_calls max_runtime_ms max_concurrency
      if exceeds child parent then err budget_allocation_error else ok child

exhausted : IssuedBudget → BudgetUsage → Bool
exhausted issued usage =
    leb issued.max_requests usage.requests
    || leb issued.max_tool_calls usage.tool_calls
    || leb issued.max_runtime_ms usage.runtime_ms
    || leb issued.max_concurrency usage.concurrency

unfoldable pub check_budget : IssuedBudget → BudgetUsage → Text → Result CoreError BudgetCheck
unfolding exhausted
check_budget issued usage requested_budget_id = do
  require_opaque_id requested_budget_id
  ok (
      if not (text_eq requested_budget_id issued.budget_id)
      then stop budget_mismatch issued.budget_id
      else if exhausted issued usage
      then stop budget_exhausted issued.budget_id
      else continue issued.budget_id)

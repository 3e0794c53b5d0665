-- ===== src/Core/Budget/Allocation.antt =====
-- Allocations stay inside their envelope (core/budget.py).
mod Examples
use research_os.Common.{
  ℕ, ◌≤◌, ◌<◌, Bool, true, false, ℤ, Result, ok, err, ◌≡◌, refl, ◌↔◌, ◌>>=◌, arith, if◌then◌else◌,
}
use research_os.Common.Text.{Text, text_eq_iff}
use research_os.Core.Enums.{CoreError, budget_allocation_error}
use research_os.Core.Identity.{require_opaque_id}
use research_os.Core.Budget.{
  IssuedBudget, BudgetUsage, BudgetCheck, ProgramDailyBudget, check_program_daily_budget,
  new_issued_budget, allocate_experiment_budget, exceeds, check_budget, exhausted,
}

-- Every limit of `child` fits into the same limit of `parent`.
pub record IsWithin (child parent : IssuedBudget) : Type 0 where
  pub requests : child.max_requests ≤ parent.max_requests
  pub tool_calls : child.max_tool_calls ≤ parent.max_tool_calls
  pub runtime_ms : child.max_runtime_ms ≤ parent.max_runtime_ms
  pub concurrency : child.max_concurrency ≤ parent.max_concurrency

-- There is an allowance left of every resource.
pub record HasAllowance (issued : IssuedBudget) (usage : BudgetUsage) : Type 0 where
  pub requests : usage.requests < issued.max_requests
  pub tool_calls : usage.tool_calls < issued.max_tool_calls
  pub runtime_ms : usage.runtime_ms < issued.max_runtime_ms
  pub concurrency : usage.concurrency < issued.max_concurrency

exceeds_iff : (child parent : IssuedBudget) → (exceeds child parent ≡ false) ↔ IsWithin child parent
unfolding exceeds
exceeds_iff child parent = ground arith

-- An allocation returns a budget exactly if the constructor builds it and each of its four limits
-- fits into that of the parent's envelope.
pub allocate_experiment_budget-ok_iff :
    (parent child : IssuedBudget) (budget_id : Text) (r t m c : ℤ)
    → (allocate_experiment_budget parent budget_id r t m c ≡ ok child)
      ↔ ((new_issued_budget budget_id r t m c ≡ ok child) × IsWithin child parent)
unfolding allocate_experiment_budget
allocate_experiment_budget-ok_iff parent child budget_id r t m c =
    split (new_issued_budget budget_id r t m c)
  where
    split :
        (built : Result CoreError IssuedBudget)
        → ((built >>= λ b. if exceeds b parent then err budget_allocation_error else ok b)
            ≡ ok child)
          ↔ ((built ≡ ok child) × IsWithin child parent)
    split (ok b) =
        (λ h. ground (arith, exceeds_iff b parent), λ h. ground (arith, exceeds_iff b parent))
    split (err e) = (λ h. cc, λ h. cc h.0)

pub check_budget-allowed_iff :
    (issued : IssuedBudget) (usage : BudgetUsage) (requested : Text) {c : BudgetCheck}
    → check_budget issued usage requested ≡ ok c
    → (c.allowed_to_continue ≡ true) ↔ ((requested ≡ issued.budget_id) × HasAllowance issued usage)
unfolding check_budget require_opaque_id
check_budget-allowed_iff issued usage requested h = (
  λ v. ground (arith, text_eq_iff requested issued.budget_id),
  λ v. ground (arith, text_eq_iff requested issued.budget_id),
)

-- What the check of an allocated budget lets continue, the check of its parent's envelope lets
-- continue too, at the same usage.
pub check_budget-allocate :
    (parent child : IssuedBudget) (budget_id : Text) (r t m c : ℤ) (usage : BudgetUsage)
    {of_child of_parent : BudgetCheck}
    → allocate_experiment_budget parent budget_id r t m c ≡ ok child
    → check_budget child usage child.budget_id ≡ ok of_child
    → check_budget parent usage parent.budget_id ≡ ok of_parent
    → of_child.allowed_to_continue ≡ true
    → of_parent.allowed_to_continue ≡ true
check_budget-allocate parent child budget_id r t m c usage made k p continues =
    let fits = (allocate_experiment_budget-ok_iff parent child budget_id r t m c).0 made in
    let left = (check_budget-allowed_iff child usage child.budget_id k).0 continues in
    (check_budget-allowed_iff parent usage parent.budget_id p).1 (refl, ground (arith, fits, left))

-- When the check of a program's daily budget returns, it lets the program continue exactly if the
-- budget is that program's and what is spent lies below the limit.
pub check_program_daily_budget-allowed_iff :
    (budget : ProgramDailyBudget) (program : Text) {c : BudgetCheck}
    → check_program_daily_budget budget program ≡ ok c
    → (c.allowed_to_continue ≡ true)
      ↔ ((program ≡ budget.program_id) × (budget.spent_microdollars < budget.limit_microdollars))
unfolding check_program_daily_budget require_opaque_id
check_program_daily_budget-allowed_iff budget program h = (
  λ v. ground (arith, text_eq_iff program budget.program_id),
  λ v. ground (arith, text_eq_iff program budget.program_id),
)

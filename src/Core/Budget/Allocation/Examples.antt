-- ===== src/Core/Budget/Allocation/Examples.antt =====
-- A run's envelope, an experiment's share of it, and a program's day.
use research_os.Common.{true, pos, ok, ◌≡◌, ◌↔◌, refl}
use research_os.Common.Text.{codes, is_blank}
use research_os.Core.Identity.{require_opaque_id}
use research_os.Core.Budget.{
  IssuedBudget, BudgetUsage, ProgramDailyBudget, continue, new_issued_budget,
  allocate_experiment_budget, check_budget, check_program_daily_budget,
}
use research_os.Core.Budget.Allocation.{
  IsWithin, allocate_experiment_budget-ok_iff, check_budget-allocate,
}

abbrev envelope : IssuedBudget
envelope = record {
  budget_id = codes "run";
  max_requests = 10;
  max_tool_calls = 5;
  max_runtime_ms = 1000;
  max_concurrency = 2;
}

abbrev share : IssuedBudget
share = record {
  budget_id = codes "exp";
  max_requests = 4;
  max_tool_calls = 5;
  max_runtime_ms = 500;
  max_concurrency = 1;
}

abbrev light_use : BudgetUsage
light_use = record { requests = 3; tool_calls = 0; runtime_ms = 499; concurrency = 0 }

allocate_run :
    allocate_experiment_budget envelope (codes "exp") (pos 4) (pos 5) (pos 500) (pos 1) ≡ ok share
unfolding allocate_experiment_budget require_opaque_id is_blank
allocate_run = refl

allocate_experiment_budget-ok_iff_example :
    (allocate_experiment_budget envelope (codes "exp") (pos 4) (pos 5) (pos 500) (pos 1) ≡ ok share)
    ↔ ((new_issued_budget (codes "exp") (pos 4) (pos 5) (pos 500) (pos 1) ≡ ok share)
        × IsWithin share envelope)
allocate_experiment_budget-ok_iff_example =
    allocate_experiment_budget-ok_iff envelope share (codes "exp") (pos 4) (pos 5) (pos 500) (pos 1)

check_share : check_budget share light_use (codes "exp") ≡ ok (continue (codes "exp"))
unfolding check_budget require_opaque_id is_blank
check_share = refl

check_envelope : check_budget envelope light_use (codes "run") ≡ ok (continue (codes "run"))
unfolding check_budget require_opaque_id is_blank
check_envelope = refl

check_budget-allocate_example : (continue (codes "run")).allowed_to_continue ≡ true
check_budget-allocate_example =
    check_budget-allocate envelope share (codes "exp") (pos 4) (pos 5) (pos 500) (pos 1) light_use
      {of_child = continue (codes "exp")} {of_parent = continue (codes "run")} allocate_run
      check_share check_envelope refl

abbrev today : ProgramDailyBudget
today = record {
  program_id = codes "p";
  date = codes "2026-08-01";
  limit_microdollars = 100;
  spent_microdollars = 99;
}

check_today : check_program_daily_budget today (codes "p") ≡ ok (continue (codes "p"))
unfolding check_program_daily_budget require_opaque_id is_blank
check_today = refl

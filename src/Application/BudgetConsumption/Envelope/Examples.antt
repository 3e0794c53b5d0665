-- ===== src/Application/BudgetConsumption/Envelope/Examples.antt =====
-- A budget of five requests, three calls for three requests each, and a repeated request.
use mathlib.Core.List.Perm
use research_os.Common.{
  true, false, none, some, pos, ok, List, [], ◌∷◌, ◌≡◌, ◌↔◌, ◌≤◌, ◌+◌, refl, arith, any, Some, ◌⊎◌,
  inl, inr, Bool-cases,
}
use research_os.Common.Text.{Text, codes, is_blank, text_eq, text_eq_iff, text_neq}
use research_os.Data.Records.{
  BudgetUnit, ResourceType, IssuedBudgetRecord, BudgetConsumptionRecord,
  new_budget_consumption_record,
}
use research_os.Data.Ledger.{
  assert_within_allowance, assert_resource, remaining_for_resource, difference, ledger_totals,
  total_from, add_record, usage_from_consumptions,
}
use research_os.Data.Ledger.Totals.{Counted, spent, assert_within_allowance_iff}
use research_os.Data.Store.{
  Store, Database, find_budget, list_for_budget, insert, insert_locked, insert_checked,
  insert_within_allowance, lock_orchestration,
}
use research_os.Application.BudgetConsumption.{
  RecordBudgetConsumptionCommand, RecordBudgetConsumptionResult, execute, write, write_record,
}
use research_os.Application.BudgetConsumption.Insertion.{charged}
use research_os.Application.BudgetConsumption.Requests.{IsOfRequest, WasRecorded, IsBuilt}
use research_os.Application.BudgetConsumption.Repeats.{execute-WasRecorded}
use research_os.Application.BudgetConsumption.Envelope.{Keeps, Call, execute_all, execute_all-Keeps}

-- A database that returns the rows as they are and has no row to refuse.
abbrev db : Database
db = record { order_by_consumption_id = λ rows. rows; refuses = λ rows r. false }

abbrev five : IssuedBudgetRecord
five = record {
  budget_id = codes "b";
  research_run_id = some (codes "run");
  max_requests = 5;
  max_tool_calls = 1;
  max_runtime_ms = 1000;
  max_concurrency = 1;
  issued_at = 0;
}

abbrev before : Store
before = record { issued_budget = five ∷ []; research_orchestration = []; budget_consumption = [] }

abbrev three : Text → RecordBudgetConsumptionCommand
three request_id = record {
  budget_id = codes "b";
  research_run_id = some (codes "run");
  resource_type = ResourceType.request;
  amount = pos 3;
  unit = BudgetUnit.count;
  provenance = codes "worker";
  experiment_id = none;
  request_id = some request_id;
  resource_metadata = none;
}

abbrev call : Text → Text → Call
call new_id request_id = record { new_id = new_id; now = 7; command = three request_id }

abbrev row : BudgetConsumptionRecord
row = record {
  consumption_id = codes "c1";
  budget_id = codes "b";
  research_run_id = some (codes "run");
  resource_type = ResourceType.request;
  amount = 3;
  unit = BudgetUnit.count;
  occurred_at = 7;
  provenance = codes "worker";
  experiment_id = none;
  request_id = some (codes "r1");
  resource_metadata = none;
}

abbrev after : Store
after = record {
  issued_budget = five ∷ [];
  research_orchestration = [];
  budget_consumption = row ∷ [];
}

abbrev calls : List Call
calls =
    call (codes "c1") (codes "r1")
    ∷ call (codes "c2") (codes "r1")
    ∷ call (codes "c3") (codes "r3")
    ∷ []

execute_all_run : execute_all db before calls ≡ after
unfolding execute_all execute write write_record insert_within_allowance insert_locked
    insert_checked insert lock_orchestration assert_within_allowance assert_resource
    remaining_for_resource difference ledger_totals total_from add_record find_budget
    list_for_budget new_budget_consumption_record is_blank
execute_all_run = refl

before-Keeps : Keeps Counted.requests five (codes "b") before
unfolding Keeps charged spent find_budget
before-Keeps = (refl, omega arith)

execute_all-Keeps_example : Keeps Counted.requests five (codes "b") (execute_all db before calls)
execute_all-Keeps_example =
    execute_all-Keeps db (λ rows. Perm.refl rows) Counted.requests five (codes "b") before calls
      before-Keeps

abbrev repeated : RecordBudgetConsumptionResult
repeated = record {
  consumption_id = none;
  already_recorded = true;
  usage = record { requests = 3; tool_calls = 0; runtime_ms = 0; concurrency = 0 };
}

execute_run : execute db (codes "c2") 7 after (three (codes "r1")) ≡ ok (after, repeated)
unfolding execute write find_budget list_for_budget new_budget_consumption_record is_blank
    usage_from_consumptions ledger_totals total_from add_record
execute_run = refl

-- A database whose key is the identifier alone.
abbrev keyed : Database
keyed = record {
  order_by_consumption_id = λ rows. rows;
  refuses = λ rows r. any (λ row. text_eq row.consumption_id r.consumption_id) rows;
}

keyed_unique :
    (rows : List BudgetConsumptionRecord) (r : BudgetConsumptionRecord)
    → keyed.refuses rows r ≡ true
    → Some
        (λ row.
          (row.consumption_id ≡ r.consumption_id)
          ⊎ IsOfRequest r.budget_id r.request_id r.resource_type row)
        rows
keyed_unique [] r h = cc
keyed_unique (row ∷ rows) r h = elim (Bool-cases (text_eq row.consumption_id r.consumption_id)) [
  | inl same ↦ inl (inl ((text_eq_iff row.consumption_id r.consumption_id).0 same))
  | inr other ↦ inr (keyed_unique rows r (rw other at h))
]

abbrev new_row : BudgetConsumptionRecord
new_row = record row { consumption_id = codes "c3"; request_id = some (codes "r3"); amount = 1 }

abbrev one : RecordBudgetConsumptionCommand
one = record (three (codes "r3")) { amount = pos 1 }

abbrev written : RecordBudgetConsumptionResult
written = record {
  consumption_id = some (codes "c3");
  already_recorded = false;
  usage = record { requests = 4; tool_calls = 0; runtime_ms = 0; concurrency = 0 };
}

abbrev later : Store
later = record after { budget_consumption = new_row ∷ row ∷ [] }

new_run : execute keyed (codes "c3") 7 after one ≡ ok (later, written)
unfolding execute write write_record insert_within_allowance insert_locked insert_checked insert
    lock_orchestration assert_within_allowance assert_resource remaining_for_resource difference
    ledger_totals total_from add_record find_budget list_for_budget new_budget_consumption_record
    is_blank usage_from_consumptions
new_run = refl

execute-WasRecorded_example :
    (WasRecorded after one
      × (later ≡ after)
      × (written.already_recorded ≡ true)
      × (written.consumption_id ≡ none))
    ⊎ ((¬ WasRecorded after one)
        × ((r : BudgetConsumptionRecord) × IsBuilt (codes "c3") one r
            × (later ≡ record after { budget_consumption = r ∷ after.budget_consumption }))
        × (written.already_recorded ≡ false)
        × (written.consumption_id ≡ some (codes "c3"))
        × ((id : Text) → one.request_id ≡ some id → WasRecorded later one))
execute-WasRecorded_example =
    execute-WasRecorded keyed (λ rows. Perm.refl rows) keyed_unique (codes "c3") 7 after later one
      {out = written} (text_neq (codes "c1") (codes "c3") refl, tt) new_run

assert_within_allowance_iff_example :
    (assert_within_allowance five [] row none ≡ ok tt) ↔ ((3 + 0) ≤ 5)
unfolding spent
assert_within_allowance_iff_example =
    assert_within_allowance_iff Counted.requests five [] row none refl

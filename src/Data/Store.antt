-- ===== src/Data/Store.antt =====
-- data/postgres/repositories.py: the ledger's table and the insertion that keeps to the issued budget.
-- It locks the budget's row, so the calls on one budget follow each other.
use research_os.Common.{
  Bool, true, false, not, ◌&&◌, Option, none, some, Result, ok, err, List, [], ◌∷◌, any, keep,
  is_some, if◌then◌else◌, ◌>>=◌, ◌>>◌,
}
use research_os.Common.Text.{Text, text_eq}
use research_os.Data.Records.{
  DataError, persistence_error, persistence_conflict_error, budget_overspend_error, ResourceType,
  model_call, IssuedBudgetRecord, BudgetConsumptionRecord, ResearchOrchestrationRecord,
}
use research_os.Data.Ledger.{assert_within_allowance, same_optional}

-- The tables that the ledger reads and writes.
pub record Store : Type 0 where
  pub issued_budget : List IssuedBudgetRecord
  pub research_orchestration : List ResearchOrchestrationRecord
  pub budget_consumption : List BudgetConsumptionRecord

unfoldable pub find_budget : List IssuedBudgetRecord → Text → Option IssuedBudgetRecord
find_budget [] id = none
find_budget (b ∷ bs) id = if text_eq b.budget_id id then some b else find_budget bs id

unfoldable pub find_orchestration :
    List ResearchOrchestrationRecord → Option Text → Option ResearchOrchestrationRecord
find_orchestration [] run = none
find_orchestration (o ∷ os) run =
    if same_optional (some o.research_run_id) run then some o else find_orchestration os run

-- What the database does: the order of a query's rows, and whether the unique keys of the table
-- refuse a row.
pub record Database : Type 0 where
  pub order_by_consumption_id : List BudgetConsumptionRecord → List BudgetConsumptionRecord
  pub refuses : List BudgetConsumptionRecord → BudgetConsumptionRecord → Bool

abbrev pub of_budget : Text → BudgetConsumptionRecord → Bool
of_budget id r = text_eq r.budget_id id

unfoldable pub list_for_budget : Database → Store → Text → List BudgetConsumptionRecord
list_for_budget db s id = db.order_by_consumption_id (keep (of_budget id) s.budget_consumption)

unfoldable pub insert : Database → Store → BudgetConsumptionRecord → Result DataError Store
insert db s r =
    if db.refuses s.budget_consumption r
    then err persistence_conflict_error
    else ok (record s { budget_consumption = r ∷ s.budget_consumption })

abbrev pub same_resource : ResourceType → ResourceType → Bool
same_resource ResourceType.model_call ResourceType.model_call = true
same_resource ResourceType.model_tokens_in ResourceType.model_tokens_in = true
same_resource ResourceType.model_tokens_out ResourceType.model_tokens_out = true
same_resource ResourceType.model_escalation_decision ResourceType.model_escalation_decision = true
same_resource ResourceType.worker_invocation ResourceType.worker_invocation = true
same_resource ResourceType.request ResourceType.request = true
same_resource ResourceType.execution_time ResourceType.execution_time = true
same_resource ResourceType.artifact_bytes ResourceType.artifact_bytes = true
same_resource ResourceType.cost ResourceType.cost = true
same_resource _ _ = false

-- The row of the same request for the same resource.
abbrev pub is_repeat : Option Text → ResourceType → BudgetConsumptionRecord → Bool
is_repeat request_id resource item =
    same_optional item.request_id request_id
    && same_resource item.resource_type resource
    && is_some request_id

-- The orchestration whose row is locked for a model call.
unfoldable pub lock_orchestration :
    Store → BudgetConsumptionRecord → Result DataError (Option ResearchOrchestrationRecord)
unfolding find_orchestration
lock_orchestration s r = elim r.resource_type [
  | model_call ↦ elim (find_orchestration s.research_orchestration r.research_run_id) [
    | none ↦ err budget_overspend_error
    | some o ↦ ok (some o)
  ]
  | _ ↦ ok none
]

-- `except PersistenceConflictError: return`
abbrev pub or_unchanged : Store → Result DataError Store → Result DataError Store
or_unchanged s (ok t) = ok t
or_unchanged s (err persistence_conflict_error) = ok s
or_unchanged s (err e) = err e

-- The insertion of a row that is no repetition.
unfoldable pub insert_checked :
    Database → Store → IssuedBudgetRecord → BudgetConsumptionRecord → Result DataError Store
unfolding list_for_budget insert lock_orchestration
insert_checked db s issued r = do
  orchestration ← lock_orchestration s r
  assert_within_allowance issued (list_for_budget db s r.budget_id) r orchestration
  or_unchanged s (insert db s r)

-- The insertion once the budget's row is locked.
unfoldable pub insert_locked :
    Database → Store → IssuedBudgetRecord → BudgetConsumptionRecord → Result DataError Store
unfolding insert_checked
insert_locked db s issued r =
    if not (text_eq issued.budget_id r.budget_id)
    then err persistence_error
    else if not (same_optional issued.research_run_id r.research_run_id)
    then err persistence_error
    else if any (is_repeat r.request_id r.resource_type) (list_for_budget db s r.budget_id)
    then ok s
    else insert_checked db s issued r

unfoldable pub insert_within_allowance :
    Database → Store → BudgetConsumptionRecord → Result DataError Store
unfolding find_budget insert_locked
insert_within_allowance db s r = elim (find_budget s.issued_budget r.budget_id) [
  | none ↦ err persistence_error
  | some issued ↦ insert_locked db s issued r
]

-- ===== src/Application/BudgetConsumption/Envelope.antt =====
-- Recorded consumption stays within the issued budget (application/budget_consumption.py).
mod Examples
use mathlib.Core.List.{Perm}
use mathlib.Core.Path.{subst, sym, ap, ◌∙◌}
use research_os.Common.{
  ℕ, ◌+◌, ◌≤◌, Bool, true, false, Option, none, some, Result, ok, err, List, [], ◌∷◌, keep, any,
  ◌≡◌, refl, ◌>>◌, ◌>>=◌, guard, not, ◌⊎◌, inl, inr, arith, Bool-cases, eq_of_some-eq, >>=-eq-ok,
  ok-eq-ok, if◌then◌else◌,
}
use research_os.Common.Text.{Text, text_eq, text_eq_iff}
use research_os.Data.Records.{
  ResearchOrchestrationRecord, DataError, persistence_error, ResourceType, IssuedBudgetRecord,
  BudgetConsumptionRecord,
}
use research_os.Data.Ledger.{assert_within_allowance, same_optional}
use research_os.Data.Ledger.Totals.{
  Counted, counts, limit, spent, spent-perm, assert_within_allowance-spent,
}
use research_os.Data.Store.{
  Store, Database, find_budget, of_budget, list_for_budget, insert, insert_locked, insert_checked,
  is_repeat, insert_within_allowance, lock_orchestration, or_unchanged,
}
use research_os.Application.BudgetConsumption.{
  RecordBudgetConsumptionCommand, RecordBudgetConsumptionResult, ApplicationError,
  application_error, new_record, is_duplicate, result_of, require_issued, run_fits, execute, write,
  write_record, caught, uncaught,
}
use research_os.Application.BudgetConsumption.Insertion.{
  charged, put, Allowed, insert-eq-ok, charged-put, charged-put-other, locked_budget-eq-ok,
  caught-eq-ok, uncaught-eq-ok, execute-eq-ok,
}

-- The issued budget of the identifier is this one, and nothing that was recorded exceeds it.
pub Keeps : Counted → IssuedBudgetRecord → Text → Store → Type 0
Keeps c b id s = (find_budget s.issued_budget id ≡ some b) × (charged c id s ≤ limit b c)

-- The database returns the rows of a query in some order.
module _ (db : Database)
    (orders : (rows : List BudgetConsumptionRecord) → Perm (db.order_by_consumption_id rows) rows)
    (c : Counted) (b : IssuedBudgetRecord) where
  fits :
      (s : Store) (r : BudgetConsumptionRecord)
      → Allowed db s r b
      → charged c r.budget_id s ≤ limit b c
      → spent c (r ∷ keep (of_budget r.budget_id) s.budget_consumption) ≤ limit b c
  unfolding list_for_budget charged spent Allowed
  fits s r (o, h) k =
      let rows = keep (of_budget r.budget_id) s.budget_consumption in
      let same = spent-perm c (orders rows) in
      let room = assert_within_allowance-spent c b (db.order_by_consumption_id rows) r o h in
      omega (arith, same, room (omega (arith, same, k)))

  put-Keeps :
      (id : Text) (s : Store) (r : BudgetConsumptionRecord) (found : IssuedBudgetRecord)
      → find_budget s.issued_budget r.budget_id ≡ some found
      → Allowed db s r found
      → Keeps c b id s
      → Keeps c b id (put s r)
  unfolding Keeps
  put-Keeps id s r found locked allowed (issued, k) = elim (charged-put c id s r) [
    | inl same ↦ (issued, omega (arith, same, k))
    | inr (mine, e) ↦
        let b_found : found ≡ b =
          eq_of_some-eq (sym locked ∙ ap (find_budget s.issued_budget) mine ∙ issued) in
        let room =
          fits s r (subst (λ b. Allowed db s r b) b_found allowed)
            (subst (λ i. charged c i s ≤ limit b c) (sym mine) k) in
        (
          issued,
          omega (
            arith,
            e,
            subst (λ i. spent c (r ∷ keep (of_budget i) s.budget_consumption) ≤ limit b c) mine
                room,
          ),
        )
  ]

  insert_within_allowance-Keeps :
      (id : Text) (s t : Store) (r : BudgetConsumptionRecord)
      → insert_within_allowance db s r ≡ ok t
      → Keeps c b id s
      → Keeps c b id t
  unfolding insert_within_allowance
  insert_within_allowance-Keeps id s t r h k =
      elim (locked_budget-eq-ok db s t r (find_budget s.issued_budget r.budget_id) h) [
        | inl same ↦ subst (Keeps c b id) (sym same) k
        | inr (taken, (found, locked, allowed)) ↦
            subst (Keeps c b id) (sym taken) (put-Keeps id s r found locked allowed k)
      ]

  insert-Keeps :
      (id : Text) (s t : Store) (r : BudgetConsumptionRecord)
      → insert db s r ≡ ok t
      → counts c r.resource_type ≡ false
      → Keeps c b id s
      → Keeps c b id t
  unfolding Keeps
  insert-Keeps id s t r h other (issued, k) =
      subst (λ t. (find_budget t.issued_budget id ≡ some b) × (charged c id t ≤ limit b c))
        (sym (insert-eq-ok db s t r h)) (issued, omega (arith, charged-put-other c id s r other, k))

  caught-Keeps :
      (id : Text) (s t : Store) (again : Bool) (r : BudgetConsumptionRecord)
      → caught s (insert_within_allowance db s r) ≡ ok (t, again)
      → Keeps c b id s
      → Keeps c b id t
  caught-Keeps id s t again r h k =
      elim (caught-eq-ok s t again (insert_within_allowance db s r) h) [
        | inl same ↦ subst (Keeps c b id) (sym same) k
        | inr taken ↦ insert_within_allowance-Keeps id s t r taken k
      ]

  uncaught-Keeps :
      (id : Text) (s t : Store) (again : Bool) (r : BudgetConsumptionRecord)
      → uncaught (insert db s r) ≡ ok (t, again)
      → counts c r.resource_type ≡ false
      → Keeps c b id s
      → Keeps c b id t
  uncaught-Keeps id s t again r h other k =
      insert-Keeps id s t r (uncaught-eq-ok t again (insert db s r) h) other k

  write_record-Keeps :
      (id : Text) (s t : Store) (again : Bool) (r : BudgetConsumptionRecord)
      (resource : ResourceType)
      → r.resource_type ≡ resource
      → write_record db s r resource ≡ ok (t, again)
      → Keeps c b id s
      → Keeps c b id t
  unfolding write_record
  write_record-Keeps id s t again r ResourceType.model_tokens_in e h k =
      uncaught-Keeps id s t again r h (ground (arith, e)) k
  write_record-Keeps id s t again r ResourceType.model_tokens_out e h k =
      uncaught-Keeps id s t again r h (ground (arith, e)) k
  write_record-Keeps id s t again r ResourceType.model_escalation_decision e h k =
      uncaught-Keeps id s t again r h (ground (arith, e)) k
  write_record-Keeps id s t again r resource e h k = caught-Keeps id s t again r h k

  write-Keeps :
      (id : Text) (s t : Store) (repeated again : Bool) (r : BudgetConsumptionRecord)
      → write db s repeated r ≡ ok (t, again)
      → Keeps c b id s
      → Keeps c b id t
  unfolding write
  write-Keeps id s t true again r h k = subst (Keeps c b id) (ap (λ p. p.0) (ok-eq-ok h)) k
  write-Keeps id s t false again r h k = write_record-Keeps id s t again r r.resource_type refl h k

  execute-Keeps :
      (id new_id : Text) (now : ℕ) (s t : Store) (command : RecordBudgetConsumptionCommand)
      {out : RecordBudgetConsumptionResult}
      → execute db new_id now s command ≡ ok (t, out)
      → Keeps c b id s
      → Keeps c b id t
  execute-Keeps id new_id now s t command h k =
      let (r, built, written, wrote, e) = execute-eq-ok db new_id now s t command h in
      subst (Keeps c b id) (ap (λ p. p.0) e)
        (write-Keeps id s written.0 (is_duplicate db s command) written.1 r wrote k)

-- One call, and a sequence of calls: a call that raises leaves the store as it was.
pub record Call : Type 0 where
  pub new_id : Text
  pub now : ℕ
  pub command : RecordBudgetConsumptionCommand

abbrev kept : Store → Result ApplicationError (Store × RecordBudgetConsumptionResult) → Store
kept s (ok (t, out)) = t
kept s (err e) = s

pub execute_all : Database → Store → List Call → Store
unfolding execute
execute_all db s [] = s
execute_all db s (call ∷ calls) =
    execute_all db (kept s (execute db call.new_id call.now s call.command)) calls

kept-Keeps :
    (db : Database)
    (orders : (rows : List BudgetConsumptionRecord) → Perm (db.order_by_consumption_id rows) rows)
    (c : Counted) (b : IssuedBudgetRecord) (id : Text) (s : Store) (call : Call)
    (result : Result ApplicationError (Store × RecordBudgetConsumptionResult))
    → execute db call.new_id call.now s call.command ≡ result
    → Keeps c b id s
    → Keeps c b id (kept s result)
kept-Keeps db orders c b id s call (ok (t, out)) h k =
    execute-Keeps db orders c b id call.new_id call.now s t call.command h k
kept-Keeps db orders c b id s call (err e) h k = k

-- Where the database returns every row of a query once, in whatever order: if the requests, worker
-- invocations and runtime recorded against a budget are within what was issued, they still are after
-- any sequence of calls of the service, those that raise included, for this budget and for others,
-- and the issued budget is unchanged.
pub execute_all-Keeps :
    (db : Database)
    (orders : (rows : List BudgetConsumptionRecord) → Perm (db.order_by_consumption_id rows) rows)
    (c : Counted) (b : IssuedBudgetRecord) (id : Text) (s : Store) (calls : List Call)
    → Keeps c b id s
    → Keeps c b id (execute_all db s calls)
unfolding execute_all
execute_all-Keeps db orders c b id s [] k = k
execute_all-Keeps db orders c b id s (call ∷ calls) k =
    execute_all-Keeps db orders c b id (kept s (execute db call.new_id call.now s call.command))
      calls
      (kept-Keeps db orders c b id s call (execute db call.new_id call.now s call.command) refl k)

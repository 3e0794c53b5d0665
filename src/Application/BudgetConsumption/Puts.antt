-- ===== src/Application/BudgetConsumption/Puts.antt =====
-- An insertion that the unique keys let pass puts the row (data/postgres/repositories.py).
use mathlib.Core.Path.{sym, ap, ◌∙◌}
use research_os.Common.{
  Bool, false, Option, none, some, Result, ok, err, List, any, ◌≡◌, ◌≢◌, refl, ◌>>=◌, ◌⊎◌, inl, inr,
  arith, Bool-cases, ok-eq-ok,
}
use research_os.Common.Text.{text_eq}
use research_os.Data.Records.{
  ResearchOrchestrationRecord, DataError, persistence_error, persistence_conflict_error,
  ResourceType, IssuedBudgetRecord, BudgetConsumptionRecord,
}
use research_os.Data.Ledger.{
  assert_within_allowance, same_optional, assert_resource, assert_model_call,
  remaining_for_resource,
}
use research_os.Data.Store.{
  Store, Database, find_budget, list_for_budget, insert, insert_locked, insert_checked, is_repeat,
  insert_within_allowance, lock_orchestration, or_unchanged,
}
use research_os.Application.BudgetConsumption.{write_record, caught, uncaught}
use research_os.Application.BudgetConsumption.Insertion.{put}

assert-ne-conflict :
    (b : IssuedBudgetRecord) (rows : List BudgetConsumptionRecord) (r : BudgetConsumptionRecord)
    (o : Option ResearchOrchestrationRecord)
    → assert_within_allowance b rows r o ≢ err persistence_conflict_error
unfolding assert_within_allowance assert_resource assert_model_call remaining_for_resource
assert-ne-conflict b rows r o h = ground arith

-- The record was put, or an error was raised that is no conflict.
abbrev Puts : Store → BudgetConsumptionRecord → Result DataError Store → Type 0
Puts s r m = (m ≡ ok (put s r)) ⊎ ((e : DataError) × (m ≡ err e) × (e ≢ persistence_conflict_error))

Puts-bind :
    {A : Type 0} (s : Store) (r : BudgetConsumptionRecord) (m : Result DataError A)
    (k : A → Result DataError Store)
    → m ≢ err persistence_conflict_error
    → ((a : A) → Puts s r (k a))
    → Puts s r (m >>= k)
Puts-bind s r (ok a) k n p = p a
Puts-bind s r (err e) k n p = inr (e, refl, λ same. n (ap err same))

Puts-caught :
    (s : Store) (r : BudgetConsumptionRecord) (m : Result DataError Store) {u : Store}
    {again : Bool}
    → Puts s r m
    → caught s m ≡ ok (u, again)
    → (u ≡ put s r) × (again ≡ false)
Puts-caught s r (ok t) (inl e) h =
    let same = ok-eq-ok h in (sym (ap (λ p. p.0) same) ∙ ok-eq-ok e, sym (ap (λ p. p.1) same))
Puts-caught s r (err x) (inl e) h = cc
Puts-caught s r (err x) (inr (e, same, other)) h = ground arith
Puts-caught s r (ok t) (inr e) h = cc

Puts-uncaught :
    (s : Store) (r : BudgetConsumptionRecord) (m : Result DataError Store) {u : Store}
    {again : Bool}
    → m ≡ ok (put s r)
    → uncaught m ≡ ok (u, again)
    → (u ≡ put s r) × (again ≡ false)
Puts-uncaught s r (ok t) e h =
    let same = ok-eq-ok h in (sym (ap (λ p. p.0) same) ∙ ok-eq-ok e, sym (ap (λ p. p.1) same))
Puts-uncaught s r (err x) e h = cc

lock-ne-conflict :
    (s : Store) (r : BudgetConsumptionRecord)
    → lock_orchestration s r ≢ err persistence_conflict_error
unfolding lock_orchestration
lock-ne-conflict s r h = ground arith

-- An insertion that the unique keys do not refuse, once no row repeats the record
module _ (db : Database) (s : Store) (r : BudgetConsumptionRecord)
    (taken : db.refuses s.budget_consumption r ≡ false) where
  insert-put : insert db s r ≡ ok (put s r)
  unfolding insert
  insert-put = rw taken refl

  insert_checked-Puts : (b : IssuedBudgetRecord) → Puts s r (insert_checked db s b r)
  unfolding insert_checked
  insert_checked-Puts b = Puts-bind s r (lock_orchestration s r) _ (lock-ne-conflict s r) (λ o.
      Puts-bind s r (assert_within_allowance b (list_for_budget db s r.budget_id) r o) _
        (assert-ne-conflict b (list_for_budget db s r.budget_id) r o)
        (λ u. inl (ap (or_unchanged s) insert-put)))

  module _
      (new : any (is_repeat r.request_id r.resource_type) (list_for_budget db s r.budget_id)
        ≡ false) where
    insert_locked-Puts : (b : IssuedBudgetRecord) → Puts s r (insert_locked db s b r)
    unfolding insert_locked
    insert_locked-Puts b = elim (Bool-cases (text_eq b.budget_id r.budget_id)) [
      | inr other ↦ rw other (inr (persistence_error, refl, λ e. cc))
      | inl mine ↦ elim (Bool-cases (same_optional b.research_run_id r.research_run_id)) [
        | inr elsewhere ↦ rw (mine, elsewhere) (inr (persistence_error, refl, λ e. cc))
        | inl fits ↦ rw (mine, fits, new) (insert_checked-Puts b)
      ]
    ]

    found-Puts :
        (found : Option IssuedBudgetRecord)
        → Puts s r (elim found [
          | none ↦ err persistence_error
          | some issued ↦ insert_locked db s issued r
        ])
    found-Puts none = inr (persistence_error, refl, λ e. cc)
    found-Puts (some b) = insert_locked-Puts b

    insert_within_allowance-Puts : Puts s r (insert_within_allowance db s r)
    unfolding insert_within_allowance
    insert_within_allowance-Puts = found-Puts (find_budget s.issued_budget r.budget_id)

    pub write_record-put :
        (resource : ResourceType) {u : Store} {again : Bool}
        → write_record db s r resource ≡ ok (u, again)
        → (u ≡ put s r) × (again ≡ false)
    unfolding write_record
    write_record-put ResourceType.model_tokens_in h = Puts-uncaught s r (insert db s r) insert-put h
    write_record-put ResourceType.model_tokens_out h =
        Puts-uncaught s r (insert db s r) insert-put h
    write_record-put ResourceType.model_escalation_decision h =
        Puts-uncaught s r (insert db s r) insert-put h
    write_record-put resource h =
        Puts-caught s r (insert_within_allowance db s r) insert_within_allowance-Puts h

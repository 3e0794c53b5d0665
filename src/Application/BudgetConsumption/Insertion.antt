-- ===== src/Application/BudgetConsumption/Insertion.antt =====
-- What an insertion writes, and what it had to meet (data/postgres/repositories.py, application/budget_consumption.py).
use mathlib.Core.Path.{sym, ap}
use research_os.Common.{
  ℕ, Bool, true, false, Option, none, some, Result, ok, err, ◌∷◌, keep, any, ◌≡◌, refl, ◌>>◌, ◌>>=◌,
  guard, not, ◌⊎◌, inl, inr, arith, Bool-cases, >>=-eq-ok, ok-eq-ok, if◌then◌else◌,
}
use research_os.Common.Text.{Text, text_eq, text_eq_iff}
use research_os.Data.Records.{
  ResearchOrchestrationRecord, DataError, persistence_error, IssuedBudgetRecord,
  BudgetConsumptionRecord,
}
use research_os.Data.Ledger.{assert_within_allowance, same_optional}
use research_os.Data.Ledger.Totals.{Counted, counts, spent}
use research_os.Data.Store.{
  Store, Database, find_budget, of_budget, list_for_budget, insert, insert_locked, insert_checked,
  is_repeat, lock_orchestration, or_unchanged,
}
use research_os.Application.BudgetConsumption.{
  RecordBudgetConsumptionCommand, RecordBudgetConsumptionResult, application_error, new_record,
  is_duplicate, result_of, require_issued, run_fits, execute, write, caught, uncaught,
}

-- What the ledger holds against a budget.
unfoldable pub charged : Counted → Text → Store → ℕ
charged c id s = spent c (keep (of_budget id) s.budget_consumption)

abbrev pub put : Store → BudgetConsumptionRecord → Store
put s r = record s { budget_consumption = r ∷ s.budget_consumption }

-- A row that the database took.
pub insert-eq-ok :
    (db : Database) (s t : Store) (r : BudgetConsumptionRecord) → insert db s r ≡ ok t → t ≡ put s r
unfolding insert
insert-eq-ok db s t r h = elim (Bool-cases (db.refuses s.budget_consumption r)) [
  | inl e ↦ ground arith
  | inr e ↦ ground arith
]

-- A row charges its own budget, for its own resource.
pub charged-put :
    (c : Counted) (id : Text) (s : Store) (r : BudgetConsumptionRecord)
    → (charged c id (put s r) ≡ charged c id s)
      ⊎ ((r.budget_id ≡ id)
          × (charged c id (put s r) ≡ spent c (r ∷ keep (of_budget id) s.budget_consumption)))
unfolding charged
charged-put c id s r = elim (Bool-cases (text_eq r.budget_id id)) [
  | inl e ↦ inr ((text_eq_iff r.budget_id id).0 e, rw e refl)
  | inr e ↦ inl (rw e refl)
]

pub charged-put-other :
    (c : Counted) (id : Text) (s : Store) (r : BudgetConsumptionRecord)
    → counts c r.resource_type ≡ false
    → charged c id (put s r) ≡ charged c id s
unfolding charged spent
charged-put-other c id s r h = elim (Bool-cases (text_eq r.budget_id id)) [
  | inl e ↦ rw (e, h) (omega arith)
  | inr e ↦ rw e refl
]

guards-eq-ok :
    {A : Type 0} (a b d : Bool) (x y : DataError) (s t : A) (m : Result DataError A)
    → (if a then err x else if b then err y else if d then ok s else m) ≡ ok t
    → (t ≡ s) ⊎ (m ≡ ok t)
guards-eq-ok true b d x y s t m h = cc
guards-eq-ok false true d x y s t m h = cc
guards-eq-ok false false true x y s t m h = inl (sym (ok-eq-ok h))
guards-eq-ok false false false x y s t m h = inr h

or_unchanged-eq-ok :
    (s t : Store) (m : Result DataError Store) → or_unchanged s m ≡ ok t → (t ≡ s) ⊎ (m ≡ ok t)
or_unchanged-eq-ok s t (ok u) h = inr h
or_unchanged-eq-ok s t (err e) h = ground arith

pub caught-eq-ok :
    (s t : Store) (again : Bool) (m : Result DataError Store)
    → caught s m ≡ ok (t, again)
    → (t ≡ s) ⊎ (m ≡ ok t)
caught-eq-ok s t again (ok u) h = inr (ap ok (ap (λ p. p.0) (ok-eq-ok h)))
caught-eq-ok s t again (err e) h = ground arith

pub uncaught-eq-ok :
    (t : Store) (again : Bool) (m : Result DataError Store) → uncaught m ≡ ok (t, again) → m ≡ ok t
uncaught-eq-ok t again (ok u) h = ap ok (ap (λ p. p.0) (ok-eq-ok h))
uncaught-eq-ok t again (err e) h = cc

-- The allowance that a row had to meet before it was taken.
unfoldable pub Allowed : Database → Store → BudgetConsumptionRecord → IssuedBudgetRecord → Type 0
Allowed db s r b =
    (o : Option ResearchOrchestrationRecord) × (assert_within_allowance b
        (list_for_budget db s r.budget_id) r o
      ≡ ok tt)

insert_checked-eq-ok :
    (db : Database) (b : IssuedBudgetRecord) (s t : Store) (r : BudgetConsumptionRecord)
    → insert_checked db s b r ≡ ok t
    → (t ≡ s) ⊎ ((t ≡ put s r) × Allowed db s r b)
unfolding insert_checked Allowed
insert_checked-eq-ok db b s t r h =
    let (o, locked, h) =
      >>=-eq-ok (lock_orchestration s r)
        (λ o.
          assert_within_allowance b (list_for_budget db s r.budget_id) r o
          >> or_unchanged s (insert db s r))
        h in
    let (u, within, h) =
      >>=-eq-ok (assert_within_allowance b (list_for_budget db s r.budget_id) r o)
        (λ u. or_unchanged s (insert db s r)) h in
    elim (or_unchanged-eq-ok s t (insert db s r) h) [
      | inl same ↦ inl same
      | inr inserted ↦ inr (insert-eq-ok db s t r inserted, (o, within))
    ]

insert_locked-eq-ok :
    (db : Database) (b : IssuedBudgetRecord) (s t : Store) (r : BudgetConsumptionRecord)
    → insert_locked db s b r ≡ ok t
    → (t ≡ s) ⊎ ((t ≡ put s r) × Allowed db s r b)
unfolding insert_locked
insert_locked-eq-ok db b s t r h =
    elim (guards-eq-ok (not (text_eq b.budget_id r.budget_id))
      (not (same_optional b.research_run_id r.research_run_id))
      (any (is_repeat r.request_id r.resource_type) (list_for_budget db s r.budget_id))
      persistence_error persistence_error s t (insert_checked db s b r) h) [
        | inl same ↦ inl same
        | inr checked ↦ insert_checked-eq-ok db b s t r checked
      ]

-- The budget whose row was locked.
pub locked_budget-eq-ok :
    (db : Database) (s t : Store) (r : BudgetConsumptionRecord) (found : Option IssuedBudgetRecord)
    → (elim found [ none ↦ err persistence_error | some issued ↦ insert_locked db s issued r ])
      ≡ ok t
    → (t ≡ s) ⊎ ((t ≡ put s r) × ((b : IssuedBudgetRecord) × (found ≡ some b) × Allowed db s r b))
locked_budget-eq-ok db s t r none h = cc
locked_budget-eq-ok db s t r (some b) h = elim (insert_locked-eq-ok db b s t r h) [
  | inl same ↦ inl same
  | inr (taken, allowed) ↦ inr (taken, (b, refl, allowed))
]

-- A call that returned wrote what `write` did with the record that it built.
pub execute-eq-ok :
    (db : Database) (new_id : Text) (now : ℕ) (s t : Store)
    (command : RecordBudgetConsumptionCommand) {out : RecordBudgetConsumptionResult}
    → execute db new_id now s command ≡ ok (t, out)
    → (r : BudgetConsumptionRecord) × (new_record new_id now command ≡ ok r)
      × (written : Store × Bool) × (write db s (is_duplicate db s command) r ≡ ok written)
      × (result_of db new_id command written ≡ (t, out))
unfolding execute
execute-eq-ok db new_id now s t command h =
    let (issued, known, h) =
      >>=-eq-ok (require_issued (find_budget s.issued_budget command.budget_id))
        (λ issued.
          guard (run_fits command.research_run_id issued) application_error
          >> (new_record new_id now command >>= λ r.
              write db s (is_duplicate db s command) r >>= λ written.
              ok (result_of db new_id command written)))
        h in
    let (u, fitting, h) =
      >>=-eq-ok (guard (run_fits command.research_run_id issued) application_error)
        (λ u. new_record new_id now command >>= λ r.
          write db s (is_duplicate db s command) r >>= λ written.
          ok (result_of db new_id command written))
        h in
    let (r, built, h) =
      >>=-eq-ok (new_record new_id now command)
        (λ r. write db s (is_duplicate db s command) r >>= λ written.
          ok (result_of db new_id command written))
        h in
    let (written, wrote, h) =
      >>=-eq-ok (write db s (is_duplicate db s command) r)
        (λ written. ok (result_of db new_id command written)) h in
    (r, built, written, wrote, ok-eq-ok h)

-- ===== src/Application/BudgetConsumption/Repeats.antt =====
-- Calls of the service whose request was recorded before, and others (application/budget_consumption.py,
-- data/postgres/repositories.py).
use mathlib.Core.List.{Perm}
use mathlib.Core.Path.{subst, sym, ap, ◌∙◌}
use research_os.Common.{
  ℕ, true, false, none, some, ok, List, [], ◌∷◌, any, ◌≡◌, ◌≢◌, ◌⊎◌, inl, inr, Bool-cases, Every,
  Some, ok-eq-ok, if◌then◌else◌,
}
use research_os.Common.Text.{Text}
use research_os.Data.Records.{BudgetConsumptionRecord}
use research_os.Data.Store.{Store, Database, list_for_budget, is_repeat}
use research_os.Application.BudgetConsumption.{
  RecordBudgetConsumptionCommand, RecordBudgetConsumptionResult, is_duplicate, result_of, execute,
  write,
}
use research_os.Application.BudgetConsumption.Insertion.{put, execute-eq-ok}
use research_os.Application.BudgetConsumption.Requests.{
  IsOfRequest, WasRecorded, IsBuilt, is_duplicate_iff, new_record-IsBuilt,
}
use research_os.Application.BudgetConsumption.Puts.{write_record-put}

Some-either :
    {A : Type 0} (P Q : A → Type 0) (xs : List A) → Some (λ x. P x ⊎ Q x) xs → Some P xs ⊎ Some Q xs
Some-either P Q [] h = absurd h
Some-either P Q (x ∷ xs) (inl (inl p)) = inl (inl p)
Some-either P Q (x ∷ xs) (inl (inr q)) = inr (inl q)
Some-either P Q (x ∷ xs) (inr h) = elim (Some-either P Q xs h) [
  | inl p ↦ inl (inr p)
  | inr q ↦ inr (inr q)
]

none-Some : {A : Type 0} (P : A → Type 0) (xs : List A) → Every (λ x. ¬ P x) xs → ¬ Some P xs
none-Some P [] n h = h
none-Some P (x ∷ xs) n (inl p) = n.0 p
none-Some P (x ∷ xs) n (inr h) = none-Some P xs n.1 h

-- The unique keys of the table are the identifier and the request with its budget and resource.
module _ (db : Database)
    (orders : (rows : List BudgetConsumptionRecord) → Perm (db.order_by_consumption_id rows) rows)
    (unique : (rows : List BudgetConsumptionRecord) (r : BudgetConsumptionRecord)
      → db.refuses rows r ≡ true
      → Some
          (λ row.
            (row.consumption_id ≡ r.consumption_id)
            ⊎ IsOfRequest r.budget_id r.request_id r.resource_type row)
          rows) where
  not_refused :
      (new_id : Text) (s : Store) (command : RecordBudgetConsumptionCommand)
      (r : BudgetConsumptionRecord)
      → IsBuilt new_id command r
      → Every (λ row. row.consumption_id ≢ new_id) s.budget_consumption
      → ¬ WasRecorded s command
      → db.refuses s.budget_consumption r ≡ false
  unfolding WasRecorded
  not_refused new_id s command r (named, budget, request, resource, amount) fresh new =
      elim (Bool-cases (db.refuses s.budget_consumption r)) [
        | inr taken ↦ taken
        | inl refused ↦
            elim (Some-either (λ row. row.consumption_id ≡ r.consumption_id)
              (IsOfRequest r.budget_id r.request_id r.resource_type) s.budget_consumption
              (unique s.budget_consumption r refused)) [
                | inl same ↦ absurd (
                    none-Some (λ row. row.consumption_id ≡ new_id) s.budget_consumption fresh
                      (subst (λ i. Some (λ row. row.consumption_id ≡ i) s.budget_consumption) named
                        same))
                | inr same ↦ absurd (new (rw (← budget, ← request, ← resource) same))
              ]
      ]

  not_repeated :
      (new_id : Text) (s : Store) (command : RecordBudgetConsumptionCommand)
      (r : BudgetConsumptionRecord)
      → IsBuilt new_id command r
      → is_duplicate db s command ≡ false
      → any (is_repeat r.request_id r.resource_type) (list_for_budget db s r.budget_id) ≡ false
  not_repeated new_id s command r (named, budget, request, resource, amount) new =
      rw (budget, request, resource) new

  recorded_after :
      (new_id : Text) (s : Store) (command : RecordBudgetConsumptionCommand)
      (r : BudgetConsumptionRecord)
      → IsBuilt new_id command r
      → (id : Text) → command.request_id ≡ some id
      → WasRecorded (put s r) command
  unfolding WasRecorded IsOfRequest
  recorded_after new_id s command r (named, budget, request, resource, amount) id k =
      inl (budget, resource, (id, request ∙ k, k))

  -- Where the database returns every row of a query once and refuses a row only for one of its two unique keys, a call
  -- with an identifier that no row has yet, if it returns, does one of two things. Where a row of the command's budget,
  -- request and resource is recorded, it leaves the store as it was, says so and gives no identifier. Where none is, it
  -- adds one row with the command's budget, request, resource and amount, changes nothing else, and gives its
  -- identifier; if the command names a request, this is recorded from then on.
  pub execute-WasRecorded :
      (new_id : Text) (now : ℕ) (s t : Store) (command : RecordBudgetConsumptionCommand)
      {out : RecordBudgetConsumptionResult}
      → Every (λ row. row.consumption_id ≢ new_id) s.budget_consumption
      → execute db new_id now s command ≡ ok (t, out)
      → (WasRecorded s command
          × (t ≡ s)
          × (out.already_recorded ≡ true)
          × (out.consumption_id ≡ none))
        ⊎ ((¬ WasRecorded s command)
            × ((r : BudgetConsumptionRecord) × IsBuilt new_id command r
                × (t ≡ record s { budget_consumption = r ∷ s.budget_consumption }))
            × (out.already_recorded ≡ false)
            × (out.consumption_id ≡ some new_id)
            × ((id : Text) → command.request_id ≡ some id → WasRecorded t command))
  unfolding write
  execute-WasRecorded new_id now s t command {out = out} fresh h =
      let (r, built, written, wrote, e) = execute-eq-ok db new_id now s t command h in
      let holds = new_record-IsBuilt new_id now command built in
      let duplicate = is_duplicate_iff db orders s command in
      elim (Bool-cases (is_duplicate db s command)) [
        | inl repeated ↦
            let nothing = ok-eq-ok (subst (λ b. write db s b r ≡ ok written) repeated wrote) in
            let same = subst (λ w. result_of db new_id command w ≡ (t, out)) (sym nothing) e in
            inl (
              duplicate.0 repeated,
              sym (ap (λ p. p.0) same),
              sym (ap (λ p. p.1.already_recorded) same),
              sym (ap (λ p. p.1.consumption_id) same),
            )
        | inr other ↦
            let new : ¬ WasRecorded s command =
              λ recorded. let again = duplicate.1 recorded in cc in
            let (added, said) =
              write_record-put db s r (not_refused new_id s command r holds fresh new)
                (not_repeated new_id s command r holds other) r.resource_type {u = written.0}
                {again = written.1} (subst (λ b. write db s b r ≡ ok written) other wrote) in
            let there : t ≡ put s r = sym (ap (λ p. p.0) e) ∙ added in
            inr (
              new,
              (r, holds, there),
              sym (ap (λ p. p.1.already_recorded) e) ∙ said,
              sym (ap (λ p. p.1.consumption_id) e) ∙ ap (λ b. if b then none else some new_id) said,
              λ id k.
                  subst (λ t. WasRecorded t command) (sym there)
                    (recorded_after new_id s command r holds id k),
            )
      ]

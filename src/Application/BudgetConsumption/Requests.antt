-- ===== src/Application/BudgetConsumption/Requests.antt =====
-- When a request is recorded, and what a built record holds (application/budget_consumption.py, data/records.py).
use mathlib.Core.List.{Perm}
use mathlib.Core.Path.{sym, ap, ◌∙◌}
use research_os.Common.{
  ℕ, Bool, true, false, Option, none, some, ℤ, pos, negsuc, zero, suc, Result, ok, err, List, [],
  ◌∷◌, keep, any, any-perm, any_iff, ◌≡◌, ◌↔◌, refl, ◌>>◌, ◌>>=◌, guard, not, arith, Some, ok-eq-ok,
  ◌&&◌, is_some,
}
use research_os.Common.Text.{Text, text_eq, text_eq_iff, text_eq_refl, is_blank}
use research_os.Data.Records.{
  DataError, ResourceType, BudgetConsumptionRecord, new_budget_consumption_record, positive,
  optional_mapping, is_optional_id, unit_fits, persistence_input_error,
}
use research_os.Data.Ledger.{same_optional}
use research_os.Data.Store.{Store, Database, of_budget, list_for_budget, is_repeat, same_resource}
use research_os.Application.BudgetConsumption.{
  RecordBudgetConsumptionCommand, lift, new_record, is_duplicate,
}

-- The row is of the request, with its identifier, and for the same resource of the same budget.
unfoldable pub IsOfRequest : Text → Option Text → ResourceType → BudgetConsumptionRecord → Type 0
IsOfRequest budget_id request_id resource row =
    (row.budget_id ≡ budget_id)
    × (row.resource_type ≡ resource)
    × ((id : Text) × (row.request_id ≡ some id) × (request_id ≡ some id))

unfoldable pub WasRecorded : Store → RecordBudgetConsumptionCommand → Type 0
WasRecorded s command =
    Some (IsOfRequest command.budget_id command.request_id command.resource_type)
      s.budget_consumption

any-keep {ℓ} :
    {A : Type ℓ} (p q : A → Bool) (xs : List A) → any p (keep q xs) ≡ any (λ x. q x && p x) xs
any-keep p q [] = refl
any-keep p q (x ∷ xs) = ground (arith, any-keep p q xs)

same_resource_refl : (a : ResourceType) → same_resource a a ≡ true
same_resource_refl a = ground arith

eq_of_same_resource : (a b : ResourceType) → same_resource a b ≡ true → a ≡ b
eq_of_same_resource a b h = ground arith

repeat_of :
    (q b : Text) (r c : ResourceType) (x y : Option Text)
    → (text_eq q b && (same_optional x y && same_resource r c && is_some y)) ≡ true
    → (q ≡ b) × (r ≡ c) × ((id : Text) × (x ≡ some id) × (y ≡ some id))
repeat_of q b r c none none h = ground arith
repeat_of q b r c none (some k) h = ground arith
repeat_of q b r c (some i) none h = ground arith
repeat_of q b r c (some i) (some k) h =
    let (mine, named, what) = both (text_eq q b) (text_eq i k) (same_resource r c) h in
    (
      (text_eq_iff q b).0 mine,
      eq_of_same_resource r c what,
      (k, ap some ((text_eq_iff i k).0 named), refl),
    )
  where
    both : (u v w : Bool) → (u && (v && w && true)) ≡ true → (u ≡ true) × (v ≡ true) × (w ≡ true)
    both true true true h = (refl, refl, refl)
    both true true false h = cc
    both true false w h = cc
    both false v w h = cc

of_repeat :
    (q b : Text) (r c : ResourceType) (x y : Option Text)
    → q ≡ b
    → r ≡ c
    → (id : Text) → x ≡ some id
    → y ≡ some id
    → (text_eq q b && (same_optional x y && same_resource r c && is_some y)) ≡ true
of_repeat q b r c x y e d id k l =
    rw (k, l, e, d, text_eq_refl b, text_eq_refl id, same_resource_refl c) refl

is_repeat_iff :
    (budget_id : Text) (request_id : Option Text) (resource : ResourceType)
    (row : BudgetConsumptionRecord)
    → ((of_budget budget_id row && is_repeat request_id resource row) ≡ true)
      ↔ IsOfRequest budget_id request_id resource row
unfolding IsOfRequest
is_repeat_iff budget_id request_id resource row = (
  repeat_of row.budget_id budget_id row.resource_type resource row.request_id request_id,
  λ (e, d, (id, k, l)).
      of_repeat row.budget_id budget_id row.resource_type resource row.request_id request_id e d id
        k l,
)

pub is_duplicate_iff :
    (db : Database)
    (orders : (rows : List BudgetConsumptionRecord) → Perm (db.order_by_consumption_id rows) rows)
    (s : Store) (command : RecordBudgetConsumptionCommand)
    → (is_duplicate db s command ≡ true) ↔ WasRecorded s command
unfolding list_for_budget WasRecorded
is_duplicate_iff db orders s command =
    let p = is_repeat command.request_id command.resource_type in
    let mine = keep (of_budget command.budget_id) s.budget_consumption in
    rw (any-perm p (orders mine), any-keep p (of_budget command.budget_id) s.budget_consumption)
      (any_iff (IsOfRequest command.budget_id command.request_id command.resource_type)
        (λ x. of_budget command.budget_id x && p x)
        (is_repeat_iff command.budget_id command.request_id command.resource_type)
        s.budget_consumption)

-- What a built record holds of its command
abbrev pub IsBuilt : Text → RecordBudgetConsumptionCommand → BudgetConsumptionRecord → Type 0
IsBuilt new_id command r =
    (r.consumption_id ≡ new_id)
    × (r.budget_id ≡ command.budget_id)
    × (r.request_id ≡ command.request_id)
    × (r.resource_type ≡ command.resource_type)
    × (pos r.amount ≡ command.amount)

guarded-ok :
    (a b c d e f g : Bool) (x : DataError) (p : Result DataError ℕ)
    (m : Result DataError (Unit {0})) (k : ℕ → BudgetConsumptionRecord)
    {r : BudgetConsumptionRecord}
    → (guard a x
        >> (guard b x
            >> (guard c x
                >> (p >>= λ n.
                    guard d x >> (guard e x >> (guard f x >> (m >> (guard g x >> ok (k n)))))))))
      ≡ ok r
    → (n : ℕ) × (p ≡ ok n) × (k n ≡ r)
guarded-ok true true true true true true true x (ok n) (ok u) k h = (n, refl, ok-eq-ok h)
guarded-ok a b c d e f g x p m k h = ground arith

positive-ok : (amount : ℤ) (n : ℕ) → positive amount ≡ ok n → pos n ≡ amount
positive-ok (pos zero) n h = cc
positive-ok (pos (suc k)) n h = ap pos (sym (ok-eq-ok h))
positive-ok (negsuc k) n h = cc

lift-ok : {A : Type 0} (m : Result DataError A) {a : A} → lift m ≡ ok a → m ≡ ok a
lift-ok (ok a) h = ap ok (ok-eq-ok h)
lift-ok (err e) h = cc

pub new_record-IsBuilt :
    (new_id : Text) (now : ℕ) (command : RecordBudgetConsumptionCommand)
    {r : BudgetConsumptionRecord}
    → new_record new_id now command ≡ ok r
    → IsBuilt new_id command r
unfolding new_budget_consumption_record
new_record-IsBuilt new_id now command h =
    let (n, amount, same) =
      guarded-ok (not (is_blank new_id)) (not (is_blank command.budget_id))
        (is_optional_id command.research_run_id) (not (is_blank command.provenance))
        (is_optional_id command.experiment_id) (is_optional_id command.request_id)
        (unit_fits command.resource_type command.unit) persistence_input_error
        (positive command.amount) (optional_mapping command.resource_metadata)
        (λ n. record {
          consumption_id = new_id;
          budget_id = command.budget_id;
          research_run_id = command.research_run_id;
          resource_type = command.resource_type;
          amount = n;
          unit = command.unit;
          occurred_at = now;
          provenance = command.provenance;
          experiment_id = command.experiment_id;
          request_id = command.request_id;
          resource_metadata = command.resource_metadata;
        })
        (lift-ok
          (new_budget_consumption_record new_id command.budget_id command.research_run_id
            command.resource_type command.amount command.unit now command.provenance
            command.experiment_id command.request_id command.resource_metadata)
          h) in
    let same = sym same in
    (
      ap (λ r. r.consumption_id) same,
      ap (λ r. r.budget_id) same,
      ap (λ r. r.request_id) same,
      ap (λ r. r.resource_type) same,
      ap (λ r. pos r.amount) same ∙ positive-ok command.amount n amount,
    )

-- ===== src/Data/Ledger/Totals.antt =====
-- What the allowance of the ledger keeps within an issued budget (data/budget_ledger.py).
use mathlib.Core.List.{Perm, Permᴰ}
use mathlib.Core.Logic.{∥∥₁_elim}
use mathlib.Core.Path.{◌∙◌}
use research_os.Common.{
  ℕ, zero, suc, ◌+◌, ◌≤◌, Bool, true, false, Option, ok, List, [], ◌∷◌, if◌then◌else◌, ◌≡◌, refl,
  ◌↔◌, arith,
}
use research_os.Data.Records.{
  ResourceType, request, worker_invocation, execution_time, IssuedBudgetRecord,
  BudgetConsumptionRecord, ResearchOrchestrationRecord,
}
use research_os.Data.Ledger.{
  LedgerTotals, add_record, total_from, ledger_totals, difference, exceeds_remaining,
  remaining_for_resource, assert_resource, assert_within_allowance,
}

pub data Counted : Type 0 where
  requests invocations runtime : Counted

abbrev pub counts : Counted → ResourceType → Bool
counts Counted.requests request = true
counts Counted.invocations worker_invocation = true
counts Counted.runtime execution_time = true
counts _ _ = false

abbrev pub limit : IssuedBudgetRecord → Counted → ℕ
limit b Counted.requests = b.max_requests
limit b Counted.invocations = b.max_tool_calls
limit b Counted.runtime = b.max_runtime_ms

abbrev pub total : LedgerTotals → Counted → ℕ
total t Counted.requests = t.worker_requests
total t Counted.invocations = t.worker_invocations
total t Counted.runtime = t.execution_time_ms

-- The sum of the amounts of a resource.
unfoldable pub spent : Counted → List BudgetConsumptionRecord → ℕ
spent c [] = 0
spent c (r ∷ rs) = (if counts c r.resource_type then r.amount else 0) + spent c rs

total-add_record :
    (c : Counted) (t : LedgerTotals) (r : BudgetConsumptionRecord)
    → total (add_record t r) c ≡ total t c + (if counts c r.resource_type then r.amount else 0)
unfolding add_record
total-add_record c t r = ground arith

total-total_from :
    (c : Counted) (t : LedgerTotals) (rs : List BudgetConsumptionRecord)
    → total (total_from t rs) c ≡ total t c + spent c rs
unfolding total_from spent
total-total_from c t [] = omega arith
total-total_from c t (r ∷ rs) =
    omega (arith, total-total_from c (add_record t r) rs, total-add_record c t r)

total-ledger_totals :
    (c : Counted) (rs : List BudgetConsumptionRecord) → total (ledger_totals rs) c ≡ spent c rs
unfolding ledger_totals
total-ledger_totals Counted.requests rs = omega (arith, total-total_from Counted.requests _ rs)
total-ledger_totals Counted.invocations rs =
    omega (arith, total-total_from Counted.invocations _ rs)
total-ledger_totals Counted.runtime rs = omega (arith, total-total_from Counted.runtime _ rs)

spent-permᴰ :
    (c : Counted) {xs ys : List BudgetConsumptionRecord} → Permᴰ xs ys → spent c xs ≡ spent c ys
unfolding spent
spent-permᴰ c Permᴰ.nil = refl
spent-permᴰ c (Permᴰ.cons e h) = rw (e, spent-permᴰ c h)
spent-permᴰ c (Permᴰ.swap d e) = rw (d, e) (omega arith)
spent-permᴰ c (Permᴰ.trans h k) = spent-permᴰ c h ∙ spent-permᴰ c k

ℕ_set : IsSet ℕ
ℕ_set = hlevel

pub spent-perm :
    (c : Counted) {xs ys : List BudgetConsumptionRecord} → Perm xs ys → spent c xs ≡ spent c ys
spent-perm c h = ∥∥₁_elim h (ℕ_set _ _) (spent-permᴰ c)

within_difference : (n a b : ℕ) → (exceeds_remaining n (difference a b) ≡ false) ↔ ((n + b) ≤ a)
unfolding difference
within_difference n a zero = (λ h. ground arith, λ h. ground arith)
within_difference n zero (suc b) = (λ h. cc, λ h. absurd (omega (arith, h)))
within_difference n (suc a) (suc b) =
    let rest = within_difference n a b in (λ h. ground (arith, rest), λ h. ground (arith, rest))

-- A record that the allowance lets through leaves every resource that its budget limits within that
-- budget, if it was so before.
pub assert_within_allowance-spent :
    (c : Counted) (b : IssuedBudgetRecord) (existing : List BudgetConsumptionRecord)
    (r : BudgetConsumptionRecord) (o : Option ResearchOrchestrationRecord)
    → assert_within_allowance b existing r o ≡ ok tt
    → spent c existing ≤ limit b c
    → spent c (r ∷ existing) ≤ limit b c
unfolding assert_within_allowance assert_resource remaining_for_resource spent
assert_within_allowance-spent Counted.requests b existing r o h k =
    let used = total-ledger_totals Counted.requests existing in
    let room = within_difference r.amount b.max_requests (ledger_totals existing).worker_requests in
    ground (arith, used, room)
assert_within_allowance-spent Counted.invocations b existing r o h k =
    let used = total-ledger_totals Counted.invocations existing in
    let room =
      within_difference r.amount b.max_tool_calls (ledger_totals existing).worker_invocations in
    ground (arith, used, room)
assert_within_allowance-spent Counted.runtime b existing r o h k =
    let used = total-ledger_totals Counted.runtime existing in
    let room =
      within_difference r.amount b.max_runtime_ms (ledger_totals existing).execution_time_ms in
    ground (arith, used, room)

-- The allowance lets a request, a worker invocation or a runtime through exactly if, with all that was
-- recorded of the same resource, it is within what was issued.
pub assert_within_allowance_iff :
    (c : Counted) (b : IssuedBudgetRecord) (existing : List BudgetConsumptionRecord)
    (r : BudgetConsumptionRecord) (o : Option ResearchOrchestrationRecord)
    → counts c r.resource_type ≡ true
    → (assert_within_allowance b existing r o ≡ ok tt) ↔ ((r.amount + spent c existing) ≤ limit b c)
unfolding assert_within_allowance assert_resource remaining_for_resource
assert_within_allowance_iff Counted.requests b existing r o h =
    let used = total-ledger_totals Counted.requests existing in
    let room = within_difference r.amount b.max_requests (ledger_totals existing).worker_requests in
    (λ w. ground (arith, used, room), λ w. ground (arith, used, room))
assert_within_allowance_iff Counted.invocations b existing r o h =
    let used = total-ledger_totals Counted.invocations existing in
    let room =
      within_difference r.amount b.max_tool_calls (ledger_totals existing).worker_invocations in
    (λ w. ground (arith, used, room), λ w. ground (arith, used, room))
assert_within_allowance_iff Counted.runtime b existing r o h =
    let used = total-ledger_totals Counted.runtime existing in
    let room =
      within_difference r.amount b.max_runtime_ms (ledger_totals existing).execution_time_ms in
    (λ w. ground (arith, used, room), λ w. ground (arith, used, room))

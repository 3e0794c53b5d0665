-- ===== src/Core/Pricing/Rounding.antt =====
-- Which calls have a price, and what splitting a call costs (core/pricing.py).
mod Examples
use research_os.Common.{
  ℕ, ◌+◌, ◌*◌, ◌/◌, ◌≤◌, ℤ, pos, negsuc, Option, none, some, Result, ok, err, ◌≡◌, refl, >>=-eq-ok,
  ok-eq-ok, ◌>>=◌, arith,
}
use research_os.Common.Text.{Text}
use research_os.Core.Enums.{CoreError}
use research_os.Core.Pricing.{rates, tokens, estimate_cost}

cost_sum :
    (a b c d p q : ℕ)
    → let x = (a * p + b * q) / 1000000 in
      let y = (c * p + d * q) / 1000000 in
      let z = ((a + c) * p + (b + d) * q) / 1000000 in (x + y ≤ z) × (z ≤ x + y + 1)
cost_sum a b c d p q = omega arith

-- Two calls of one model cost together at most what one call with all their tokens costs, and at
-- most one microdollar less.
pub estimate_cost_split :
    (model : Option Text) (a b c d x y z : ℕ)
    → estimate_cost model (some (pos a)) (some (pos b)) ≡ ok x
    → estimate_cost model (some (pos c)) (some (pos d)) ≡ ok y
    → estimate_cost model (some (pos (a + c))) (some (pos (b + d))) ≡ ok z
    → (x + y ≤ z) × (z ≤ x + y + 1)
unfolding estimate_cost tokens
estimate_cost_split model a b c d x y z f g h =
    let (r, e, _) = >>=-eq-ok (rates model) _ f in
    let k = cost_sum a b c d r.0 r.1 in ground (arith, e, k)

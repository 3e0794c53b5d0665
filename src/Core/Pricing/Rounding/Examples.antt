-- ===== src/Core/Pricing/Rounding/Examples.antt =====
-- Two short calls and one long one.
use research_os.Common.{pos, some, ok, ◌≡◌, refl}
use research_os.Common.Text.{codes}
use research_os.Core.Pricing.{price_of, rates, tokens, estimate_cost}

cost_one : estimate_cost (some (codes "gpt-4o-mini")) (some (pos 5)) (some (pos 0)) ≡ ok 0
unfolding estimate_cost rates price_of tokens
cost_one = refl

cost_two : estimate_cost (some (codes "gpt-4o-mini")) (some (pos 10)) (some (pos 0)) ≡ ok 1
unfolding estimate_cost rates price_of tokens
cost_two = refl

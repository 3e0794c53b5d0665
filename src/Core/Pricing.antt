-- ===== src/Core/Pricing.antt =====
-- core/pricing.py: what a model call costs, in microdollars.
pub mod Rounding
use research_os.Common.{
  ℕ, ◌+◌, ◌*◌, ◌/◌, Bool, true, false, ℤ, pos, negsuc, Option, none, some, Result, ok, err, List,
  [], ◌∷◌, ◌>>=◌, ◌>>◌, if◌then◌else◌,
}
use research_os.Common.Text.{Text, codes, text_eq}
use research_os.Core.Enums.{CoreError, unknown_model_price_error}

abbrev pub model_price_table : List (Text × ℕ × ℕ)
model_price_table =
    (codes "gpt-4o-mini", 150000, 600000)
    ∷ (codes "gpt-4o", 2500000, 10000000)
    ∷ (codes "claude-3-5-sonnet", 3000000, 15000000)
    ∷ (codes "local-fixture", 0, 0)
    ∷ []

-- `MODEL_PRICE_TABLE[model_id]`
price_of : Text → List (Text × ℕ × ℕ) → Option (ℕ × ℕ)
price_of model [] = none
price_of model ((name, input, output) ∷ rest) =
    if text_eq name model then some (input, output) else price_of model rest

-- `tokens if tokens is not None else 0`, which must not be negative
tokens : Option ℤ → Result CoreError ℕ
tokens none = ok 0
tokens (some (pos n)) = ok n
tokens (some (negsuc n)) = err unknown_model_price_error

rates : Option Text → Result CoreError (ℕ × ℕ)
unfolding price_of
rates none = err unknown_model_price_error
rates (some model) = elim (price_of model model_price_table) [
  | none ↦ err unknown_model_price_error
  | some r ↦ ok r
]

pub estimate_cost : Option Text → Option ℤ → Option ℤ → Result CoreError ℕ
estimate_cost model tokens_in tokens_out = do
  rate ← rates model
  in_tokens ← tokens tokens_in
  out_tokens ← tokens tokens_out
  ok ((in_tokens * rate.0 + out_tokens * rate.1) / 1000000)

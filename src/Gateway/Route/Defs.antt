-- ===== src/Gateway/Route/Defs.antt =====
-- `_generation_attempts` and `budget_rates` of backend/app/models/gateway.py.
use bug_free_enigma.Base.{
  ℕ, String, Option, none, some, List, [], ◌∷◌, ◌==◌, if◌then◌else◌, contains, Outcome, ok, ◌>>=◌,
}
use bug_free_enigma.Base.Text.{text_or}
use bug_free_enigma.Base.Dict.{lookup, get}
use bug_free_enigma.Budget.{max}
use bug_free_enigma.Gateway.{ModelPricing, ModelGateway, per_token_rates, models_of, selected_model}

-- a provider and a model to call it with
abbrev pub Attempt : Type 0
Attempt = String × String

-- the fallbacks behind the provider that was asked for
unfoldable pub fallbacks : ModelGateway → String → List String → Outcome (List Attempt)
fallbacks g provider_name [] = ok []
fallbacks g provider_name (name ∷ names) =
    let rest = fallbacks g provider_name names in
    if name == provider_name then rest else (do
      adapter ← get name g.providers
      attempts ← rest
      ok (
          if contains adapter.default_model (models_of name g.allowed_models)
          then (name, adapter.default_model) ∷ attempts
          else attempts))

-- `_generation_attempts`
unfoldable pub generation_attempts : ModelGateway → String → String → Outcome (List Attempt)
unfolding fallbacks
generation_attempts g provider_name selected_model = do
  attempts ← fallbacks g provider_name g.fallback_order
  ok ((provider_name, selected_model) ∷ attempts)

-- `self._pricing.get(provider, {}).get(model)`
unfoldable pub price_of : ModelGateway → Attempt → Option ModelPricing
price_of g (name, model) = elim (lookup name g.pricing) [
  | none ↦ none
  | some prices ↦ lookup model prices
]

-- the rates of one attempt, and the larger of the rates of several
abbrev pub rates_at : ModelGateway → ℕ → Attempt → ℕ × ℕ
rates_at g fallback_cost attempt = elim (price_of g attempt) [
  | none ↦ (fallback_cost, fallback_cost)
  | some pricing ↦ per_token_rates pricing
]

unfoldable pub highest_rates : ModelGateway → ℕ → ℕ × ℕ → List Attempt → ℕ × ℕ
highest_rates g fallback_cost rates [] = rates
highest_rates g fallback_cost rates (attempt ∷ attempts) =
    highest_rates g fallback_cost
      (
        max rates.0 (rates_at g fallback_cost attempt).0,
        max rates.1 (rates_at g fallback_cost attempt).1,
      )
      attempts

-- `budget_rates`. The route is never empty, so that its `max` never raises; no rate is below zero,
-- so that the search for the highest may start there.
unfoldable pub budget_rates : ModelGateway → Option String → Option String → ℕ → Outcome (ℕ × ℕ)
unfolding selected_model generation_attempts highest_rates
budget_rates g provider model_name fallback_cost_per_token =
    let provider_name = text_or g.default_provider provider in
    do
      selected ← selected_model g provider_name model_name
      attempts ← generation_attempts g provider_name selected
      ok (highest_rates g fallback_cost_per_token (0, 0) attempts)

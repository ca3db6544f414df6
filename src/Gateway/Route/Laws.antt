-- ===== src/Gateway/Route/Laws.antt =====
-- What a route holds, and that its rates cover every attempt (backend/app/models/gateway.py).
use bug_free_enigma.Base.{
  ℕ, ◌≤◌, ltb, String, Bool, true, false, not, Option, List, [], ◌∷◌, ◌≡◌, refl, arith, ◌==◌,
  contains, ok, All, length, filter, Option-cases, Bool-cases, inl, inr,
}
use bug_free_enigma.Base.Text.{text_or}
use bug_free_enigma.Base.Dict.{Dict, lookup, has_key}
use bug_free_enigma.Budget.{max}
use bug_free_enigma.Gateway.{
  or_local, ModelPricing, Provider, ModelGateway, models_of, selected_model, new_gateway,
}
use bug_free_enigma.Gateway.Route.Defs.{
  budget_rates, Attempt, fallbacks, generation_attempts, rates_at, highest_rates,
}

-- An attempt calls a configured provider with a model that is allowed for it.
abbrev pub IsAllowed : ModelGateway → Attempt → Type 0
IsAllowed g (name, model) =
    (has_key name g.providers ≡ true) × (contains model (models_of name g.allowed_models) ≡ true)

-- Every fallback of the gateway is configured.
abbrev pub IsRouted : ModelGateway → Type 0
IsRouted g = All (λ name. has_key name g.providers ≡ true) g.fallback_order

module _ (g : ModelGateway) (provider_name : String) where
  fallbacks-IsAllowed :
      (names : List String)
      → All (λ name. has_key name g.providers ≡ true) names
      → (attempts : List Attempt) × (fallbacks g provider_name names ≡ ok attempts)
        × All (IsAllowed g) attempts
  unfolding fallbacks
  fallbacks-IsAllowed [] h = ([], refl, tt)
  fallbacks-IsAllowed (name ∷ names) h =
      let (attempts, e, allowed) = fallbacks-IsAllowed names h.1 in
      elim (Bool-cases (name == provider_name)) [
        | inl same ↦ (attempts, rw (same, e) refl, allowed)
        | inr other ↦ elim (Option-cases (lookup name g.providers)) [
          | inl missing ↦ absurd (ground arith)
          | inr (adapter, found) ↦
              elim (Bool-cases (contains adapter.default_model (models_of name g.allowed_models))) [
                | inl c ↦
                    ((name, adapter.default_model) ∷ attempts, ground arith, ((h.0, c), allowed))
                | inr c ↦ (attempts, ground arith, allowed)
              ]
        ]
      ]

  selected_model-IsAllowed :
      (model_name : Option String) {model : String}
      → selected_model g provider_name model_name ≡ ok model
      → IsAllowed g (provider_name, model)
  unfolding selected_model
  selected_model-IsAllowed model_name {model} e = ground arith

  pub generation_attempts-IsAllowed :
      (model_name : Option String) {model : String}
      → IsRouted g
      → selected_model g provider_name model_name ≡ ok model
      → (attempts : List Attempt) × (generation_attempts g provider_name model
          ≡ ok ((provider_name, model) ∷ attempts))
        × All (IsAllowed g) ((provider_name, model) ∷ attempts)
  unfolding generation_attempts
  generation_attempts-IsAllowed model_name {model} routed e =
      let (attempts, f, allowed) = fallbacks-IsAllowed g.fallback_order routed in
      (attempts, rw f refl, (selected_model-IsAllowed model_name e, allowed))

max-trans-left : (a b c : ℕ) → max a b ≤ c → a ≤ c
max-trans-left a b c h = ground arith

max-trans-right : (a b c : ℕ) → max a b ≤ c → b ≤ c
max-trans-right a b c h = ground arith

-- The rates are at least those of an attempt.
abbrev pub Covers : ModelGateway → ℕ → ℕ × ℕ → Attempt → Type 0
Covers g cost rates attempt =
    ((rates_at g cost attempt).0 ≤ rates.0) × ((rates_at g cost attempt).1 ≤ rates.1)

module _ (g : ModelGateway) (cost : ℕ) where
  highest_rates-grow :
      (attempts : List Attempt) (rates : ℕ × ℕ)
      → (rates.0 ≤ (highest_rates g cost rates attempts).0)
        × (rates.1 ≤ (highest_rates g cost rates attempts).1)
  unfolding highest_rates
  highest_rates-grow [] rates = omega arith
  highest_rates-grow (attempt ∷ attempts) rates =
      let here = rates_at g cost attempt in
      let later = highest_rates-grow attempts (max rates.0 here.0, max rates.1 here.1) in
      (max-trans-left _ _ _ later.0, max-trans-left _ _ _ later.1)

  pub highest_rates-Covers :
      (attempts : List Attempt) (rates : ℕ × ℕ)
      → All (Covers g cost (highest_rates g cost rates attempts)) attempts
  unfolding highest_rates
  highest_rates-Covers [] rates = tt
  highest_rates-Covers (attempt ∷ attempts) rates =
      let here = rates_at g cost attempt in
      let next : ℕ × ℕ = (max rates.0 here.0, max rates.1 here.1) in
      let later = highest_rates-grow attempts next in
      (
        (max-trans-right _ _ _ later.0, max-trans-right _ _ _ later.1),
        highest_rates-Covers attempts next,
      )

filter_none :
    (p : String → Bool) (xs : List String)
    → ltb 0 (length (filter (λ x. not (p x)) xs)) ≡ false
    → All (λ x. p x ≡ true) xs
filter_none p [] h = tt
filter_none p (x ∷ xs) h = ground (arith, filter_none p xs, Bool-cases (p x))

new_gateway-parts :
    (providers : Dict Provider) (default_provider : String) (allowed : Dict (List String))
    (order : List String) (pricing : Dict (Dict ModelPricing)) (g : ModelGateway)
    → new_gateway providers default_provider allowed order pricing ≡ ok g
    → (or_local providers ≡ g.providers)
      × (order ≡ g.fallback_order)
      × (ltb 0 (length (filter (λ name. not (has_key name (or_local providers))) order)) ≡ false)
unfolding new_gateway
new_gateway-parts providers default_provider allowed order pricing g e = ground arith

new_gateway-IsRouted :
    (providers : Dict Provider) (default_provider : String) (allowed : Dict (List String))
    (order : List String) (pricing : Dict (Dict ModelPricing)) (g : ModelGateway)
    → new_gateway providers default_provider allowed order pricing ≡ ok g
    → IsRouted g
new_gateway-IsRouted providers default_provider allowed order pricing g e =
    let (same_providers, same_order, none_missing) =
      new_gateway-parts providers default_provider allowed order pricing g e in
    rw (← same_providers, ← same_order)
      (filter_none (λ name. has_key name (or_local providers)) order none_missing)

-- A gateway that was built has a route for every model that it selects. The route begins with what
-- was asked for, each attempt on it is a configured provider with a model allowed for it, and the
-- rates of the budget check are at least those of each attempt.
pub budget_rates-Covers :
    (providers : Dict Provider) (default_provider : String) (allowed : Dict (List String))
    (order : List String) (pricing : Dict (Dict ModelPricing)) (g : ModelGateway)
    (provider model_name : Option String) (model : String) (cost : ℕ)
    → new_gateway providers default_provider allowed order pricing ≡ ok g
    → selected_model g (text_or g.default_provider provider) model_name ≡ ok model
    → (rest : List Attempt) × (rates : ℕ × ℕ) × (let route =
          (text_or g.default_provider provider, model) ∷ rest in
        (generation_attempts g (text_or g.default_provider provider) model ≡ ok route)
        × (budget_rates g provider model_name cost ≡ ok rates)
        × All (IsAllowed g) route
        × All (Covers g cost rates) route)
unfolding budget_rates
budget_rates-Covers providers default_provider allowed order pricing g provider model_name model
      cost built selected =
    let name = text_or g.default_provider provider in
    let routed = new_gateway-IsRouted providers default_provider allowed order pricing g built in
    let (rest, e, are_allowed) = generation_attempts-IsAllowed g name model_name routed selected in
    let route : List Attempt = (name, model) ∷ rest in
    (
      rest,
      highest_rates g cost (0, 0) route,
      (e, rw (selected, e) refl, are_allowed, highest_rates-Covers g cost route (0, 0)),
    )

-- ===== src/Gateway/Tests.antt =====
-- A gateway with one provider that is down and the local one behind it
-- (backend/app/models/gateway.py).
use bug_free_enigma.Base.{ℕ, false, none, List, [], ◌∷◌, ◌≡◌, refl, ok, All, contains, with_item}
use bug_free_enigma.Base.Dict.{Dict, lookup, put}
use bug_free_enigma.Gateway.{
  ProviderReply, Provider, ModelPricing, ModelGateway, local_provider, local_generation,
  has_duplicates, allow_defaults, new_gateway, selected_model,
}
use bug_free_enigma.Gateway.Route.{
  Attempt, generation_attempts, budget_rates, IsAllowed, Covers, budget_rates-Covers,
}
use bug_free_enigma.Gateway.Attempts.{Call, Answer, try_provider, run_route}
use bug_free_enigma.Gateway.Attempts.Fallback.{IsFallback, run_route-IsFallback, run_route_answers}

abbrev down : Provider
down = record {
  default_model = "remote_v1";
  generate = λ moment prompt model purpose limit. ProviderReply.refused "connection refused";
  stream = none;
}

abbrev both : Dict Provider
both = ("remote", down) ∷ ("local", local_provider) ∷ []

abbrev prices : Dict (Dict ModelPricing)
prices =
    ("remote", ("remote_v1", record { input_per_million = 140; output_per_million = 280 }) ∷ [])
    ∷ []

abbrev gateway : ModelGateway
gateway = record {
  providers = both;
  default_provider = "remote";
  fallback_order = "local" ∷ [];
  pricing = prices;
  allowed_models = ("remote", "remote_v1" ∷ []) ∷ ("local", "deterministic_mock_v1" ∷ []) ∷ [];
}

built : new_gateway both "remote" [] ("local" ∷ []) prices ≡ ok gateway
unfolding new_gateway has_duplicates allow_defaults lookup contains put with_item
built = refl

budget_rates-Covers_example :
    (rest : List Attempt) × (rates : ℕ × ℕ) × (let route = ("remote", "remote_v1") ∷ rest in
      (generation_attempts gateway "remote" "remote_v1" ≡ ok route)
      × (budget_rates gateway none none 1000 ≡ ok rates)
      × All (IsAllowed gateway) route
      × All (Covers gateway 1000 rates) route)
unfolding selected_model lookup new_gateway has_duplicates allow_defaults contains put with_item
budget_rates-Covers_example =
    budget_rates-Covers both "remote" [] ("local" ∷ []) prices gateway none none "remote_v1" 1000
      refl refl

abbrev call : Call
call = record {
  moment = 0;
  prompt = "Summarize the week";
  purpose = "report";
  max_output_tokens = 100;
  streams = false;
}

abbrev route : List Attempt
route = ("remote", "remote_v1") ∷ ("local", "deterministic_mock_v1") ∷ []

abbrev answer : Answer
answer = record {
  generation = local_generation "Summarize the week" "report";
  by = ("local", "deterministic_mock_v1");
  attempted_providers = "remote" ∷ "local" ∷ [];
}

run_route-IsFallback_example : IsFallback gateway call [] route answer
unfolding run_route try_provider lookup
run_route-IsFallback_example = run_route-IsFallback gateway call [] "" route answer [] refl

run_route_answers_example : run_route gateway call [] "" route ≡ (ok answer, [])
unfolding try_provider lookup
run_route_answers_example =
    run_route_answers gateway call [] "" (("remote", "remote_v1") ∷ []) []
      ("local", "deterministic_mock_v1")
      (record {
        emitted = [];
        reply = ProviderReply.generated (local_generation "Summarize the week" "report");
      })
      (local_generation "Summarize the week" "report") (("connection refused", refl), tt) refl refl

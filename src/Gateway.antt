-- ===== src/Gateway.antt =====
-- backend/app/models/gateway.py: `ModelGateway` without its records of usage, and the local provider
-- of backend/app/models/providers.py. The other providers are given: their answers may depend on the
-- moment of the call. Prices are thousandths per million tokens, that is billionths per token.
pub mod Route
pub mod Attempts
pub mod Tests
use bug_free_enigma.Base.{
  ℕ, ◌+◌, ◌*◌, String, Bool, true, false, not, ◌&&◌, Option, none, some, List, [], ◌∷◌, ◌++◌, ltb,
  leb, ◌==◌, ◌=ℕ◌, if◌then◌else◌, filter, length, contains, with_item, map, Outcome, ok, err,
  provider_error, value_error, raise_if, ◌>>=◌, ◌>>◌,
}
use bug_free_enigma.Base.Dict.{Dict, lookup, put, has_key}
use bug_free_enigma.Base.Text.{text_or, join}
use bug_free_enigma.Budget.{estimate_tokens, mock_response, max}

pub record ProviderGeneration : Type 0 where
  pub output : String
  pub prompt_tokens : ℕ
  pub completion_tokens : ℕ
  pub total_tokens : ℕ

pub record ProviderStreamEvent : Type 0 where
  pub delta : Option String
  pub generation : Option ProviderGeneration

-- How a call of a provider ends: with its generation, or with a `ModelProviderError`'s text.
pub data ProviderReply : Type 0 where
  generated : ProviderGeneration → ProviderReply
  refused : String → ProviderReply

-- What a stream gives: its events, and the text of the `ModelProviderError` that broke it off.
pub record ProviderStream : Type 0 where
  pub events : List ProviderStreamEvent
  pub broken : Option String

-- `stream` is missing where the adapter has no such method. The arguments are the moment of the
-- call, the prompt, the model, the purpose and the limit on the output.
pub record Provider : Type 0 where
  pub default_model : String
  pub generate : ℕ → String → String → String → ℕ → ProviderReply
  pub stream : Option (ℕ → String → String → String → ℕ → ProviderStream)

pub record ModelPricing : Type 0 where
  pub input_per_million : ℕ
  pub output_per_million : ℕ

pub record ModelGateway : Type 0 where
  pub providers : Dict Provider
  pub default_provider : String
  pub fallback_order : List String
  pub pricing : Dict (Dict ModelPricing)
  pub allowed_models : Dict (List String)

-- `ModelPricing.estimate`
unfoldable pub estimate : ModelPricing → ℕ → ℕ → ℕ
estimate p prompt_tokens completion_tokens =
    prompt_tokens * p.input_per_million + completion_tokens * p.output_per_million

-- `ModelPricing.per_token_rates`
abbrev pub per_token_rates : ModelPricing → ℕ × ℕ
per_token_rates p = (p.input_per_million, p.output_per_million)

-- `DeterministicModelProvider`
abbrev pub local_generation : String → String → ProviderGeneration
local_generation prompt purpose =
    let output = mock_response prompt purpose in
    let prompt_tokens = estimate_tokens prompt in
    let completion_tokens = estimate_tokens output in
    record {
      output = output;
      prompt_tokens = prompt_tokens;
      completion_tokens = completion_tokens;
      total_tokens = prompt_tokens + completion_tokens;
    }

abbrev pub local_provider : Provider
local_provider = record {
  default_model = "deterministic_mock_v1";
  generate = λ moment prompt model purpose limit.
      ProviderReply.generated (local_generation prompt purpose);
  stream = some λ moment prompt model purpose limit. record {
    events =
        record { delta = some (local_generation prompt purpose).output; generation = none }
        ∷ record { delta = none; generation = some (local_generation prompt purpose) }
        ∷ [];
    broken = none;
  };
}

-- `len(set(names)) != len(names)`
unfoldable pub has_duplicates : List String → Bool
has_duplicates [] = false
has_duplicates (x ∷ xs) = if contains x xs then true else has_duplicates xs

abbrev pub models_of : String → Dict (List String) → List String
models_of name d = elim (lookup name d) [ none ↦ [] | some models ↦ models ]

-- `for name, adapter in self._providers.items(): ...`
unfoldable pub allow_defaults : Dict Provider → Dict (List String) → Dict (List String)
allow_defaults [] allowed = allowed
allow_defaults ((name, adapter) ∷ rest) allowed =
    allow_defaults rest
      (put name (with_item adapter.default_model (models_of name allowed)) allowed)

abbrev pub or_local : Dict Provider → Dict Provider
or_local [] = ("local", local_provider) ∷ []
or_local (p ∷ providers) = p ∷ providers

-- `ModelGateway.__init__`
unfoldable pub new_gateway :
    Dict Provider
    → String
    → Dict (List String)
    → List String
    → Dict (Dict ModelPricing)
    → Outcome ModelGateway
new_gateway given default_provider allowed_models fallback_order pricing =
    let providers = or_local given in
    let missing = filter (λ name. not (has_key name providers)) fallback_order in
    do
      raise_if (not (has_key default_provider providers))
          (provider_error "model provider is not configured" (default_provider ∷ []))
      raise_if (has_duplicates fallback_order)
          (provider_error "model fallback providers must not contain duplicates" [])
      raise_if (ltb 0 (length missing))
          (provider_error "model fallback provider is not configured: " (join ", " missing ∷ []))
      ok (record {
        providers = providers;
        default_provider = default_provider;
        fallback_order = fallback_order;
        pricing = pricing;
        allowed_models = allow_defaults providers allowed_models;
      })

-- `_selected_model`
unfoldable pub selected_model : ModelGateway → String → Option String → Outcome String
selected_model g provider_name model_name = elim (lookup provider_name g.providers) [
  | none ↦ err (provider_error "model provider is not configured" (provider_name ∷ []))
  | some adapter ↦
      let model = text_or adapter.default_model model_name in
      if contains model (models_of provider_name g.allowed_models)
      then ok model
      else err (provider_error "model is not allowlisted" (provider_name ∷ model ∷ []))
]

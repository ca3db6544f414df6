-- ===== src/Gateway/Attempts.antt =====
-- The attempts of `ModelGateway.generate` (backend/app/models/gateway.py), one provider of the route
-- after another. What is handed to `on_delta` is listed in the order in which it is handed over.
pub mod Fallback
use bug_free_enigma.Base.{
  ℕ, String, Bool, true, false, Option, none, some, List, [], ◌∷◌, ◌++◌, ◌==◌, if◌then◌else◌,
  length, ◌=ℕ◌, Outcome, ok, err, provider_error, key_error,
}
use bug_free_enigma.Base.Dict.{lookup}
use bug_free_enigma.Base.Text.{◌<>◌, join}
use bug_free_enigma.Gateway.{
  ProviderGeneration, ProviderStreamEvent, ProviderReply, ProviderStream, Provider, ModelGateway,
}
use bug_free_enigma.Gateway.Route.{Attempt}

-- The arguments of a call: the moment, the prompt, the purpose, the limit on the output, and
-- whether there is an `on_delta`.
pub record Call : Type 0 where
  pub moment : ℕ
  pub prompt : String
  pub purpose : String
  pub max_output_tokens : ℕ
  pub streams : Bool

-- the pieces of text that a stream hands over
unfoldable pub deltas : List ProviderStreamEvent → List String
deltas [] = []
deltas (event ∷ events) = elim event.delta [
  | none ↦ deltas events
  | some text ↦ if text == "" then deltas events else text ∷ deltas events
]

-- the last generation of a stream
unfoldable pub last_generation :
    Option ProviderGeneration → List ProviderStreamEvent → Option ProviderGeneration
last_generation found [] = found
last_generation found (event ∷ events) =
    last_generation (elim event.generation [ none ↦ found | some g ↦ some g ]) events

-- One attempt: how it ends, and what it handed over before.
pub record Tried : Type 0 where
  pub emitted : List String
  pub reply : ProviderReply

abbrev stream_reply : String → ProviderStream → ProviderReply
stream_reply name s = elim s.broken [
  | some text ↦ ProviderReply.refused text
  | none ↦ elim (last_generation none s.events) [
    | none ↦ ProviderReply.refused (name <> " stream ended without a final response")
    | some g ↦ ProviderReply.generated g
  ]
]

abbrev emitted_by : Bool → ProviderReply → List String
emitted_by true (ProviderReply.generated g) = g.output ∷ []
emitted_by true (ProviderReply.refused _) = []
emitted_by false _ = []

abbrev by_generate : Provider → Call → String → Tried
by_generate adapter call model =
    let reply =
      adapter.generate call.moment call.prompt model call.purpose call.max_output_tokens in
    record { emitted = emitted_by call.streams reply; reply = reply }

unfoldable pub try_provider : Provider → Call → Attempt → Tried
try_provider adapter call (name, model) =
    if call.streams
    then elim adapter.stream [
      | none ↦ by_generate adapter call model
      | some stream ↦
          let s = stream call.moment call.prompt model call.purpose call.max_output_tokens in
          record { emitted = deltas s.events; reply = stream_reply name s }
    ]
    else by_generate adapter call model

-- What the route ends with.
pub record Answer : Type 0 where
  pub generation : ProviderGeneration
  pub by : Attempt
  pub attempted_providers : List String

-- The error when every attempt has failed: the only one's own, or the list of the providers.
abbrev all_failed : List String → String → String
all_failed attempted text =
    if length attempted =ℕ 1 then text else "model providers failed: " <> join ", " attempted

-- The loop over the route, behind the providers that were tried, the last of which failed with
-- `text`.
unfoldable pub run_route :
    ModelGateway → Call → List String → String → List Attempt → Outcome Answer × List String
run_route g call attempted text [] = (err (provider_error (all_failed attempted text) []), [])
run_route g call attempted text ((name, model) ∷ route) = elim (lookup name g.providers) [
  | none ↦ (err (key_error name), [])
  | some adapter ↦
      let tried = try_provider adapter call (name, model) in
      let now_attempted = attempted ++ name ∷ [] in
      elim tried.reply [
        | ProviderReply.generated generation ↦ (
          ok (record {
            generation = generation;
            by = (name, model);
            attempted_providers = now_attempted;
          }),
          tried.emitted,
        )
        | ProviderReply.refused reason ↦ elim tried.emitted [
          | [] ↦ run_route g call now_attempted reason route
          | _ ∷ _ ↦ (
            err (provider_error (name <> " stream was interrupted after partial output") []),
            tried.emitted,
          )
        ]
      ]
]

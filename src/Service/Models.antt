-- ===== src/Service/Models.antt =====
-- Calls of a model through the service: `ModelGateway.generate` with its records of usage
-- (backend/app/models/gateway.py) and `generate_model_response` (backend/app/services/company.py).
pub mod Calls
pub mod Ledger
pub mod Tests
use bug_free_enigma.Base.{
  ℕ, ◌*◌, String, Bool, true, false, not, Option, none, some, List, [], ◌∷◌, ◌++◌, ltb, ◌==◌,
  if◌then◌else◌, Outcome, ok, err, Error, value_error, provider_error, key_error, permission_error,
  type_error, overflow_error,
}
use bug_free_enigma.Base.Dict.{get}
use bug_free_enigma.Base.Text.{text_or, ◌<>◌}
use bug_free_enigma.Core.Enums.{ApprovalStatus, RiskLevel}
use bug_free_enigma.Core.Models.Budget.{BudgetCheck, CostLog, ModelUsageRecord}
use bug_free_enigma.Budget.{check_model_call, max_output_tokens, record_cost}
use bug_free_enigma.Gateway.{ProviderGeneration, ModelGateway, selected_model, estimate}
use bug_free_enigma.Gateway.Route.{Attempt, generation_attempts, price_of, budget_rates}
use bug_free_enigma.Gateway.Attempts.{Call, Answer, run_route}
use bug_free_enigma.Core.Models.Control.{Incident}
use bug_free_enigma.Service.State.{Env, Company}
use bug_free_enigma.Service.Actions.{
  Action, pure, raise, lift, gets, asks, modify, guard, ◌>>=◌, ◌>>◌, new_id, utc_now,
}
use bug_free_enigma.Service.Records.{log_event, report_incident}

pub record ModelResponse : Type 0 where
  pub output : String
  pub usage : ModelUsageRecord
  pub requested_provider : String
  pub attempted_providers : List String
  pub fallback_used : Bool

-- What is asked for. `streams` says whether there is an `on_delta`; a call of it is taken not to
-- raise.
pub record ModelCall : Type 0 where
  pub prompt : String
  pub actor_id : String
  pub purpose : String
  pub task_id : Option String
  pub model_name : Option String
  pub provider : Option String
  pub streams : Bool

-- What comes back: a response with what it cost, or the check that blocked the call and the
-- incident.
pub data ModelReply : Type 0 where
  blocked : BudgetCheck → CostLog → Incident → ModelReply
  responded : ModelResponse → BudgetCheck → CostLog → ModelReply

-- what the usage of a generation costs
unfoldable pub cost_of : ModelGateway → ℕ → Attempt → ProviderGeneration → ℕ
cost_of g cost_per_token attempt generation = elim (price_of g attempt) [
  | none ↦ generation.total_tokens * cost_per_token
  | some pricing ↦ estimate pricing generation.prompt_tokens generation.completion_tokens
]

module _ (env : Env) (g : ModelGateway) where
  -- `fingerprint`
  abbrev fingerprint : String → String → String
  fingerprint value kind = kind <> "_sha256_" <> env.sha256 value

  -- `record_usage`
  unfoldable pub record_usage :
      ModelCall → ℕ → Attempt → ProviderGeneration → Action ModelUsageRecord
  unfolding new_id utc_now
  record_usage call cost_per_token attempt generation = do
    record_id ← new_id env "model_usage"
    created_at ← utc_now env
    let usage : ModelUsageRecord = record {
      model_name = attempt.1;
      provider = attempt.0;
      actor_id = call.actor_id;
      task_id = call.task_id;
      purpose = call.purpose;
      prompt_tokens = generation.prompt_tokens;
      completion_tokens = generation.completion_tokens;
      total_tokens = generation.total_tokens;
      estimated_cost = cost_of g cost_per_token attempt generation;
      input_ref = fingerprint call.prompt "input";
      output_ref = fingerprint generation.output "output";
      record_id = record_id;
      created_at = created_at;
    }
    modify (λ c. record c { usage = c.usage ++ usage ∷ [] })
    pure usage

  abbrev pub call_at : ModelCall → ℕ → ℕ → Call
  call_at call limit moment = record {
    moment = moment;
    prompt = call.prompt;
    purpose = call.purpose;
    max_output_tokens = limit;
    streams = call.streams;
  }

  -- the first answer on the route, which changes no state of the program
  unfoldable pub answer_of : ModelCall → ℕ → ℕ → Outcome Answer
  answer_of call limit moment =
      let provider_name = text_or g.default_provider call.provider in
      elim (selected_model g provider_name call.model_name) [
        | err e ↦ err e
        | ok model ↦
            if ltb limit 1
            then err (value_error "max_output_tokens must be greater than zero" [])
            else elim (generation_attempts g provider_name model) [
              | err e ↦ err e
              | ok route ↦ (run_route g (call_at call limit moment) [] "" route).0
            ]
      ]

  -- `generate`
  unfoldable pub generate : ModelCall → ℕ → ℕ → Action ModelResponse
  generate call cost_per_token limit =
      let provider_name = text_or g.default_provider call.provider in
      do
        answer ← asks (λ c. answer_of call limit c.clock_reads)
        usage ← record_usage call cost_per_token answer.by answer.generation
        pure (record {
          output = answer.generation.output;
          usage = usage;
          requested_provider = provider_name;
          attempted_providers = answer.attempted_providers;
          fallback_used = not (answer.by.0 == provider_name);
        })

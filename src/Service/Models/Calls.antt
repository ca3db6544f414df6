-- ===== src/Service/Models/Calls.antt =====
-- `generate_model_response` of backend/app/services/company.py, part by part.
use bug_free_enigma.Base.{
  ℕ, String, not, Option, none, some, [], ◌∷◌, ◌++◌, if◌then◌else◌, Outcome, ok, err, Error,
  value_error, provider_error, key_error, permission_error, type_error, overflow_error,
}
use bug_free_enigma.Base.Dict.{get}
use bug_free_enigma.Core.Enums.{ApprovalStatus, RiskLevel}
use bug_free_enigma.Core.Models.Budget.{BudgetCheck, CostLog}
use bug_free_enigma.Budget.{check_model_call, max_output_tokens}
use bug_free_enigma.Gateway.{ModelGateway}
use bug_free_enigma.Gateway.Route.{budget_rates}
use bug_free_enigma.Service.State.{Env}
use bug_free_enigma.Service.Actions.{
  Action, pure, raise, gets, asks, modify, ◌>>=◌, ◌>>◌, new_id, utc_now,
}
use bug_free_enigma.Service.Records.{report_incident}
use bug_free_enigma.Service.Embeddings.{charge, sync}
use bug_free_enigma.Service.Models.{ModelResponse, ModelCall, ModelReply, generate}

module _ (env : Env) (g : ModelGateway) where
  -- `self.company_os.budget.record_cost(source_type="model_usage", ...)`
  abbrev pub log_cost : ModelCall → String → ℕ → ℕ → String → String → Action CostLog
  log_cost call source_id tokens amount result reason =
      charge env source_id call.actor_id call.task_id tokens amount result reason

  -- an audit event about a call, with the model that it names
  unfoldable pub log_model_event :
      String
      → ModelCall
      → RiskLevel
      → ApprovalStatus
      → String
      → Option String
      → Option String
      → Option String
      → Option String
      → Action Unit
  unfolding new_id utc_now
  log_model_event event_type call risk_level approval_status result input_ref output_ref error
        model_name =
      do
        event_id ← new_id env "audit"
        created_at ← utc_now env
        modify (λ c. record c {
          audit =
              c.audit
              ++ record {
                event_type = event_type;
                actor_id = call.actor_id;
                action = call.purpose;
                task_id = call.task_id;
                risk_level = risk_level;
                approval_status = approval_status;
                result = result;
                input_ref = input_ref;
                output_ref = output_ref;
                error = error;
                model_name = model_name;
                version = "1.0.0";
                event_id = event_id;
                created_at = created_at;
              }
                ∷ [];
        })

  -- a call that the budget does not allow
  unfoldable pub block_call : ModelCall → BudgetCheck → Action ModelReply
  unfolding log_model_event
  block_call call check = do
    cost_log ←
        log_cost call "blocked" check.estimated_tokens check.estimated_cost "blocked" check.reason
    log_model_event "model_blocked" call RiskLevel.medium ApprovalStatus.blocked check.reason none
        none none none
    incident ←
        report_incident env "Model call blocked by budget policy" check.reason "model_usage"
          cost_log.record_id RiskLevel.medium call.task_id (some call.actor_id)
          "Review the budget policy, prompt size, or model usage need before retrying."
    sync env
    pure (ModelReply.blocked check cost_log incident)

  -- `except ModelProviderError as exc`
  unfoldable pub report_failed_call : ModelCall → BudgetCheck → Error → Action ModelReply
  unfolding log_model_event
  report_failed_call call check exc = do
    cost_log ←
        log_cost call "provider_failed" check.estimated_tokens 0 "failed" (env.error_text exc)
    log_model_event "model_failed" call RiskLevel.medium ApprovalStatus.not_required
        "provider request failed" none none (some (env.error_text exc)) call.model_name
    report_incident env "Model provider request failed" (env.error_text exc) "model_usage"
        cost_log.record_id RiskLevel.medium call.task_id (some call.actor_id)
        "Check provider credentials, endpoint health, and model configuration before retrying."
    sync env
    raise exc

  unfoldable pub record_response : ModelCall → BudgetCheck → ModelResponse → Action ModelReply
  unfolding log_model_event
  record_response call check response = do
    cost_log ←
        log_cost call response.usage.record_id response.usage.total_tokens
          response.usage.estimated_cost "recorded" "model usage recorded"
    log_model_event "model_called" call RiskLevel.low ApprovalStatus.not_required
        (if response.fallback_used then "model fallback used" else "model usage recorded")
        (some response.usage.input_ref) (some response.usage.output_ref) none
        (some response.usage.model_name)
    sync env
    pure (ModelReply.responded response check cost_log)

  -- what follows `generate`: only a `ModelProviderError` is caught
  abbrev pub after_generate : ModelCall → BudgetCheck → Outcome ModelResponse → Action ModelReply
  after_generate call check (ok response) = record_response call check response
  after_generate call check (err (provider_error text names)) =
      report_failed_call call check (provider_error text names)
  after_generate call check (err (key_error k)) = raise (key_error k)
  after_generate call check (err (value_error text names)) = raise (value_error text names)
  after_generate call check (err (permission_error text)) = raise (permission_error text)
  after_generate call check (err (type_error text)) = raise (type_error text)
  after_generate call check (err overflow_error) = raise overflow_error

  -- `generate` with the limit on the output that the budget leaves
  unfoldable pub run_call : ModelCall → BudgetCheck → ℕ × ℕ → Action ModelReply
  run_call call check (input_rate, output_rate) c =
      let (response, c') =
        generate env g call c.budget.policy.cost_per_token
          (max_output_tokens c.budget call.prompt (some input_rate) (some output_rate)) c in
      after_generate call check response c'

  unfoldable pub generate_model_response : ModelCall → Action ModelReply
  generate_model_response call = do
    asks (λ c. get call.actor_id c.agents)
    rates ← asks (λ c. budget_rates g call.provider call.model_name c.budget.policy.cost_per_token)
    check ←
        gets (λ c. check_model_call c.budget call.prompt call.purpose (some rates.0) (some rates.1))
    if not check.allowed then block_call call check else run_call call check rates

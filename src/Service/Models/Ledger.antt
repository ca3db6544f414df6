-- ===== src/Service/Models/Ledger.antt =====
-- What a call of a model leaves in the budget (backend/app/services/company.py:
-- `generate_model_response`).
use bug_free_enigma.Base.{ℕ, String, true, false, [], ◌∷◌, ◌++◌, ◌≡◌, ◌⊎◌, Outcome, ok, err, Error}
use bug_free_enigma.Base.Text.{◌<>◌}
use bug_free_enigma.Core.Models.Budget.{CostLog}
use bug_free_enigma.Budget.{BudgetGuard, record_cost}
use bug_free_enigma.Gateway.{ModelGateway}
use bug_free_enigma.Service.State.{Env, Company}
use bug_free_enigma.Service.Embeddings.Ledger.{Indexes}
use bug_free_enigma.Service.Models.{ModelCall, ModelReply}

-- What the log of a call says of its end.
abbrev pub Explains : Env → Outcome ModelReply → CostLog → Type 0
Explains env (ok (ModelReply.blocked check cost_log incident)) log =
    (cost_log ≡ log)
    × (check.allowed ≡ false)
    × (log.result ≡ "blocked")
    × (log.tokens ≡ check.estimated_tokens)
    × (log.amount ≡ check.estimated_cost)
Explains env (ok (ModelReply.responded response check cost_log)) log =
    (cost_log ≡ log)
    × (check.allowed ≡ true)
    × (log.result ≡ "recorded")
    × (log.source_id ≡ response.usage.record_id)
    × (log.tokens ≡ response.usage.total_tokens)
    × (log.amount ≡ response.usage.estimated_cost)
Explains env (err e) log =
    (log.result ≡ "failed") × (log.amount ≡ 0) × (log.reason ≡ env.error_text e)

-- The second guard has this log behind those of the first, and after it logs of indexing alone.
abbrev pub Adds : CostLog → BudgetGuard → BudgetGuard → Type 0
Adds log b d = Indexes (record b { cost_logs = b.cost_logs ++ log ∷ [] }) d

module _ (env : Env) (g : ModelGateway) (call : ModelCall) where
  -- A call that leaves its one log.
  pub record IsLogged (b : BudgetGuard) (x : Outcome ModelReply × BudgetGuard) : Type 0 where
    pub log : CostLog
    pub its_actor : log.actor_id ≡ call.actor_id
    pub its_task : log.task_id ≡ call.task_id
    pub explains : Explains env x.0 log
    pub adds : Adds log b x.1

  -- the log that `charge` makes
  abbrev log_of : String → ℕ → ℕ → String → String → Company → CostLog
  log_of source_id tokens amount result reason c =
      (record_cost c.budget "model_usage" source_id call.actor_id call.task_id tokens amount result
        reason ("cost_log" <> "_" <> env.uuid_hex c.ids_drawn) (env.clock c.clock_reads)).0

  -- the result of a part, and the budget that it leaves
  abbrev seen : Outcome ModelReply × Company → Outcome ModelReply × BudgetGuard
  seen x = (x.0, x.1.budget)

  -- What a call does to the budget: it raises and leaves it, or it leaves its one log.
  abbrev pub Ends : BudgetGuard → Outcome ModelReply × BudgetGuard → Type 0
  Ends b x = ((e : Error) × (x.0 ≡ err e) × (x.1 ≡ b)) ⊎ IsLogged b x

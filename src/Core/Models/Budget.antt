-- ===== src/Core/Models/Budget.antt =====
-- backend/app/core/models.py: the budget policy, its checks, the costs and the model usage. Amounts
-- of money are whole billionths, to which the program rounds; so are the rates per token.
use bug_free_enigma.Base.{ℕ, String, Bool, Option}
use bug_free_enigma.Core.Time.{Instant}

pub record BudgetPolicy : Type 0 where
  pub name : String
  pub max_tokens_per_call : ℕ
  pub max_total_tokens : ℕ
  pub max_estimated_cost : ℕ
  pub cost_per_token : ℕ
  pub currency : String
  pub enabled : Bool
  pub policy_id : String
  pub created_at : Instant

pub record BudgetCheck : Type 0 where
  pub allowed : Bool
  pub reason : String
  pub estimated_tokens : ℕ
  pub estimated_cost : ℕ
  pub policy_id : String

pub record CostLog : Type 0 where
  pub source_type : String
  pub source_id : String
  pub actor_id : String
  pub task_id : Option String
  pub tokens : ℕ
  pub amount : ℕ
  pub currency : String
  pub result : String
  pub reason : String
  pub record_id : String
  pub created_at : Instant

pub record ModelUsageRecord : Type 0 where
  pub model_name : String
  pub provider : String
  pub actor_id : String
  pub task_id : Option String
  pub purpose : String
  pub prompt_tokens : ℕ
  pub completion_tokens : ℕ
  pub total_tokens : ℕ
  pub estimated_cost : ℕ
  pub input_ref : String
  pub output_ref : String
  pub record_id : String
  pub created_at : Instant

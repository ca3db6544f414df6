-- ===== src/Service/BudgetPolicy/Tests.antt =====
-- An update of the budget policy (backend/app/services/company.py).
use bug_free_enigma.Base.{String, true, ◌≡◌, refl}
use bug_free_enigma.Base.Int.{pos}
use bug_free_enigma.Base.Text.{strip, is_blank}
use bug_free_enigma.Core.Models.Budget.{BudgetPolicy}
use bug_free_enigma.Budget.Update.{PolicyInput, update_policy}
use bug_free_enigma.Service.Sample.{env, company}
use bug_free_enigma.Service.Records.{log_event}
use bug_free_enigma.Service.Embeddings.{sync, index_missing_knowledge}
use bug_free_enigma.Service.BudgetPolicy.{store_policy, close_update, update_budget_policy}

abbrev root : String
root = "human_root"

abbrev asked : PolicyInput
asked = record {
  name = " Team ";
  max_tokens_per_call = pos 500;
  max_total_tokens = pos 5000;
  max_estimated_cost = pos 1000;
  cost_per_token = pos 2;
  currency = "eur";
  enabled = true;
}

root_may_update :
    (update_budget_policy env (λ s. s) root asked company).1.budget.policy.max_total_tokens ≡ 5000
unfolding update_budget_policy store_policy close_update sync index_missing_knowledge update_policy
    log_event is_blank strip
root_may_update = refl

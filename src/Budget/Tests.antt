-- ===== src/Budget/Tests.antt =====
-- The budget guard on concrete calls (backend/app/budget/guard.py).
use bug_free_enigma.Base.{Error, err, ◌⊎◌, ◌≤◌, true, none, [], ◌≡◌, refl, arith, ok, sum_of}
use bug_free_enigma.Base.Float.{nearest, bits, double, scaled, plus, minus, int_quotient, round_9}
use bug_free_enigma.Base.Int.{pos}
use bug_free_enigma.Base.Text.{words, join, prefix}
use bug_free_enigma.Core.Models.Budget.{BudgetPolicy}
use bug_free_enigma.Budget.{
  BudgetGuard, estimate_tokens, mock_response, spent_tokens, spent_cost, check_model_call,
  max_output_tokens,
}
use bug_free_enigma.Budget.Limits.{FitsTokens, max_output_tokens-FitsTokens}
use bug_free_enigma.Budget.Update.{PolicyInput, Describes, update_policy, update_policy_exact}

abbrev small_budget : BudgetGuard
small_budget = record {
  policy = record {
    name = "Small";
    max_tokens_per_call = 40;
    max_total_tokens = 100;
    max_estimated_cost = 30000;
    cost_per_token = 1000;
    currency = "USD";
    enabled = true;
    policy_id = "budget_policy_1";
    created_at = 0;
  };
  cost_logs = [];
}

estimated : estimate_tokens "hello" ≡ 2
unfolding estimate_tokens
estimated = refl

cost_is_the_limit : max_output_tokens small_budget "Summarize the week" none none ≡ 25
unfolding max_output_tokens estimate_tokens spent_tokens spent_cost sum_of nearest double scaled
    minus int_quotient bits
cost_is_the_limit = refl

-- Of 26 millionths, at a rate of one, three tokens of the prompt leave 23 to the completion, but the
-- quotient of the doubles is a little less than 23.
one_token_is_lost :
    max_output_tokens
      (record small_budget { policy = record small_budget.policy { max_estimated_cost = 26000 } })
      "Summarize"
      none
      none
    ≡ 22
unfolding max_output_tokens estimate_tokens spent_tokens spent_cost sum_of nearest double scaled
    minus int_quotient bits
one_token_is_lost = refl

max_output_tokens-FitsTokens_example :
    (1 ≤ max_output_tokens small_budget "Summarize the week" none none)
    × FitsTokens small_budget "Summarize the week" none none 20
unfolding check_model_call estimate_tokens mock_response spent_tokens spent_cost sum_of words join
    prefix max_output_tokens nearest double scaled plus minus int_quotient round_9 bits
max_output_tokens-FitsTokens_example =
    max_output_tokens-FitsTokens small_budget "Summarize the week" none none "report" refl refl 20
      (omega arith)

abbrev asked : PolicyInput
asked = record {
  name = " Team ";
  max_tokens_per_call = pos 500;
  max_total_tokens = pos 5000;
  max_estimated_cost = pos 1000;
  cost_per_token = pos 2;
  currency = "eur";
  enabled = true;
}

update_policy_exact_example :
    ((h : BudgetGuard) × (update_policy (λ s. s) small_budget asked ≡ ok h)
      × Describes asked h.policy
      × (h.cost_logs ≡ small_budget.cost_logs)
      × (h.policy.enabled ≡ true))
    ⊎ ((e : Error) × (update_policy (λ s. s) small_budget asked ≡ err e)
        × ((p : BudgetPolicy) → ¬ (Describes asked p)))
update_policy_exact_example = update_policy_exact (λ s. s) small_budget asked

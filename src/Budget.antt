-- ===== src/Budget.antt =====
-- backend/app/budget/guard.py: `BudgetGuard`. Amounts and rates are kept in whole billionths and
-- stand for the doubles nearest to them; what the guard computes of them is computed in doubles.
pub mod Limits
pub mod Update
pub mod Tests
use Prim.Native.String.{count}
use bug_free_enigma.Base.{
  ℕ, ◌+◌, ◌-◌, ◌*◌, ◌/◌, String, Bool, true, false, not, Option, none, some, List, [], ◌∷◌, ◌++◌,
  ltb, leb, ◌=ℕ◌, ◌==◌, if◌then◌else◌, filter, sum_of,
}
use bug_free_enigma.Base.Float.{nearest, double, scaled, plus, minus, int_quotient, round_9}
use bug_free_enigma.Base.Text.{◌<>◌, words, join, prefix}
use bug_free_enigma.Core.Time.{Instant}
use bug_free_enigma.Core.Models.Budget.{BudgetPolicy, BudgetCheck, CostLog}

pub record BudgetGuard : Type 0 where
  pub policy : BudgetPolicy
  pub cost_logs : List CostLog

-- the smaller and the larger of two integers
abbrev pub min : ℕ → ℕ → ℕ
min a b = if leb a b then a else b

abbrev pub max : ℕ → ℕ → ℕ
max a b = if leb a b then b else a

-- `_estimate_tokens`
unfoldable pub estimate_tokens : String → ℕ
estimate_tokens text = if text == "" then 0 else max 1 ((count text + 3) / 4)

abbrev compacted : String → String
compacted text = if ltb 180 (count text) then prefix 177 text <> "..." else text

-- `_mock_response`
unfoldable pub mock_response : String → String → String
mock_response prompt purpose =
    "[" <> (purpose <> ("] Deterministic model response: " <> compacted (join " " (words prompt))))

abbrev pub rate_or : ℕ → Option ℕ → ℕ
rate_or default none = default
rate_or _ (some rate) = rate

abbrev pub is_recorded : CostLog → Bool
is_recorded log = log.result == "recorded"

-- `sum(log.tokens for log in self._cost_logs if log.result == "recorded")`, and of the amounts
unfoldable pub spent_tokens : List CostLog → ℕ
spent_tokens logs = sum_of (λ log. log.tokens) (filter is_recorded logs)

-- in units of a double; Python's `sum` makes up for the rounding of its additions, and is taken to
-- give the double nearest to the sum
unfoldable pub spent_cost : List CostLog → ℕ
spent_cost logs = nearest (sum_of (λ log. double log.amount) (filter is_recorded logs)) 1

-- the checks of `check_model_call`, of the tokens and the cost that it estimates
abbrev pub judged : BudgetGuard → ℕ → ℕ → BudgetCheck
judged g tokens cost =
    let verdict : Bool → String → BudgetCheck = λ allowed reason. record {
      allowed = allowed;
      reason = reason;
      estimated_tokens = tokens;
      estimated_cost = cost;
      policy_id = g.policy.policy_id;
    } in
    if not g.policy.enabled
    then verdict true "budget policy disabled"
    else if ltb g.policy.max_tokens_per_call tokens
    then verdict false "model call exceeds per-call token budget"
    else if ltb g.policy.max_total_tokens (spent_tokens g.cost_logs + tokens)
    then verdict false "model call exceeds total token budget"
    else if ltb (double g.policy.max_estimated_cost) (plus (spent_cost g.cost_logs) (double cost))
    then verdict false "model call exceeds estimated cost budget"
    else verdict true "budget allowed"

unfoldable pub check_model_call : BudgetGuard → String → String → Option ℕ → Option ℕ → BudgetCheck
check_model_call g prompt purpose input_cost_per_token output_cost_per_token =
    let prompt_tokens = estimate_tokens prompt in
    let completion_tokens = estimate_tokens (mock_response prompt purpose) in
    let input_rate = rate_or g.policy.cost_per_token input_cost_per_token in
    let output_rate = rate_or g.policy.cost_per_token output_cost_per_token in
    judged g (prompt_tokens + completion_tokens) (
      round_9 (
        plus (scaled prompt_tokens (double input_rate))
          (scaled completion_tokens (double output_rate))))

-- the two limits of `max_output_tokens` in tokens
abbrev token_limits : BudgetGuard → ℕ → ℕ
token_limits g prompt_tokens =
    min (g.policy.max_tokens_per_call - prompt_tokens)
      (g.policy.max_total_tokens - spent_tokens g.cost_logs - prompt_tokens)

-- A difference below zero would be raised to 1 at the end as zero is.
unfoldable pub max_output_tokens : BudgetGuard → String → Option ℕ → Option ℕ → ℕ
max_output_tokens g prompt input_cost_per_token output_cost_per_token =
    let prompt_tokens = estimate_tokens prompt in
    let input_rate = rate_or g.policy.cost_per_token input_cost_per_token in
    let output_rate = rate_or g.policy.cost_per_token output_cost_per_token in
    let limits = token_limits g prompt_tokens in
    let remaining_output_cost =
      minus (minus (double g.policy.max_estimated_cost) (spent_cost g.cost_logs))
        (scaled prompt_tokens (double input_rate)) in
    if not g.policy.enabled
    then max 1 (g.policy.max_tokens_per_call - prompt_tokens)
    else if ltb 0 output_rate
    then max 1 (min limits (int_quotient remaining_output_cost (double output_rate)))
    else max 1 limits

-- `estimate_cost`
unfoldable pub estimate_cost : BudgetGuard → ℕ → ℕ
estimate_cost g tokens = round_9 (scaled tokens (double g.policy.cost_per_token))

-- `record_cost`, with the identifier and the time that the log takes
unfoldable pub record_cost :
    BudgetGuard
    → String
    → String
    → String
    → Option String
    → ℕ
    → ℕ
    → String
    → String
    → String
    → Instant
    → CostLog × BudgetGuard
record_cost g source_type source_id actor_id task_id tokens amount result reason record_id
      created_at =
    let log : CostLog = record {
      source_type = source_type;
      source_id = source_id;
      actor_id = actor_id;
      task_id = task_id;
      tokens = tokens;
      amount = amount;
      currency = g.policy.currency;
      result = result;
      reason = reason;
      record_id = record_id;
      created_at = created_at;
    } in
    (log, record g { cost_logs = g.cost_logs ++ log ∷ [] })

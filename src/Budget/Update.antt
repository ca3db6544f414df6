-- ===== src/Budget/Update.antt =====
-- `BudgetGuard.update_policy` and `summary` (backend/app/budget/guard.py).
use bug_free_enigma.Base.{
  ◌≤◌, String, Bool, true, false, [], ◌≡◌, arith, not, Outcome, ok, value_error, raise_if, ◌>>◌,
  is_ok, Error, err, ◌⊎◌, inl, inr, Outcome-cases,
}
use bug_free_enigma.Base.Int.{ℤ, pos, ltb_ℤ, pos_part}
use bug_free_enigma.Base.Text.{strip, is_blank}
use bug_free_enigma.Core.Models.Budget.{BudgetPolicy}
use bug_free_enigma.Budget.{BudgetGuard}

-- What is asked for, in the order of the arguments.
pub record PolicyInput : Type 0 where
  pub name : String
  pub max_tokens_per_call : ℤ
  pub max_total_tokens : ℤ
  pub max_estimated_cost : ℤ
  pub cost_per_token : ℤ
  pub currency : String
  pub enabled : Bool

-- `n <= 0`
abbrev not_positive : ℤ → Bool
not_positive n = not (ltb_ℤ (pos 0) n)

abbrev is_negative : ℤ → Bool
is_negative n = ltb_ℤ n (pos 0)

-- The numbers that an accepted input asks for.
pub record Describes (i : PolicyInput) (p : BudgetPolicy) : Type 0 where
  pub named : is_blank i.name ≡ false
  pub priced : is_blank i.currency ≡ false
  pub same_call : i.max_tokens_per_call ≡ pos p.max_tokens_per_call
  pub same_total : i.max_total_tokens ≡ pos p.max_total_tokens
  pub same_cost : i.max_estimated_cost ≡ pos p.max_estimated_cost
  pub same_rate : i.cost_per_token ≡ pos p.cost_per_token
  pub call_pos : 1 ≤ p.max_tokens_per_call
  pub call_within_total : p.max_tokens_per_call ≤ p.max_total_tokens

refused : {A : Type 0} (m : Outcome A) {e : Error} → m ≡ err e → ¬ (is_ok m ≡ true)
refused m e h = ground (arith, e)

-- `str.upper` of Python's Unicode tables is given.
module _ (upper : String → String) where
  unfoldable pub update_policy : BudgetGuard → PolicyInput → Outcome BudgetGuard
  update_policy g i = do
    raise_if (is_blank i.name) (value_error "budget policy name is required" [])
    raise_if (not_positive i.max_tokens_per_call)
        (value_error "max_tokens_per_call must be greater than zero" [])
    raise_if (not_positive i.max_total_tokens)
        (value_error "max_total_tokens must be greater than zero" [])
    raise_if (ltb_ℤ i.max_total_tokens i.max_tokens_per_call)
        (value_error "max_total_tokens must be greater than or equal to max_tokens_per_call" [])
    raise_if (is_negative i.max_estimated_cost)
        (value_error "max_estimated_cost cannot be negative" [])
    raise_if (is_negative i.cost_per_token) (value_error "cost_per_token cannot be negative" [])
    raise_if (is_blank i.currency) (value_error "currency is required" [])
    ok (record g {
      policy = record g.policy {
        name = strip i.name;
        max_tokens_per_call = pos_part i.max_tokens_per_call;
        max_total_tokens = pos_part i.max_total_tokens;
        max_estimated_cost = pos_part i.max_estimated_cost;
        cost_per_token = pos_part i.cost_per_token;
        currency = upper (strip i.currency);
        enabled = i.enabled;
      };
    })

  update_policy-Describes :
      (g h : BudgetGuard) (i : PolicyInput) → update_policy g i ≡ ok h → Describes i h.policy
  unfolding update_policy
  update_policy-Describes g h i e = ground arith

  update_policy-rest :
      (g h : BudgetGuard) (i : PolicyInput)
      → update_policy g i ≡ ok h
      → (h.cost_logs ≡ g.cost_logs) × (h.policy.enabled ≡ i.enabled)
  unfolding update_policy
  update_policy-rest g h i e = ground arith

  update_policy-eq-ok :
      (g : BudgetGuard) (i : PolicyInput) (p : BudgetPolicy)
      → Describes i p
      → is_ok (update_policy g i) ≡ true
  unfolding update_policy
  update_policy-eq-ok g i p d = ground arith

  -- An update is accepted exactly when the input names a policy and a currency and gives whole
  -- numbers, positive for the tokens and not below zero for the money, with the tokens per call
  -- within the total: then the policy that is stored has these numbers, and the costs stay as they
  -- are; otherwise it raises, and no policy has the numbers of the input.
  pub update_policy_exact :
      (g : BudgetGuard) (i : PolicyInput)
      → ((h : BudgetGuard) × (update_policy g i ≡ ok h)
          × Describes i h.policy
          × (h.cost_logs ≡ g.cost_logs)
          × (h.policy.enabled ≡ i.enabled))
        ⊎ ((e : Error) × (update_policy g i ≡ err e) × ((p : BudgetPolicy) → ¬ (Describes i p)))
  update_policy_exact g i = elim (Outcome-cases (update_policy g i)) [
    | inl (h, e) ↦ inl (
      h,
      e,
      update_policy-Describes g h i e,
      (update_policy-rest g h i e).0,
      (update_policy-rest g h i e).1,
    )
    | inr (x, e) ↦ inr (x, e, λ p d. refused (update_policy g i) e (update_policy-eq-ok g i p d))
  ]

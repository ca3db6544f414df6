-- ===== src/Budget/Limits.antt =====
-- A model call that the guard of backend/app/budget/guard.py allows stays within the budget.
use Prim.Native.String.{count}
use mathlib.Core.Path.{subst}
use bug_free_enigma.Base.Float.{double, scaled, minus, int_quotient}
use text.Mathlib.TextLemmas.{length-append}
use bug_free_enigma.Base.{
  ℕ, ◌+◌, ◌-◌, ◌≤◌, String, true, Option, ◌≡◌, refl, arith, ltb, ◌==◌, false, Bool-cases, inl, inr,
  ap, eq_iff,
}
use bug_free_enigma.Base.Text.{◌<>◌}
use bug_free_enigma.Budget.{
  BudgetGuard, min, max, estimate_tokens, mock_response, rate_or, spent_tokens, spent_cost,
  check_model_call, max_output_tokens,
}

bracketed : (t : String) → (("[" <> t) == "") ≡ false
bracketed t = elim (Bool-cases (("[" <> t) == "")) [
  | inl e ↦ absurd (omega (arith, length-append "[" t, ap count ((eq_iff ("[" <> t) "").0 e)))
  | inr e ↦ e
]

-- A text that is not empty counts as one token at least.
estimate_tokens_pos : (s : String) → (s == "") ≡ false → 1 ≤ estimate_tokens s
unfolding estimate_tokens
estimate_tokens_pos s h = ground arith

-- The completion that the check counts on is never empty.
mock_response_pos : (prompt purpose : String) → 1 ≤ estimate_tokens (mock_response prompt purpose)
unfolding mock_response
mock_response_pos prompt purpose = estimate_tokens_pos _ (bracketed _)

within_tokens : (a b q m : ℕ) → 1 ≤ a → 1 ≤ b → m ≤ max 1 (min (min a b) q) → (m ≤ a) × (m ≤ b)
within_tokens a b q m h k l = ground arith

within_free : (a b m : ℕ) → 1 ≤ a → 1 ≤ b → m ≤ max 1 (min a b) → (m ≤ a) × (m ≤ b)
within_free a b m h k l = ground arith

-- What the limit on the output leaves room for, where at least one token fits.
module _ (g : BudgetGuard) (prompt : String) (input_rate output_rate : Option ℕ) where
  abbrev in_rate : ℕ
  in_rate = rate_or g.policy.cost_per_token input_rate

  abbrev out_rate : ℕ
  out_rate = rate_or g.policy.cost_per_token output_rate

  abbrev call_limit : ℕ
  call_limit = g.policy.max_tokens_per_call - estimate_tokens prompt

  abbrev total_limit : ℕ
  total_limit = g.policy.max_total_tokens - spent_tokens g.cost_logs - estimate_tokens prompt

  abbrev affordable : ℕ
  affordable =
      int_quotient
        (minus (minus (double g.policy.max_estimated_cost) (spent_cost g.cost_logs))
          (scaled (estimate_tokens prompt) (double in_rate)))
        (double out_rate)

  max_output_tokens-priced :
      g.policy.enabled ≡ true
      → ltb 0 out_rate ≡ true
      → max_output_tokens g prompt input_rate output_rate
        ≡ max 1 (min (min call_limit total_limit) affordable)
  unfolding max_output_tokens
  max_output_tokens-priced e p = rw (e, p) refl

  max_output_tokens-free :
      g.policy.enabled ≡ true
      → ltb 0 out_rate ≡ false
      → max_output_tokens g prompt input_rate output_rate ≡ max 1 (min call_limit total_limit)
  unfolding max_output_tokens
  max_output_tokens-free e p = rw (e, p) refl

  -- A completion of so many tokens stays within the limits on tokens.
  abbrev pub FitsTokens : ℕ → Type 0
  FitsTokens out =
      (estimate_tokens prompt + out ≤ g.policy.max_tokens_per_call)
      × (spent_tokens g.cost_logs + estimate_tokens prompt + out ≤ g.policy.max_total_tokens)

  limit_fits :
      (out : ℕ)
      → g.policy.enabled ≡ true
      → FitsTokens 1
      → out ≤ max_output_tokens g prompt input_rate output_rate
      → FitsTokens out
  limit_fits out e first le = elim (Bool-cases (ltb 0 out_rate)) [
    | inl p ↦
        let fits =
          within_tokens call_limit total_limit affordable out (omega arith) (omega arith)
            (subst (λ m. out ≤ m) (max_output_tokens-priced e p) le) in
        omega arith
    | inr p ↦
        let fits =
          within_free call_limit total_limit out (omega arith) (omega arith)
            (subst (λ m. out ≤ m) (max_output_tokens-free e p) le) in
        omega arith
  ]

  module _ (purpose : String) where
    -- An allowed call has room for the completion that the check counts on.
    allowed-FitsTokens :
        g.policy.enabled ≡ true
        → (check_model_call g prompt purpose input_rate output_rate).allowed ≡ true
        → FitsTokens (estimate_tokens (mock_response prompt purpose))
    unfolding check_model_call
    allowed-FitsTokens e a = ground (arith, mock_response_pos prompt purpose)

    -- Where an enabled policy allows a call, every completion up to the limit on its output keeps
    -- the call within the tokens per call, and the recorded tokens with the call within the total,
    -- whatever the rates are; and the limit leaves room for one token at least.
    pub max_output_tokens-FitsTokens :
        g.policy.enabled ≡ true
        → (check_model_call g prompt purpose input_rate output_rate).allowed ≡ true
        → (out : ℕ) → out ≤ max_output_tokens g prompt input_rate output_rate
        → (1 ≤ max_output_tokens g prompt input_rate output_rate) × FitsTokens out
    unfolding max_output_tokens
    max_output_tokens-FitsTokens e a out le =
        let completion = allowed-FitsTokens e a in
        let positive = mock_response_pos prompt purpose in
        (ground arith, limit_fits out e (omega arith) le)

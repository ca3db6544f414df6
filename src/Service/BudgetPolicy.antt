-- ===== src/Service/BudgetPolicy.antt =====
-- backend/app/services/company.py: `update_budget_policy`, which gives back the new policy here. Its
-- numbers and texts are the fields of a `PolicyInput`.
mod Tests
use bug_free_enigma.Base.{
  String, Bool, true, false, not, none, some, [], ◌==◌, if◌then◌else◌, ◌≡◌, Outcome, err,
  Outcome-cases, value_error, Error,
}
use bug_free_enigma.Core.Enums.{ApprovalStatus, RiskLevel}
use bug_free_enigma.Core.Models.Control.{Incident}
use bug_free_enigma.Core.Models.Budget.{BudgetPolicy}
use bug_free_enigma.Budget.{BudgetGuard}
use bug_free_enigma.Budget.Update.{PolicyInput, update_policy}
use bug_free_enigma.Service.State.{Env, Company}
use bug_free_enigma.Service.Actions.{Action, pure, raise, gets, asks, modify, ◌>>=◌, ◌>>◌}
use bug_free_enigma.Service.Records.{log_event, report_incident}
use bug_free_enigma.Service.Embeddings.{sync}
use bug_free_enigma.Service.Embeddings.Ledger.{Indexes}

-- `str.upper` is given.
module _ (env : Env) (upper : String → String) where
  -- the event of a refused update, and its end
  unfoldable pub close_refusal : String → Incident → Action BudgetPolicy
  close_refusal actor_id incident = do
    log_event env "budget_policy_update_blocked" actor_id "update_budget_policy" none RiskLevel.high
        ApprovalStatus.blocked "only_human_root_can_update_budget_policy" none
        (some incident.incident_id) none
    sync env
    raise (value_error "only human_root can update budget policy" [])

  -- a caller who is not the Human Root
  unfoldable pub refuse_update : String → Action BudgetPolicy
  refuse_update actor_id = do
    policy_id ← gets (λ c. c.budget.policy.policy_id)
    incident ←
        report_incident env "Budget policy update blocked"
          "Only Human Root can update budget policy." "budget_policy" policy_id RiskLevel.high none
          (some actor_id)
          "Confirm the actor identity and keep Root-managed settings under Human Root control."
    close_refusal actor_id incident

  -- the event of an update, and its end
  unfoldable pub close_update : String → BudgetPolicy → Action BudgetPolicy
  close_update actor_id policy = do
    log_event env "budget_policy_updated" actor_id "update_budget_policy" none RiskLevel.medium
        ApprovalStatus.not_required "updated" (some policy.name) (some policy.policy_id) none
    sync env
    pure policy

  unfoldable pub store_policy : String → PolicyInput → Action BudgetPolicy
  store_policy actor_id input = do
    budget ← asks (λ c. update_policy upper c.budget input)
    modify (λ c. record c { budget = budget })
    close_update actor_id budget.policy

  unfoldable pub update_budget_policy : String → PolicyInput → Action BudgetPolicy
  update_budget_policy actor_id input =
      if not (actor_id == "human_root") then refuse_update actor_id else store_policy actor_id input

  -- what a refused call leaves
  abbrev Refuses : Company → Outcome BudgetPolicy × Company → Type 0
  Refuses c (result, after) = Indexes c.budget after.budget × ((e : Error) × (result ≡ err e))

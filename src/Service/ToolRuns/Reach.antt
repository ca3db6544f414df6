-- ===== src/Service/ToolRuns/Reach.antt =====
-- Which calls of `complete_tool_run` reach an adapter (backend/app/services/company.py).
use bug_free_enigma.Base.{◌||◌, ◌≡◌, refl, ◌⊎◌, inl, inr, arith, contains, Bool-cases}
use bug_free_enigma.Core.Models.Catalog.{Agent, Tool}
use bug_free_enigma.Core.Models.Control.{RiskAssessment, ApprovalRequest}
use bug_free_enigma.Core.Models.Work.{ToolRun}
use bug_free_enigma.Safety.Permissions.{PermissionResult}
use bug_free_enigma.Service.State.{Env, Company}
use bug_free_enigma.Service.Actions.{utc_now}
use bug_free_enigma.Service.ToolApproval.{tool_approval_matches_run}
use bug_free_enigma.Service.ToolRuns.Execution.{stop_run, is_block}
use bug_free_enigma.Service.ToolRuns.Decision.{revalidate_run}
use bug_free_enigma.Service.ToolRuns.Revalidation.{Revalidated}
use bug_free_enigma.Service.ToolRuns.Blind.{Adapter, with_adapter, matches-blind}

module _ (other : Adapter) (env : Env) where
  -- A revalidation that does not let the run through calls no adapter.
  pub revalidate_run-blind :
      (tool : Tool) (agent : Agent) (a : ApprovalRequest) (risk : RiskAssessment)
      (p : PermissionResult) (run : ToolRun) (c : Company)
      → Revalidated env tool agent a risk p run
        ⊎ (revalidate_run (with_adapter other env) tool agent a risk p run c
            ≡ revalidate_run env tool agent a risk p run c)
  unfolding revalidate_run stop_run utc_now
  revalidate_run-blind tool agent a risk p run c =
      elim (Bool-cases (tool_approval_matches_run env a run tool)) [
        | inr off ↦ inr (rw (matches-blind other env a run tool, off) refl)
        | inl authorized ↦ elim (Bool-cases tool.enabled) [
          | inr off ↦ inr (rw (matches-blind other env a run tool, authorized, off) refl)
          | inl enabled ↦ elim (Bool-cases (contains tool.tool_id agent.allowed_tools)) [
            | inr off ↦ inr (rw (matches-blind other env a run tool, authorized, enabled, off) refl)
            | inl allowed ↦ elim (Bool-cases (risk.blocked || is_block p.decision)) [
              | inl stop ↦
                  inr (
                    rw (matches-blind other env a run tool, authorized, enabled, allowed, stop)
                      refl)
              | inr go ↦ inl (record {
                authorized = authorized;
                enabled = enabled;
                allowed = allowed;
                unblocked = ground arith;
                permitted = λ e. ground arith;
              })
            ]
          ]
        ]
      ]

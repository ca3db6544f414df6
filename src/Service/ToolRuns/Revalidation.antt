-- ===== src/Service/ToolRuns/Revalidation.antt =====
-- The parts of `complete_tool_run`: the tests on an approved run, and the filing of the run that
-- comes of them (backend/app/services/company.py).
use bug_free_enigma.Base.{
  String, true, false, Option, none, some, ◌≡◌, ◌≢◌, arith, ok, contains, ap, eq_iff,
}
use bug_free_enigma.Base.Text.{text_or}
use bug_free_enigma.Base.Dict.{put}
use bug_free_enigma.Core.Enums.{ActionDecision}
use bug_free_enigma.Core.Values.{tool_run_status_value}
use bug_free_enigma.Core.Models.Catalog.{Agent, Tool}
use bug_free_enigma.Core.Models.Control.{RiskAssessment, ApprovalRequest}
use bug_free_enigma.Core.Models.Work.{ToolRun}
use bug_free_enigma.Safety.Permissions.{PermissionResult}
use bug_free_enigma.Service.State.{Env, Company}
use bug_free_enigma.Service.Actions.{pure}
use bug_free_enigma.Service.Records.{log_event, report_incident}
use bug_free_enigma.Service.Records.Frame.{
  Recorded, Recorded-refl, Recorded-if, Recorded-bind, log_event-Recorded, report_incident-Recorded,
}
use bug_free_enigma.Service.ToolApproval.{same_text, tool_approval_matches_run}
use bug_free_enigma.Service.ToolRuns.Execution.{
  is_blocked, is_waiting, stop_run, finish_run, after_adapter, execute_tool_run, report_if_blocked,
}
use bug_free_enigma.Service.ToolRuns.Decision.{revalidate_run, file_completion}
use bug_free_enigma.Service.ToolRuns.Gate.{is_executed}

module _ (env : Env) where
  pub report_if_blocked-Recorded :
      (title fallback recommendation : String) (run : ToolRun) (c : Company)
      → Recorded c (report_if_blocked env title fallback recommendation run c).1
  unfolding report_if_blocked
  report_if_blocked-Recorded title fallback recommendation run c =
      Recorded-if (is_blocked run.status) _ (pure tt)
        (Recorded-bind
          (report_incident env title (text_or fallback run.error) "tool_run" run.run_id
            run.risk_level run.task_id (some run.actor_id) recommendation)
          (λ _. pure tt) (report_incident-Recorded env _ _ _ _ _ _ _ _ c) (λ _ d. Recorded-refl d))
        (Recorded-refl c)

  -- the run is stored, and what follows leaves only records
  pub file_completion-stored :
      (i by : String) (remark : Option String) (a : ApprovalRequest) (run : ToolRun) (c : Company)
      → (file_completion env i by remark a run c).1.tool_runs ≡ put i run c.tool_runs
  unfolding file_completion
  file_completion-stored i by remark a run c =
      (Recorded-bind
        (report_if_blocked env "Approved Tool run blocked on revalidation"
          "Tool run controls changed before execution."
          "Review live Tool state, Agent authorization, permission, and risk policy." run)
        _ (report_if_blocked-Recorded _ _ _ run (record c { tool_runs = put i run c.tool_runs }))
        (λ _ d.
          Recorded-bind
            (log_event env "tool_run_completed" by run.action run.task_id run.risk_level a.status
              (tool_run_status_value run.status) remark (some run.run_id) run.error)
            (λ _. pure run) (log_event-Recorded env _ _ _ _ _ _ _ _ _ _ d)
            (λ _ e. Recorded-refl e))).same_tool_runs

  pub file_completion-returns :
      (i by : String) (remark : Option String) (a : ApprovalRequest) (run : ToolRun) (c : Company)
      {r : ToolRun}
      → (file_completion env i by remark a run c).0 ≡ ok r
      → r ≡ run
  unfolding file_completion
  file_completion-returns i by remark a run c h = ground arith

  -- a run that is through with the adapter is no longer waiting
  pub revalidate_run-settles :
      (tool : Tool) (agent : Agent) (a : ApprovalRequest) (risk : RiskAssessment)
      (p : PermissionResult) (run : ToolRun) (c : Company) {r : ToolRun}
      → (revalidate_run env tool agent a risk p run c).0 ≡ ok r
      → is_waiting r.status ≡ false
  unfolding revalidate_run stop_run execute_tool_run after_adapter finish_run
  revalidate_run-settles tool agent a risk p run c h = ground arith

  -- What the tests of the revalidation found when they let a run through.
  pub record Revalidated (tool : Tool) (agent : Agent) (a : ApprovalRequest) (risk : RiskAssessment)
      (p : PermissionResult) (run : ToolRun) : Type 0 where
    pub authorized : tool_approval_matches_run env a run tool ≡ true
    pub enabled : tool.enabled ≡ true
    pub allowed : contains tool.tool_id agent.allowed_tools ≡ true
    pub unblocked : risk.blocked ≡ false
    pub permitted : p.decision ≢ ActionDecision.block

  pub revalidate_run-Revalidated :
      (tool : Tool) (agent : Agent) (a : ApprovalRequest) (risk : RiskAssessment)
      (p : PermissionResult) (run : ToolRun) (c : Company) {r : ToolRun}
      → (revalidate_run env tool agent a risk p run c).0 ≡ ok r
      → is_executed r.status ≡ true
      → Revalidated tool agent a risk p run
  unfolding revalidate_run stop_run
  revalidate_run-Revalidated tool agent a risk p run c h e = ground arith

  same_text-some : (t : Option String) (u : String) → same_text t (some u) ≡ true → t ≡ some u
  same_text-some none u h = absurd (cc)
  same_text-some (some s) u h = ap some ((eq_iff s u).0 h)

  -- What an approval that matches a run and its Tool was given for.
  pub record Authorizes (a : ApprovalRequest) (run : ToolRun) (tool : Tool) : Type 0 where
    pub by_root : a.decided_by ≡ some "human_root"
    pub same_action : a.request.action ≡ tool.action
    pub same_actor : a.request.actor_id ≡ run.actor_id
    pub same_target : a.request.target ≡ some tool.tool_id

  pub tool_approval_matches_run-Authorizes :
      (a : ApprovalRequest) (run : ToolRun) (tool : Tool)
      → tool_approval_matches_run env a run tool ≡ true
      → Authorizes a run tool
  unfolding tool_approval_matches_run
  tool_approval_matches_run-Authorizes a run tool h = record {
    by_root = same_text-some a.decided_by "human_root" (ground arith);
    same_action = (eq_iff a.request.action tool.action).0 (ground arith);
    same_actor = (eq_iff a.request.actor_id run.actor_id).0 (ground arith);
    same_target = same_text-some a.request.target tool.tool_id (ground arith);
  }

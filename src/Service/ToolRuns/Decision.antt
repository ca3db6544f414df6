-- ===== src/Service/ToolRuns/Decision.antt =====
-- `complete_tool_run` and `deny_tool_run` of backend/app/services/company.py. The methods give back
-- the run, which their responses show.
use bug_free_enigma.Base.{
  String, not, ◌||◌, Option, none, some, [], value_error, contains, if◌then◌else◌,
}
use bug_free_enigma.Base.Dict.{get, put}
use bug_free_enigma.Core.Enums.{ToolRunStatus}
use bug_free_enigma.Core.Values.{tool_run_status_value}
use bug_free_enigma.Core.Models.Catalog.{Agent, Tool}
use bug_free_enigma.Core.Models.Control.{RiskAssessment, ApprovalRequest}
use bug_free_enigma.Core.Models.Work.{ToolRun}
use bug_free_enigma.Safety.Permissions.{PermissionResult}
use bug_free_enigma.Service.State.{Env}
use bug_free_enigma.Service.Actions.{asks, Action, pure, lift, gets, guard, modify, ◌>>=◌, ◌>>◌}
use bug_free_enigma.Service.ToolRuns.Execution.{
  is_block, is_approved, is_denied, block_reason, stop_run, execute_tool_run, report_if_blocked,
}
use bug_free_enigma.Service.Records.{log_event}
use bug_free_enigma.Service.ToolApproval.{assess_tool_request, tool_approval_matches_run}
use bug_free_enigma.Service.ToolRuns.Waiting.{waiting_run, live_controls}
use bug_free_enigma.Service.ToolRuns.Request.{tool_request}

module _ (env : Env) where
  -- the chain of tests of `complete_tool_run`
  unfoldable pub revalidate_run :
      Tool → Agent → ApprovalRequest → RiskAssessment → PermissionResult → ToolRun → Action ToolRun
  revalidate_run tool agent approval risk permission run =
      if not (tool_approval_matches_run env approval run tool)
      then stop_run env ToolRunStatus.blocked "approval does not authorize the current tool request"
          run
      else if not tool.enabled
      then stop_run env ToolRunStatus.blocked "tool is disabled" run
      else if not (contains tool.tool_id agent.allowed_tools)
      then stop_run env ToolRunStatus.blocked "tool is not allowed for this agent" run
      else if risk.blocked || is_block permission.decision
      then stop_run env ToolRunStatus.blocked (block_reason permission risk) run
      else execute_tool_run env run tool

  -- what `complete_tool_run` does once the run is decided: store, report and log it
  unfoldable pub file_completion :
      String → String → Option String → ApprovalRequest → ToolRun → Action ToolRun
  file_completion run_id completed_by remark approval run = do
    modify (λ c. record c { tool_runs = put run_id run c.tool_runs })
    report_if_blocked env "Approved Tool run blocked on revalidation"
        "Tool run controls changed before execution."
        "Review live Tool state, Agent authorization, permission, and risk policy." run
    log_event env "tool_run_completed" completed_by run.action run.task_id run.risk_level
        approval.status (tool_run_status_value run.status) remark (some run.run_id) run.error
    pure run

  unfoldable pub complete_tool_run : String → String → Option String → Action ToolRun
  complete_tool_run run_id completed_by remark = do
    waiting ← asks (waiting_run run_id)
    let (run, approval) = waiting
    guard (not (is_approved approval.status)) (value_error "tool run approval is not approved" [])
    controls ← asks (live_controls env run)
    let (tool, agent, permission) = controls
    let request = tool_request env tool run.actor_id run.task_id run.reason run.input
    let risk = assess_tool_request tool request
    run' ← revalidate_run tool agent approval risk permission run
    file_completion run_id completed_by remark approval run'

  unfoldable pub deny_tool_run : String → String → Action ToolRun
  deny_tool_run run_id reason = do
    waiting ← asks (waiting_run run_id)
    let (run, approval) = waiting
    guard (not (is_denied approval.status))
        (value_error "tool run approval has not denied execution" [])
    run' ← stop_run env ToolRunStatus.blocked reason run
    modify (λ c. record c { tool_runs = put run_id run' c.tool_runs })
    tools ← gets (λ c. c.tools)
    tool ← lift (get run'.tool_id tools)
    log_event env "tool_run_decision_enforced" "human_root" run'.action run'.task_id run'.risk_level
        approval.status "not_executed" (some reason) (some run'.run_id) none
    pure run'

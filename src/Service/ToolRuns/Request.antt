-- ===== src/Service/ToolRuns/Request.antt =====
-- `request_tool_run` of backend/app/services/company.py. The method gives back the run, which its
-- response shows.
use bug_free_enigma.Base.{String, true, not, ◌||◌, Option, none, some, contains, if◌then◌else◌}
use bug_free_enigma.Base.Dict.{get, put}
use bug_free_enigma.Base.Text.{◌<>◌}
use bug_free_enigma.Core.Enums.{ApprovalStatus, ToolRunStatus}
use bug_free_enigma.Core.Values.{tool_run_status_value}
use bug_free_enigma.Core.Json.{Fields}
use bug_free_enigma.Core.Time.{Instant}
use bug_free_enigma.Core.Models.Catalog.{Agent, Tool}
use bug_free_enigma.Core.Models.Control.{ActionRequest, RiskAssessment}
use bug_free_enigma.Core.Models.Work.{ToolRun}
use bug_free_enigma.Safety.Permissions.{PermissionResult, evaluate}
use bug_free_enigma.Service.State.{Env}
use bug_free_enigma.Service.Actions.{Action, pure, lift, gets, modify, ◌>>=◌, ◌>>◌, new_id, utc_now}
use bug_free_enigma.Service.ToolRuns.Execution.{
  is_block, is_require_approval, block_reason, stop_run, execute_tool_run, ask_approval,
  report_if_blocked,
}
use bug_free_enigma.Service.Records.{log_event}
use bug_free_enigma.Service.ToolApproval.{assess_tool_request, tool_metadata}

module _ (env : Env) where
  abbrev pub tool_request : Tool → String → Option String → String → Fields → ActionRequest
  tool_request tool actor_id task_id reason input = record {
    action = tool.action;
    actor_id = actor_id;
    task_id = task_id;
    permission_level = tool.permission_level;
    reason = reason;
    target = some tool.tool_id;
    reversible = true;
    metadata = tool_metadata env tool input;
  }

  unfoldable pub wait_for_approval :
      Tool → ActionRequest → RiskAssessment → ToolRun → Action (ToolRun × ApprovalStatus)
  wait_for_approval tool request risk run = do
    approval ←
        ask_approval env request risk ("Use " <> tool.name <> " for a controlled task step.")
          "Tool execution could change state, expose data, or call an external system."
    pure (
      record run {
        status = ToolRunStatus.waiting_approval;
        approval_id = some approval.approval_id;
      },
      approval.status,
    )

  -- the chain of tests of `request_tool_run`
  unfoldable pub admit_run :
      Tool
      → Agent
      → ActionRequest
      → RiskAssessment
      → PermissionResult
      → ToolRun
      → Action (ToolRun × ApprovalStatus)
  admit_run tool agent request risk permission run =
      if not tool.enabled
      then (do
        r ← stop_run env ToolRunStatus.blocked "tool is disabled" run
        pure (r, ApprovalStatus.not_required))
      else if not (contains tool.tool_id agent.allowed_tools)
      then (do
        r ← stop_run env ToolRunStatus.blocked "tool is not allowed for this agent" run
        pure (r, ApprovalStatus.not_required))
      else if risk.blocked || is_block permission.decision
      then (do
        r ← stop_run env ToolRunStatus.blocked (block_reason permission risk) run
        pure (r, ApprovalStatus.not_required))
      else if risk.requires_approval
          || is_require_approval permission.decision
          || tool.requires_approval
      then wait_for_approval tool request risk run
      else (do r ← execute_tool_run env run tool; pure (r, ApprovalStatus.not_required))

  abbrev pub new_tool_run :
      Tool → String → Fields → String → Option String → RiskAssessment → String → Instant → ToolRun
  new_tool_run tool actor_id input reason task_id risk run_id created_at = record {
    tool_id = tool.tool_id;
    actor_id = actor_id;
    action = tool.action;
    input = input;
    reason = reason;
    task_id = task_id;
    status = ToolRunStatus.requested;
    result = none;
    risk_level = risk.level;
    approval_id = none;
    error = none;
    run_id = run_id;
    created_at = created_at;
    completed_at = none;
  }

  -- what `request_tool_run` does once the run is decided: store, report and log it
  unfoldable pub file_run : Tool → RiskAssessment → ToolRun × ApprovalStatus → Action ToolRun
  file_run tool risk (run, approval_status) = do
    modify (λ c. record c { tool_runs = put run.run_id run c.tool_runs })
    report_if_blocked env "Tool run blocked" "Tool run was blocked by policy."
        "Review tool enablement, Agent allowed_tools, and permission boundaries." run
    log_event env "tool_run_requested" run.actor_id tool.action run.task_id risk.level
        approval_status (tool_run_status_value run.status) (some run.reason) (some run.run_id)
        run.error
    pure run

  unfoldable pub request_tool_run :
      String → String → Fields → String → Option String → Action ToolRun
  unfolding new_id utc_now
  request_tool_run tool_id actor_id input reason task_id = do
    tools ← gets (λ c. c.tools)
    tool ← lift (get tool_id tools)
    agents ← gets (λ c. c.agents)
    agent ← lift (get actor_id agents)
    let request = tool_request tool actor_id task_id reason input
    let risk = assess_tool_request tool request
    permission ← lift (evaluate agent request)
    run_id ← new_id env "tool_run"
    created_at ← utc_now env
    decided ←
        admit_run tool agent request risk permission
          (new_tool_run tool actor_id input reason task_id risk run_id created_at)
    file_run tool risk decided

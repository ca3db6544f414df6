-- ===== src/Service/ToolRuns/Waiting.antt =====
-- What `complete_tool_run` and `deny_tool_run` (backend/app/services/company.py) read before they
-- change anything.
use bug_free_enigma.Base.{String, not, [], Outcome, ok, value_error, raise_if, ◌>>=◌, ◌>>◌}
use bug_free_enigma.Base.Text.{text_or}
use bug_free_enigma.Base.Dict.{get}
use bug_free_enigma.Core.Models.Catalog.{Agent, Tool}
use bug_free_enigma.Core.Models.Control.{ApprovalRequest}
use bug_free_enigma.Core.Models.Work.{ToolRun}
use bug_free_enigma.Safety.Permissions.{PermissionResult, evaluate}
use bug_free_enigma.Service.State.{Env, Company}
use bug_free_enigma.Service.ToolRuns.Execution.{is_waiting, missing}
use bug_free_enigma.Service.ToolRuns.Request.{tool_request}

-- the run that waits for a decision, and its approval
unfoldable pub waiting_run : String → Company → Outcome (ToolRun × ApprovalRequest)
waiting_run run_id c = do
  run ← get run_id c.tool_runs
  raise_if (not (is_waiting run.status)) (value_error "tool run is not waiting for approval" [])
  raise_if (missing run.approval_id) (value_error "tool run has no approval" [])
  approval ← get (text_or "" run.approval_id) c.approvals
  ok (run, approval)

module _ (env : Env) where
  -- what `complete_tool_run` evaluates again
  unfoldable pub live_controls : ToolRun → Company → Outcome (Tool × Agent × PermissionResult)
  live_controls run c = do
    tool ← get run.tool_id c.tools
    agent ← get run.actor_id c.agents
    permission ←
        evaluate agent (tool_request env tool run.actor_id run.task_id run.reason run.input)
    ok (tool, agent, permission)

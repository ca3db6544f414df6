-- ===== src/Service/ToolRuns/Execution.antt =====
-- What the methods on Tool runs share, and `_execute_tool_run` (backend/app/services/company.py).
use bug_free_enigma.Base.{
  String, Bool, true, false, not, ◌&&◌, ◌||◌, Option, none, some, List, [], ◌∷◌, ◌++◌, ◌==◌,
  if◌then◌else◌,
}
use bug_free_enigma.Base.Text.{text_or, ◌<>◌}
use bug_free_enigma.Core.Enums.{ActionDecision, ApprovalStatus, ToolRunStatus}
use bug_free_enigma.Core.Json.{num, str, Fields, end, field, member_or_null, value_eq}
use bug_free_enigma.Core.Models.Catalog.{Tool}
use bug_free_enigma.Core.Models.Control.{ActionRequest, RiskAssessment, ApprovalRequest}
use bug_free_enigma.Core.Models.Work.{ToolRun}
use bug_free_enigma.Safety.Permissions.{PermissionResult}
use bug_free_enigma.Approvals.{request_approval}
use bug_free_enigma.Service.State.{Env, ToolReply}
use bug_free_enigma.Service.Actions.{Action, pure, raise, ◌>>=◌, ◌>>◌, new_id, utc_now}
use bug_free_enigma.Service.Records.{report_incident}

-- `"; ".join(texts)`
abbrev pub join_reasons : List String → String
join_reasons [] = ""
join_reasons (x ∷ []) = x
join_reasons (x ∷ y ∷ xs) = x <> "; " <> join_reasons (y ∷ xs)

abbrev pub is_block : ActionDecision → Bool
is_block ActionDecision.block = true
is_block _ = false

abbrev pub is_require_approval : ActionDecision → Bool
is_require_approval ActionDecision.require_approval = true
is_require_approval _ = false

abbrev pub is_waiting : ToolRunStatus → Bool
is_waiting ToolRunStatus.waiting_approval = true
is_waiting _ = false

abbrev pub is_blocked : ToolRunStatus → Bool
is_blocked ToolRunStatus.blocked = true
is_blocked _ = false

abbrev pub is_approved : ApprovalStatus → Bool
is_approved ApprovalStatus.approved = true
is_approved _ = false

-- the statuses of an approval that has denied execution
abbrev pub is_denied : ApprovalStatus → Bool
is_denied ApprovalStatus.rejected = true
is_denied ApprovalStatus.blocked = true
is_denied ApprovalStatus.modified = true
is_denied _ = false

-- `if not x` of an optional text
abbrev pub missing : Option String → Bool
missing none = true
missing (some s) = s == ""

-- the reason that a gate gives
abbrev pub block_reason : PermissionResult → RiskAssessment → String
block_reason permission risk =
    if is_block permission.decision then permission.reason else join_reasons risk.reasons

module _ (env : Env) where
  -- a run that is stopped with an error
  unfoldable pub stop_run : ToolRunStatus → String → ToolRun → Action ToolRun
  unfolding utc_now
  stop_run status error run = do
    now ← utc_now env
    pure (record run { status = status; error = some error; completed_at = some now })

  -- the exit status that decides for the Tools that run a process
  abbrev pub process_failed : Tool → Fields → Bool
  process_failed tool result =
      (tool.tool_id == "workspace_command_tool" || tool.tool_id == "computer_control_tool")
      && not (value_eq (member_or_null "exit_code" result) (num 0))

  unfoldable pub finish_run : Tool → Fields → ToolRun → Action ToolRun
  unfolding utc_now
  finish_run tool result run = do
    now ← utc_now env
    pure (
        if process_failed tool result
        then record run {
          status = ToolRunStatus.failed;
          result = some (env.dumps result);
          error = some (
              "tool process exited with status " <> env.str_of (member_or_null "exit_code" result));
          completed_at = some now;
        }
        else record run {
          status = ToolRunStatus.completed;
          result = some (env.dumps result);
          completed_at = some now;
        })

  unfoldable pub after_adapter : Tool → ToolRun → ToolReply → Action ToolRun
  after_adapter tool run (ToolReply.refused text) = stop_run ToolRunStatus.failed text run
  after_adapter tool run ToolReply.absent =
      finish_run tool
        (field "message" (str ("Simulated " <> tool.name <> " execution completed.")) end) run
  after_adapter tool run (ToolReply.returned result) = finish_run tool result run
  after_adapter tool run (ToolReply.crashed e) = raise e

  -- `_execute_tool_run`
  unfoldable pub execute_tool_run : ToolRun → Tool → Action ToolRun
  execute_tool_run run tool c =
      let (reply, docs) = env.tool_adapter tool.tool_id run.input c in
      after_adapter tool run reply (record c { knowledge = c.knowledge ++ docs })

  -- `self.company_os.approvals.request_approval(...)`
  unfoldable pub ask_approval :
      ActionRequest → RiskAssessment → String → String → Action ApprovalRequest
  unfolding new_id utc_now
  ask_approval request risk possible_benefit possible_loss = do
    approval_id ← new_id env "approval"
    created ← utc_now env
    now ← (if risk.blocked then utc_now env else pure created)
    λ c.
        let (approval, center) =
          request_approval approval_id created now request risk possible_benefit possible_loss
            c.approvals in
        pure approval (record c { approvals = center })

  -- the incident of a blocked run
  unfoldable pub report_if_blocked : String → String → String → ToolRun → Action Unit
  report_if_blocked title fallback recommendation run =
      if is_blocked run.status
      then (do
        report_incident env title (text_or fallback run.error) "tool_run" run.run_id run.risk_level
            run.task_id (some run.actor_id) recommendation
        pure tt)
      else pure tt

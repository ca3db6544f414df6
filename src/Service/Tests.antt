-- ===== src/Service/Tests.antt =====
-- Runs of the Tool methods of backend/app/services/company.py on a small company.
use bug_free_enigma.Base.{
  inl, arith, ◌≢◌, true, false, none, some, [], ◌∷◌, ◌≡◌, ◌↔◌, ◌⊎◌, ◌≤◌, refl, ok, err, value_error,
  contains, sorted,
}
use bug_free_enigma.Base.Dict.{lookup, put}
use bug_free_enigma.Core.Enums.{RiskLevel, ApprovalStatus, ToolRunStatus}
use bug_free_enigma.Core.Json.{value_eq, member, str, end, field, Fields}
use bug_free_enigma.Core.Models.Catalog.{Agent, Tool}
use bug_free_enigma.Core.Models.Control.{ActionRequest, ApprovalRequest}
use bug_free_enigma.Core.Models.Work.{ToolRun}
use bug_free_enigma.Safety.Policy.{forbidden_actions}
use bug_free_enigma.Safety.Risk.{assess, IsUnlisted}
use bug_free_enigma.Safety.Permissions.{evaluate, max_order}
use bug_free_enigma.Service.State.{Company, ToolReply}
use bug_free_enigma.Service.Sample.{mail_tool, env, company}
use bug_free_enigma.Service.Actions.{new_id, utc_now}
use bug_free_enigma.Service.Records.{log_event}
use bug_free_enigma.Service.ToolApproval.{
  risk_order, assess_tool_request, tool_approval_input, tool_approval_matches_run,
}
use bug_free_enigma.Service.ToolRuns.Execution.{
  finish_run, after_adapter, execute_tool_run, report_if_blocked,
}
use bug_free_enigma.Service.ToolRuns.Request.{tool_request, admit_run, file_run, request_tool_run}
use bug_free_enigma.Service.ToolRuns.Waiting.{waiting_run, live_controls}
use bug_free_enigma.Service.ToolRuns.Decision.{revalidate_run, file_completion, complete_tool_run}
use bug_free_enigma.Service.ToolRuns.Risk.{assess_tool_request_exact}
use bug_free_enigma.Service.ToolRuns.Blind.{Adapter, with_adapter}
use bug_free_enigma.Service.ToolRuns.Gate.{IsUnattended, request_tool_run-IsUnattended}
use bug_free_enigma.Service.ToolRuns.Completion.{
  IsApproved, complete_tool_run-IsApproved, complete_tool_run_once,
}

abbrev letter : Fields
letter = field "to" (str "root") end

abbrev mail_request : ActionRequest
mail_request = tool_request env mail_tool "writer" none "report" letter

abbrev mail_run : ToolRun
mail_run = record {
  tool_id = "mail_tool";
  actor_id = "writer";
  action = "draft_mail";
  input = letter;
  reason = "report";
  task_id = none;
  status = ToolRunStatus.waiting_approval;
  result = none;
  risk_level = RiskLevel.medium;
  approval_id = some "approval_1";
  error = none;
  run_id = "run_1";
  created_at = 0;
  completed_at = none;
}

abbrev mail_approval : ApprovalRequest
mail_approval = record {
  request = mail_request;
  risk = assess_tool_request mail_tool mail_request;
  possible_benefit = "";
  possible_loss = "";
  recommendation = "review";
  approval_id = "approval_1";
  status = ApprovalStatus.approved;
  created_at = 0;
  decided_at = some 0;
  decided_by = some "human_root";
  decision_note = some "";
}

abbrev with_mail : Company
with_mail = record company {
  tool_runs = ("run_1", mail_run) ∷ [];
  approvals = ("approval_1", mail_approval) ∷ [];
}

abbrev note_run : ToolRun
note_run = record mail_run {
  tool_id = "notes_tool";
  action = "write_note";
  status = ToolRunStatus.completed;
  result = some "{}";
  risk_level = RiskLevel.low;
  approval_id = none;
  run_id = "tool_run_a";
  completed_at = some 1;
}

note_runs :
    (request_tool_run env "notes_tool" "writer" letter "report" none company).0 ≡ ok note_run
unfolding request_tool_run admit_run file_run execute_tool_run after_adapter finish_run
    report_if_blocked log_event new_id utc_now evaluate assess max_order assess_tool_request
    tool_approval_input lookup put contains
note_runs = refl

abbrev mail_done : ToolRun
mail_done = record mail_run {
  status = ToolRunStatus.completed;
  result = some "{}";
  completed_at = some 0;
}

mail_completes : (complete_tool_run env "run_1" "human_root" none with_mail).0 ≡ ok mail_done
unfolding complete_tool_run waiting_run live_controls revalidate_run file_completion
    execute_tool_run after_adapter finish_run report_if_blocked log_event new_id utc_now evaluate
    assess max_order assess_tool_request tool_approval_input tool_approval_matches_run lookup put
    contains value_eq member sorted
mail_completes = refl

abbrev crashing : Adapter
crashing = λ i input c. (ToolReply.crashed (value_error "adapter" []), [])

note_crashes :
    (request_tool_run
      (with_adapter crashing env)
      "notes_tool"
      "writer"
      letter
      "report"
      none
      company).0
    ≡ err (value_error "adapter" [])
unfolding request_tool_run admit_run execute_tool_run after_adapter new_id utc_now evaluate assess
    max_order assess_tool_request tool_approval_input lookup contains
note_crashes = refl

note_differs :
    request_tool_run (with_adapter crashing env) "notes_tool" "writer" letter "report" none company
    ≢ request_tool_run env "notes_tool" "writer" letter "report" none company
note_differs h = ground (arith, note_crashes, note_runs)

mail_crashes :
    (complete_tool_run (with_adapter crashing env) "run_1" "human_root" none with_mail).0
    ≡ err (value_error "adapter" [])
unfolding complete_tool_run waiting_run live_controls revalidate_run execute_tool_run after_adapter
    evaluate assess max_order assess_tool_request tool_approval_input tool_approval_matches_run
    lookup contains value_eq member sorted
mail_crashes = refl

mail_differs :
    complete_tool_run (with_adapter crashing env) "run_1" "human_root" none with_mail
    ≢ complete_tool_run env "run_1" "human_root" none with_mail
mail_differs h = ground (arith, mail_crashes, mail_completes)

request_tool_run-IsUnattended_example :
    (tool : Tool) × (agent : Agent) × (lookup "notes_tool" company.tools ≡ some tool)
    × (lookup "writer" company.agents ≡ some agent)
    × IsUnattended tool agent (tool_request env tool "writer" none "report" letter)
request_tool_run-IsUnattended_example =
    request_tool_run-IsUnattended env crashing "notes_tool" "writer" letter "report" none company
      (inl note_differs)

complete_tool_run-IsApproved_example : IsApproved env "run_1" with_mail
complete_tool_run-IsApproved_example =
    complete_tool_run-IsApproved env crashing "run_1" "human_root" none with_mail (inl mail_differs)

complete_tool_run_once_example :
    (complete_tool_run env "run_1" "somebody" none
      (complete_tool_run env "run_1" "human_root" none with_mail).1).0
    ≡ err (value_error "tool run is not waiting for approval" [])
complete_tool_run_once_example =
    complete_tool_run_once env "run_1" "human_root" "somebody" none none with_mail mail_completes

assess_tool_request_exact_example :
    ((assess_tool_request mail_tool mail_request).requires_approval ≡ false ↔ (
      IsUnlisted mail_request
      × (mail_tool.risk_level ≡ RiskLevel.low)
      × (mail_tool.requires_approval ≡ false)))
    × ((assess_tool_request mail_tool mail_request).blocked ≡ true ↔ (
        (contains mail_request.action forbidden_actions ≡ true)
        ⊎ (mail_tool.risk_level ≡ RiskLevel.forbidden)))
    × (risk_order (assess mail_request).level
        ≤ risk_order (assess_tool_request mail_tool mail_request).level)
    × (risk_order mail_tool.risk_level
        ≤ risk_order (assess_tool_request mail_tool mail_request).level)
    × (((assess_tool_request mail_tool mail_request).level ≡ (assess mail_request).level)
        ⊎ ((assess_tool_request mail_tool mail_request).level ≡ mail_tool.risk_level))
assess_tool_request_exact_example = assess_tool_request_exact mail_tool mail_request

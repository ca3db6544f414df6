-- ===== src/Service/ActionRequests/Tests.antt =====
-- Requests for an action that are run (backend/app/services/company.py).
use bug_free_enigma.Base.{String, true, none, ◌≡◌, refl, ok, contains, Outcome, err}
use bug_free_enigma.Base.Dict.{lookup, put}
use bug_free_enigma.Core.Enums.{PermissionLevel, ApprovalStatus, ActionDecision}
use bug_free_enigma.Core.Json.{end}
use bug_free_enigma.Core.Models.Control.{ActionRequest, ApprovalRequest}
use bug_free_enigma.Safety.Risk.{assess}
use bug_free_enigma.Safety.Permissions.{evaluate, max_order}
use bug_free_enigma.Approvals.{request_approval, decide}
use bug_free_enigma.Service.State.{Company}
use bug_free_enigma.Service.Sample.{env, company}
use bug_free_enigma.Service.Records.{log_event, report_incident}
use bug_free_enigma.Service.ToolRuns.Execution.{ask_approval}
use bug_free_enigma.Service.ActionRequests.{
  ActionReply, request_action_approval, answer_request, file_request, file_approval,
  block_by_permission, report_blocked_request, decide_approval,
}
use bug_free_enigma.Service.ActionRequests.Gate.{IsGated, request_action_approval-IsGated}

abbrev tidying : ActionRequest
tidying = record {
  action = "tidy_notes";
  actor_id = "writer";
  task_id = none;
  permission_level = PermissionLevel.l2_internal_write;
  reason = "The notes are in disorder";
  target = none;
  reversible = true;
  metadata = end;
}

-- an action that the Agent's own list forbids
abbrev deleting : ActionRequest
deleting = record tidying { action = "delete_file" }

abbrev allowed_reply : ActionReply
allowed_reply = record {
  request = tidying;
  risk = assess tidying;
  permission_decision = ActionDecision.allow;
  permission_reason = "permission allowed";
  approval = none;
  result = "allowed";
  incident = none;
}

tidying_is_allowed : (request_action_approval env tidying "" "" company).0 ≡ ok allowed_reply
unfolding request_action_approval answer_request file_request report_blocked_request log_event
    evaluate max_order assess contains lookup
tidying_is_allowed = refl

abbrev said : Outcome ActionReply → String
said (ok reply) = reply.result
said (err e) = ""

deleting_is_blocked : said (request_action_approval env deleting "" "" company).0 ≡ "blocked"
unfolding request_action_approval answer_request file_request file_approval block_by_permission
    report_blocked_request ask_approval request_approval report_incident log_event evaluate assess
    contains lookup put
deleting_is_blocked = refl

-- an actor that is no Agent waits for a decision, which is then taken
abbrev asking : ActionRequest
asking = record tidying { actor_id = "guest" }

abbrev asked : Company
asked = (request_action_approval env asking "" "" company).1

abbrev status_of : Outcome ApprovalRequest → ApprovalStatus
status_of (ok approval) = approval.status
status_of (err e) = ApprovalStatus.not_required

decision_is_taken :
    status_of (decide_approval env "approval_a" ApprovalStatus.approved "human_root" "fine" asked).0
    ≡ ApprovalStatus.approved
unfolding request_action_approval answer_request file_request file_approval report_blocked_request
    ask_approval request_approval log_event assess contains lookup put decide_approval decide
decision_is_taken = refl

request_action_approval-IsGated_example : IsGated tidying company allowed_reply
request_action_approval-IsGated_example =
    request_action_approval-IsGated env tidying "" "" company tidying_is_allowed

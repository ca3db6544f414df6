-- ===== src/Service/ActionRequests.antt =====
-- backend/app/services/company.py: `request_action_approval` and `decide_approval`. The request takes
-- the fields of its `ActionRequest`.
pub mod Gate
mod Tests
use bug_free_enigma.Base.{
  String, Bool, true, false, ◌&&◌, ◌||◌, Option, none, some, [], if◌then◌else◌, Outcome, ok,
}
use bug_free_enigma.Base.Dict.{lookup, put}
use bug_free_enigma.Base.Text.{◌<>◌}
use bug_free_enigma.Core.Enums.{ActionDecision, ApprovalStatus}
use bug_free_enigma.Core.Values.{approval_status_value}
use bug_free_enigma.Core.Models.Control.{ActionRequest, RiskAssessment, ApprovalRequest, Incident}
use bug_free_enigma.Safety.Risk.{assess}
use bug_free_enigma.Safety.Permissions.{PermissionResult, evaluate}
use bug_free_enigma.Approvals.{decide}
use bug_free_enigma.Service.State.{Env, Company}
use bug_free_enigma.Service.Actions.{Action, pure, gets, asks, modify, ◌>>=◌, ◌>>◌, utc_now}
use bug_free_enigma.Service.Records.{log_event, report_incident}
use bug_free_enigma.Service.ToolRuns.Execution.{is_block, is_require_approval, ask_approval}

pub record ActionReply : Type 0 where
  pub request : ActionRequest
  pub risk : RiskAssessment
  pub permission_decision : ActionDecision
  pub permission_reason : String
  pub approval : Option ApprovalRequest
  pub result : String
  pub incident : Option Incident

-- what the permission engine says of the actor, if it is a registered Agent
abbrev pub permission_of : ActionRequest → Company → Outcome PermissionResult
permission_of request c = elim (lookup request.actor_id c.agents) [
  | none ↦ ok (record {
    decision = ActionDecision.require_approval;
    reason = "actor is not a registered agent";
  })
  | some agent ↦ evaluate agent request
]

abbrev pub should_block : RiskAssessment → PermissionResult → Bool
should_block risk permission = risk.blocked || is_block permission.decision

abbrev pub should_approve : RiskAssessment → PermissionResult → Bool
should_approve risk permission = risk.requires_approval || is_require_approval permission.decision

abbrev pub is_pending : ApprovalStatus → Bool
is_pending ApprovalStatus.pending = true
is_pending _ = false

abbrev pub is_blocked_status : ApprovalStatus → Bool
is_blocked_status ApprovalStatus.blocked = true
is_blocked_status _ = false

-- The approval that is filed, if any, its status, and the result.
pub record Filed : Type 0 where
  pub approval : Option ApprovalRequest
  pub status : ApprovalStatus
  pub result : String

abbrev pub filed_as : ApprovalRequest → Filed
filed_as approval = record {
  approval = some approval;
  status = approval.status;
  result = if is_blocked_status approval.status then "blocked" else "approval_required";
}

-- `approval.approval_id if approval else None`
abbrev pub approval_id_of : Filed → Option String
approval_id_of filed = elim filed.approval [ none ↦ none | some a ↦ some a.approval_id ]

module _ (env : Env) where
  unfoldable pub block_by_permission : String → ApprovalRequest → Action ApprovalRequest
  unfolding utc_now
  block_by_permission reason approval = do
    now ← utc_now env
    let blocked : ApprovalRequest = record approval {
      status = ApprovalStatus.blocked;
      decided_at = some now;
      decided_by = some "permission_system";
      decision_note = some reason;
    }
    modify (λ c. record c { approvals = put blocked.approval_id blocked c.approvals })
    pure blocked

  -- the approval of a request that is not let through
  unfoldable pub file_approval :
      ActionRequest → RiskAssessment → PermissionResult → String → String → Action ApprovalRequest
  file_approval request risk permission possible_benefit possible_loss = do
    let blocks = should_block risk permission
    approval ←
        ask_approval env request risk possible_benefit (
          if blocks then possible_loss <> (" Permission: " <> permission.reason) else possible_loss)
    (if blocks && is_pending approval.status
        then block_by_permission permission.reason approval
        else pure approval)

  unfoldable pub file_request :
      ActionRequest → RiskAssessment → PermissionResult → String → String → Action Filed
  file_request request risk permission possible_benefit possible_loss =
      if should_block risk permission || should_approve risk permission
      then (do
        approval ← file_approval request risk permission possible_benefit possible_loss
        pure (filed_as approval))
      else pure
          (record { approval = none; status = ApprovalStatus.not_required; result = "allowed" })

  -- the incident of a request that is blocked
  unfoldable pub report_blocked_request :
      ActionRequest → RiskAssessment → PermissionResult → Filed → Action (Option Incident)
  report_blocked_request request risk permission filed =
      if is_blocked_status filed.status
      then (do
        incident ←
            report_incident env "Action request blocked" permission.reason "approval"
              (elim (approval_id_of filed) [ none ↦ "none" | some i ↦ i ]) risk.level
              request.task_id (some request.actor_id)
              "Review the requested action, actor permissions, and safety policy."
        pure (some incident))
      else pure none

  -- what follows once the approval is filed
  unfoldable pub answer_request :
      ActionRequest → RiskAssessment → PermissionResult → Filed → Action ActionReply
  answer_request request risk permission filed = do
    incident ← report_blocked_request request risk permission filed
    log_event env "action_requested" request.actor_id request.action request.task_id risk.level
        filed.status filed.result (some request.reason) (approval_id_of filed) none
    pure (record {
      request = request;
      risk = risk;
      permission_decision = permission.decision;
      permission_reason = permission.reason;
      approval = filed.approval;
      result = filed.result;
      incident = incident;
    })

  unfoldable pub request_action_approval : ActionRequest → String → String → Action ActionReply
  request_action_approval request possible_benefit possible_loss = do
    permission ← asks (permission_of request)
    filed ← file_request request (assess request) permission possible_benefit possible_loss
    answer_request request (assess request) permission filed

  -- The clock is read where the decision is taken.
  unfoldable pub decide_approval :
      String → ApprovalStatus → String → String → Action ApprovalRequest
  unfolding utc_now
  decide_approval approval_id status decided_by note = do
    result ←
        asks (λ c. decide approval_id status decided_by note (env.clock c.clock_reads) c.approvals)
    utc_now env
    modify (λ c. record c { approvals = result.1 })
    log_event env "approval_decided" decided_by result.0.request.action result.0.request.task_id
        result.0.risk.level result.0.status (approval_status_value result.0.status) (some note)
        (some result.0.approval_id) none
    pure result.0

-- ===== src/Approvals.antt =====
-- backend/app/approvals/service.py: `ApprovalCenter`. What the clock and `uuid4` give is passed in.
pub mod Lifecycle
mod Tests
use bug_free_enigma.Base.{
  String, Bool, true, false, not, Option, none, some, List, [], Outcome, ok, err, value_error,
  ◌>>=◌, ◌>>◌, raise_if, if◌then◌else◌,
}
use bug_free_enigma.Base.Dict.{Dict, get, put, index_by}
use bug_free_enigma.Core.Enums.{ApprovalStatus, RiskLevel}
use bug_free_enigma.Core.Models.Control.{ActionRequest, RiskAssessment, ApprovalRequest}
use bug_free_enigma.Core.Time.{Instant}

abbrev pub ApprovalCenter : Type 0
ApprovalCenter = Dict ApprovalRequest

-- the constructor over the stored approvals
abbrev pub restored : List ApprovalRequest → ApprovalCenter
restored approvals = index_by (λ a. a.approval_id) approvals []

abbrev recommendation_for : RiskLevel → String
recommendation_for RiskLevel.forbidden = "reject"
recommendation_for _ = "review"

-- the fields that `request_approval` sets once the approval is built
abbrev block_if_forbidden : Instant → ApprovalRequest → ApprovalRequest
block_if_forbidden now approval =
    if approval.risk.blocked
    then record approval {
      status = ApprovalStatus.blocked;
      decided_at = some now;
      decided_by = some "risk_system";
      decision_note = some "blocked by forbidden action policy";
    }
    else approval

unfoldable pub new_approval :
    String → Instant → Instant → ActionRequest → RiskAssessment → String → String → ApprovalRequest
new_approval approval_id created now request risk possible_benefit possible_loss =
    block_if_forbidden now (record {
      request = request;
      risk = risk;
      possible_benefit = possible_benefit;
      possible_loss = possible_loss;
      recommendation = recommendation_for risk.level;
      approval_id = approval_id;
      status = ApprovalStatus.pending;
      created_at = created;
      decided_at = none;
      decided_by = none;
      decision_note = none;
    })

unfoldable pub request_approval :
    String
    → Instant
    → Instant
    → ActionRequest
    → RiskAssessment
    → String
    → String
    → ApprovalCenter
    → ApprovalRequest × ApprovalCenter
unfolding new_approval
request_approval approval_id created now request risk possible_benefit possible_loss center =
    let approval =
      new_approval approval_id created now request risk possible_benefit possible_loss in
    (approval, put approval.approval_id approval center)

-- The statuses that a decision may still follow.
abbrev pub is_open : ApprovalStatus → Bool
is_open ApprovalStatus.pending = true
is_open ApprovalStatus.need_more_info = true
is_open _ = false

-- The statuses that a decision may set.
abbrev pub is_decision : ApprovalStatus → Bool
is_decision ApprovalStatus.pending = false
is_decision ApprovalStatus.not_required = false
is_decision _ = true

abbrev pub decided : ApprovalStatus → String → String → Instant → ApprovalRequest → ApprovalRequest
decided status decided_by note now approval = record approval {
  status = status;
  decided_at = some now;
  decided_by = some decided_by;
  decision_note = some note;
}

unfoldable pub decide :
    String
    → ApprovalStatus
    → String
    → String
    → Instant
    → ApprovalCenter
    → Outcome (ApprovalRequest × ApprovalCenter)
decide approval_id status decided_by note now center = do
  approval ← get approval_id center
  raise_if (not (is_open approval.status))
      (value_error "approval has already reached a final decision" [])
  raise_if (not (is_decision status)) (value_error "invalid approval decision" [])
  let approval' = decided status decided_by note now approval
  ok (approval', put approval_id approval' center)

-- ===== src/Approvals/Tests.antt =====
-- A run of the approval center (backend/app/approvals/service.py).
use bug_free_enigma.Base.{true, false, none, some, [], ◌∷◌, ◌≡◌, refl, ok, All}
use bug_free_enigma.Base.Dict.{lookup, put, values}
use bug_free_enigma.Core.Enums.{PermissionLevel, RiskLevel, ApprovalStatus}
use bug_free_enigma.Core.Json.{end}
use bug_free_enigma.Core.Models.Control.{ActionRequest, RiskAssessment, ApprovalRequest}
use bug_free_enigma.Approvals.{ApprovalCenter, request_approval, new_approval, decide, decided}
use bug_free_enigma.Approvals.Lifecycle.{Step, Reach, IsSound, Reach-final, Reach-IsSound}

abbrev sending : ActionRequest
sending = record {
  action = "send_email";
  actor_id = "clerk";
  task_id = none;
  permission_level = PermissionLevel.l3_external_prepare;
  reason = "a letter";
  target = none;
  reversible = false;
  metadata = end;
}

abbrev high : RiskAssessment
high = record {
  request = sending;
  level = RiskLevel.high;
  reasons = [];
  requires_approval = true;
  blocked = false;
}

abbrev first : ApprovalRequest
first = (request_approval "approval_1" 1 2 sending high "" "" []).0

abbrev asked : ApprovalCenter
asked = (request_approval "approval_1" 1 2 sending high "" "" []).1

abbrev rejected : ApprovalRequest
rejected = decided ApprovalStatus.rejected "human_root" "no" 3 first

abbrev answered : ApprovalCenter
answered = ("approval_1", rejected) ∷ []

is_answered :
    decide "approval_1" ApprovalStatus.rejected "human_root" "no" 3 asked ≡ ok (rejected, answered)
unfolding decide request_approval new_approval lookup put
is_answered = refl

abbrev asked_again : ApprovalCenter
asked_again = (request_approval "approval_2" 4 5 sending high "" "" answered).1

fresh : lookup "approval_2" answered ≡ none
unfolding lookup
fresh = refl

fresh_1 : lookup {V = ApprovalRequest} "approval_1" [] ≡ none
unfolding lookup
fresh_1 = refl

abbrev run : Reach [] answered
run =
    Reach.next
      (Reach.next Reach.here (Step.requested "approval_1" 1 2 sending high "" "" fresh_1 refl))
      (Step.decision "approval_1" ApprovalStatus.rejected "human_root" "no" 3 rejected is_answered)

abbrev later : Reach answered asked_again
later = Reach.next Reach.here (Step.requested "approval_2" 4 5 sending high "" "" fresh refl)

stands : lookup "approval_1" answered ≡ some rejected
unfolding lookup
stands = refl

Reach-final_example : lookup "approval_1" asked_again ≡ some rejected
Reach-final_example = Reach-final "approval_1" stands refl later

Reach-IsSound_example : All IsSound (values answered)
Reach-IsSound_example = Reach-IsSound tt run

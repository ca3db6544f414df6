-- ===== src/Safety/Risk.antt =====
-- backend/app/safety/risk.py: `RiskEngine`.
use bug_free_enigma.Base.{
  Bool, true, false, ◌||◌, [], ◌∷◌, ◌≡◌, ◌↔◌, ◌≢◌, arith, contains, if◌then◌else◌,
}
use bug_free_enigma.Core.Enums.{PermissionLevel, RiskLevel}
use bug_free_enigma.Core.Models.Control.{ActionRequest, RiskAssessment}
use bug_free_enigma.Safety.Policy.{forbidden_actions, high_risk_actions, medium_risk_actions}

abbrev pub is_l4 : PermissionLevel → Bool
is_l4 PermissionLevel.l4_high_risk = true
is_l4 _ = false

abbrev pub is_l3 : PermissionLevel → Bool
is_l3 PermissionLevel.l3_external_prepare = true
is_l3 _ = false

unfoldable pub assess : ActionRequest → RiskAssessment
assess request =
    if contains request.action forbidden_actions
    then record {
      request = request;
      level = RiskLevel.forbidden;
      reasons = "action is forbidden by safety policy" ∷ [];
      requires_approval = true;
      blocked = true;
    }
    else if contains request.action high_risk_actions || is_l4 request.permission_level
    then record {
      request = request;
      level = RiskLevel.high;
      reasons = "action is high risk and requires Root approval" ∷ [];
      requires_approval = true;
      blocked = false;
    }
    else if contains request.action medium_risk_actions || is_l3 request.permission_level
    then record {
      request = request;
      level = RiskLevel.medium;
      reasons = "action is medium risk and requires approval" ∷ [];
      requires_approval = true;
      blocked = false;
    }
    else record {
      request = request;
      level = RiskLevel.low;
      reasons = "action is low risk" ∷ [];
      requires_approval = false;
      blocked = false;
    }

-- An action that no policy names, at a level below external preparation.
pub record IsUnlisted (r : ActionRequest) : Type 0 where
  pub not_forbidden : contains r.action forbidden_actions ≡ false
  pub not_high : contains r.action high_risk_actions ≡ false
  pub not_medium : contains r.action medium_risk_actions ≡ false
  pub not_l4 : r.permission_level ≢ PermissionLevel.l4_high_risk
  pub not_l3 : r.permission_level ≢ PermissionLevel.l3_external_prepare

-- A request is blocked exactly when its action is on the forbidden list, and it goes through with
-- no approval exactly when no policy list names its action and its level is neither L3 nor L4.
-- A blocked assessment is the one of forbidden level, and one without approval that of low level.
pub assess_exact :
    (r : ActionRequest)
    → ((assess r).blocked ≡ true ↔ contains r.action forbidden_actions ≡ true)
      × ((assess r).requires_approval ≡ false ↔ IsUnlisted r)
      × ((assess r).blocked ≡ true ↔ (assess r).level ≡ RiskLevel.forbidden)
      × ((assess r).requires_approval ≡ false ↔ (assess r).level ≡ RiskLevel.low)
unfolding assess
assess_exact r = ground arith

-- ===== src/Safety/Tests.antt =====
-- The engines of backend/app/safety and backend/app/permissions on one Agent and two requests.
use bug_free_enigma.Base.{true, false, none, [], ◌∷◌, ◌≡◌, ◌↔◌, refl, ok, contains}
use bug_free_enigma.Core.Enums.{PermissionLevel, RiskLevel, ActionDecision}
use bug_free_enigma.Core.Json.{end}
use bug_free_enigma.Core.Models.Catalog.{Agent}
use bug_free_enigma.Core.Models.Control.{ActionRequest}
use bug_free_enigma.Safety.Policy.{forbidden_actions}
use bug_free_enigma.Safety.Risk.{assess, IsUnlisted, assess_exact}
use bug_free_enigma.Safety.Permissions.{
  PermissionResult, block, evaluate, max_order, IsAllowed, evaluate_exact,
}
use bug_free_enigma.Safety.Gates.{evaluate_root_level}

abbrev clerk : Agent
clerk = record {
  agent_id = "clerk";
  name = "Clerk";
  department = "Operations";
  role = "Keeps files";
  permissions = PermissionLevel.l0_read ∷ PermissionLevel.l1_draft ∷ [];
  forbidden = "delete_file" ∷ [];
  allowed_skills = [];
  allowed_tools = [];
  reports_to = "human_root";
  risk_level = RiskLevel.low;
  version = "1.0.0";
  enabled = true;
}

abbrev draft : ActionRequest
draft = record {
  action = "draft_note";
  actor_id = "clerk";
  task_id = none;
  permission_level = PermissionLevel.l1_draft;
  reason = "a note";
  target = none;
  reversible = true;
  metadata = end;
}

abbrev root_draft : ActionRequest
root_draft = record draft { permission_level = PermissionLevel.l5_root }

abbrev past_boundary : PermissionResult
past_boundary = block "permission level exceeds agent boundary"

is_past : evaluate clerk root_draft ≡ ok past_boundary
unfolding evaluate max_order contains
is_past = refl

assess_exact_example :
    ((assess draft).blocked ≡ true ↔ contains draft.action forbidden_actions ≡ true)
    × ((assess draft).requires_approval ≡ false ↔ IsUnlisted draft)
    × ((assess draft).blocked ≡ true ↔ (assess draft).level ≡ RiskLevel.forbidden)
    × ((assess draft).requires_approval ≡ false ↔ (assess draft).level ≡ RiskLevel.low)
assess_exact_example = assess_exact draft

evaluate_exact_example :
    (evaluate clerk draft
      ≡ ok (record { decision = ActionDecision.allow; reason = "permission allowed" }))
    ↔ IsAllowed clerk draft
evaluate_exact_example = evaluate_exact clerk draft

l0_is_not_root : PermissionLevel.l0_read ≡ PermissionLevel.l5_root → ⊥
l0_is_not_root e = cc

l1_is_not_root : PermissionLevel.l1_draft ≡ PermissionLevel.l5_root → ⊥
l1_is_not_root e = cc

evaluate_root_level_example : past_boundary.decision ≡ ActionDecision.block
evaluate_root_level_example =
    evaluate_root_level clerk root_draft (l0_is_not_root, (l1_is_not_root, tt)) refl is_past

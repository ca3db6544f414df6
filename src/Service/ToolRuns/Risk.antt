-- ===== src/Service/ToolRuns/Risk.antt =====
-- `_assess_tool_request` of backend/app/services/company.py: the risk of an action joined with the
-- registered risk of the Tool.
use bug_free_enigma.Base.{◌≤◌, true, false, ◌≡◌, ◌↔◌, ◌⊎◌, arith, contains}
use bug_free_enigma.Core.Enums.{RiskLevel}
use bug_free_enigma.Core.Models.Catalog.{Tool}
use bug_free_enigma.Core.Models.Control.{ActionRequest}
use bug_free_enigma.Safety.Policy.{forbidden_actions}
use bug_free_enigma.Safety.Risk.{assess, assess_exact, IsUnlisted}
use bug_free_enigma.Service.ToolApproval.{risk_order, assess_tool_request}

-- The joint assessment asks for no approval exactly when no policy lists the request, the Tool's
-- own risk is low and the Tool does not ask for one. It blocks exactly when the action is on the
-- forbidden list or the Tool's risk is forbidden. Its level is neither below the action's nor below
-- the Tool's, and is one of the two.
pub assess_tool_request_exact :
    (t : Tool) (r : ActionRequest)
    → ((assess_tool_request t r).requires_approval ≡ false
        ↔ (IsUnlisted r × (t.risk_level ≡ RiskLevel.low) × (t.requires_approval ≡ false)))
      × ((assess_tool_request t r).blocked ≡ true
          ↔ ((contains r.action forbidden_actions ≡ true) ⊎ (t.risk_level ≡ RiskLevel.forbidden)))
      × (risk_order (assess r).level ≤ risk_order (assess_tool_request t r).level)
      × (risk_order t.risk_level ≤ risk_order (assess_tool_request t r).level)
      × (((assess_tool_request t r).level ≡ (assess r).level)
          ⊎ ((assess_tool_request t r).level ≡ t.risk_level))
unfolding assess_tool_request
assess_tool_request_exact t r =
    let (blocks, frees, at_top, at_bottom) = assess_exact r in
    (
      (
        λ h. (frees.0 (ground arith), ground (arith, at_bottom), ground arith),
        λ h. ground (arith, frees.1 h.0, at_bottom),
      ),
      (λ h. ground (arith, blocks, at_top), λ h. ground (arith, blocks, at_top)),
      ground arith,
      ground arith,
      ground arith,
    )

-- ===== src/Catalog/Agents/Shared.antt =====
-- backend/app/agents/registry.py, `default_agents`: the sets that its entries share.
use bug_free_enigma.Base.{String, List, [], ◌∷◌}
use bug_free_enigma.Core.Enums.{PermissionLevel}

abbrev pub common_forbidden : List String
common_forbidden =
    "execute_payment" ∷ "execute_refund" ∷ "delete_audit_log" ∷ "modify_audit_log"
    ∷ "disable_risk_system" ∷ "modify_root_permissions" ∷ []

abbrev pub internal_permissions : List PermissionLevel
internal_permissions =
    PermissionLevel.l0_read ∷ PermissionLevel.l1_draft ∷ PermissionLevel.l2_internal_write ∷ []

abbrev pub review_permissions : List PermissionLevel
review_permissions = PermissionLevel.l0_read ∷ PermissionLevel.l1_draft ∷ []

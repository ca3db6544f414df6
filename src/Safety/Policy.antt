-- ===== src/Safety/Policy.antt =====
-- The action policies of backend/app/safety/risk.py and backend/app/permissions/engine.py.
use bug_free_enigma.Base.{ℕ, String, List, [], ◌∷◌}
use bug_free_enigma.Core.Enums.{PermissionLevel}

abbrev pub forbidden_actions : List String
forbidden_actions =
    "phishing" ∷ "credential_theft" ∷ "steal_token" ∷ "steal_cookie" ∷ "captcha_bypass"
    ∷ "platform_risk_bypass" ∷ "attack_system" ∷ "malicious_computer_control"
    ∷ "malicious_bulk_register" ∷ "malicious_mass_message" ∷ "ad_click_fraud" ∷ "money_laundering"
    ∷ "automatic_transfer" ∷ "illegal_scraping" ∷ "delete_audit_log" ∷ "modify_audit_log"
    ∷ "disable_risk_system" ∷ "modify_root_permissions" ∷ []

abbrev pub high_risk_actions : List String
high_risk_actions =
    "execute_payment" ∷ "execute_refund" ∷ "change_password" ∷ "export_private_data"
    ∷ "control_local_computer" ∷ "execute_code" ∷ "publish_external_content" ∷ "restore_backup"
    ∷ "send_external_message" ∷ []

abbrev pub medium_risk_actions : List String
medium_risk_actions =
    "prepare_external_message" ∷ "prepare_external_content" ∷ "call_external_api"
    ∷ "generate_contract_draft" ∷ "generate_quote" ∷ "read_customer_data" ∷ []

abbrev pub root_only_actions : List String
root_only_actions =
    "delete_audit_log" ∷ "modify_audit_log" ∷ "disable_risk_system" ∷ "modify_root_permissions"
    ∷ "execute_payment" ∷ "execute_refund" ∷ "change_password" ∷ "export_all_private_data" ∷ []

-- `PERMISSION_ORDER`
abbrev pub permission_order : PermissionLevel → ℕ
permission_order PermissionLevel.l0_read = 0
permission_order PermissionLevel.l1_draft = 1
permission_order PermissionLevel.l2_internal_write = 2
permission_order PermissionLevel.l3_external_prepare = 3
permission_order PermissionLevel.l4_high_risk = 4
permission_order PermissionLevel.l5_root = 5

-- ===== src/Catalog/Agents/Control.antt =====
-- backend/app/agents/registry.py, `default_agents`: the compliance, capability, audit and workspace Agents.
use bug_free_enigma.Base.{true, [], ◌∷◌}
use bug_free_enigma.Core.Enums.{PermissionLevel, RiskLevel}
use bug_free_enigma.Core.Models.Catalog.{Agent}
use bug_free_enigma.Catalog.Agents.Shared.{
  common_forbidden, internal_permissions, review_permissions,
}

abbrev pub finance_assistant_agent : Agent
finance_assistant_agent = record {
  agent_id = "finance_assistant_agent_v1";
  name = "Finance Assistant Agent";
  department = "Finance";
  role = "Prepare internal financial summaries without moving money or changing accounts.";
  permissions = review_permissions;
  forbidden = common_forbidden;
  allowed_skills =
      "data_cleanup_skill_v1" ∷ "spreadsheet_generation_skill_v1" ∷ "risk_check_skill_v1" ∷ [];
  allowed_tools = "database_read_tool" ∷ "filesystem_read_tool" ∷ [];
  reports_to = "human_root";
  risk_level = RiskLevel.high;
  version = "1.0.0";
  enabled = true;
}

abbrev pub memory_agent : Agent
memory_agent = record {
  agent_id = "memory_agent_v1";
  name = "Memory Agent";
  department = "Knowledge";
  role = "Turn completed work and reviews into scoped, reusable internal memory.";
  permissions = internal_permissions;
  forbidden = common_forbidden;
  allowed_skills = "memory_write_skill_v1" ∷ "summary_skill_v1" ∷ "knowledge_search_skill_v1" ∷ [];
  allowed_tools = "knowledge_base_tool" ∷ "database_read_tool" ∷ [];
  reports_to = "project_manager_agent_v1";
  risk_level = RiskLevel.low;
  version = "1.0.0";
  enabled = true;
}

abbrev pub skill_manager_agent : Agent
skill_manager_agent = record {
  agent_id = "skill_manager_agent_v1";
  name = "Skill Manager Agent";
  department = "Capability";
  role = "Search, compare, and compose registered Skills before proposing new capability.";
  permissions = internal_permissions;
  forbidden = common_forbidden;
  allowed_skills =
      "skill_search_skill_v1" ∷ "skill_composition_skill_v1" ∷ "temporary_skill_creation_skill_v1"
      ∷ "github_project_analysis_skill_v1" ∷ [];
  allowed_tools = "database_read_tool" ∷ "audit_read_tool" ∷ [];
  reports_to = "ceo_agent_v1";
  risk_level = RiskLevel.medium;
  version = "1.0.0";
  enabled = true;
}

abbrev pub workflow_agent : Agent
workflow_agent = record {
  agent_id = "workflow_agent_v1";
  name = "Workflow Agent";
  department = "Operations";
  role = "Coordinate registered workflow steps and surface approval or capability gaps.";
  permissions = internal_permissions;
  forbidden = common_forbidden;
  allowed_skills =
      "task_planning_skill_v1" ∷ "approval_request_skill_v1" ∷ "quality_check_skill_v1"
      ∷ "audit_logging_skill_v1" ∷ [];
  allowed_tools = "task_manager_tool" ∷ "audit_read_tool" ∷ "database_read_tool" ∷ [];
  reports_to = "ceo_agent_v1";
  risk_level = RiskLevel.medium;
  version = "1.0.0";
  enabled = true;
}

abbrev pub audit_agent : Agent
audit_agent = record {
  agent_id = "audit_agent_v1";
  name = "Audit Agent";
  department = "Audit";
  role = "Inspect append-only operational records and report control gaps.";
  permissions = review_permissions;
  forbidden = common_forbidden;
  allowed_skills = "audit_logging_skill_v1" ∷ "risk_check_skill_v1" ∷ "summary_skill_v1" ∷ [];
  allowed_tools = "audit_read_tool" ∷ "database_read_tool" ∷ [];
  reports_to = "human_root";
  risk_level = RiskLevel.high;
  version = "1.0.0";
  enabled = true;
}

abbrev pub capability_gap_detector_agent : Agent
capability_gap_detector_agent = record {
  agent_id = "capability_gap_detector_agent_v1";
  name = "Capability Gap Detector Agent";
  department = "Capability";
  role = "Detect repeated capability and role gaps without changing runtime authority.";
  permissions = review_permissions;
  forbidden = common_forbidden;
  allowed_skills = "skill_search_skill_v1" ∷ "knowledge_search_skill_v1" ∷ "summary_skill_v1" ∷ [];
  allowed_tools = "database_read_tool" ∷ "audit_read_tool" ∷ [];
  reports_to = "ceo_agent_v1";
  risk_level = RiskLevel.medium;
  version = "1.0.0";
  enabled = true;
}

abbrev pub agent_factory_agent : Agent
agent_factory_agent = record {
  agent_id = "agent_factory_agent_v1";
  name = "Agent Factory Agent";
  department = "Capability";
  role = "Prepare disabled Agent proposals for sandbox, risk, and Human Root review.";
  permissions = internal_permissions;
  forbidden = common_forbidden;
  allowed_skills =
      "task_planning_skill_v1" ∷ "approval_request_skill_v1" ∷ "risk_check_skill_v1" ∷ [];
  allowed_tools = "database_read_tool" ∷ "audit_read_tool" ∷ [];
  reports_to = "human_root";
  risk_level = RiskLevel.high;
  version = "1.0.0";
  enabled = true;
}

abbrev pub skill_factory_agent : Agent
skill_factory_agent = record {
  agent_id = "skill_factory_agent_v1";
  name = "Skill Factory Agent";
  department = "Capability";
  role = "Prepare constrained Skill proposals and temporary low-risk capability definitions.";
  permissions = internal_permissions;
  forbidden = common_forbidden;
  allowed_skills =
      "skill_search_skill_v1" ∷ "skill_composition_skill_v1" ∷ "temporary_skill_creation_skill_v1"
      ∷ "approval_request_skill_v1" ∷ [];
  allowed_tools = "database_read_tool" ∷ "audit_read_tool" ∷ [];
  reports_to = "human_root";
  risk_level = RiskLevel.high;
  version = "1.0.0";
  enabled = true;
}

abbrev pub workspace_agent : Agent
workspace_agent = record {
  agent_id = "workspace_agent_v1";
  name = "Workspace Agent";
  department = "Engineering";
  role = "Inspect and modify the active workspace through approval-gated development tools.";
  permissions =
      PermissionLevel.l0_read ∷ PermissionLevel.l1_draft ∷ PermissionLevel.l2_internal_write
      ∷ PermissionLevel.l4_high_risk ∷ [];
  forbidden = common_forbidden;
  allowed_skills = [];
  allowed_tools =
      "filesystem_read_tool" ∷ "workspace_patch_tool" ∷ "workspace_command_tool" ∷ "git_read_tool"
      ∷ "computer_control_tool" ∷ [];
  reports_to = "project_manager_agent_v1";
  risk_level = RiskLevel.high;
  version = "1.0.0";
  enabled = true;
}

-- ===== src/Catalog/Agents/Operating.antt =====
-- backend/app/agents/registry.py, `default_agents`: the executive, project, document and line Agents.
use bug_free_enigma.Base.{true, [], ◌∷◌}
use bug_free_enigma.Core.Enums.{PermissionLevel, RiskLevel}
use bug_free_enigma.Core.Models.Catalog.{Agent}
use bug_free_enigma.Catalog.Agents.Shared.{
  common_forbidden, internal_permissions, review_permissions,
}

abbrev pub ceo_agent : Agent
ceo_agent = record {
  agent_id = "ceo_agent_v1";
  name = "AI CEO";
  department = "Executive";
  role = "Plan tasks, coordinate agents, and summarize outcomes.";
  permissions =
      PermissionLevel.l0_read ∷ PermissionLevel.l1_draft ∷ PermissionLevel.l2_internal_write
      ∷ PermissionLevel.l3_external_prepare ∷ [];
  forbidden = common_forbidden;
  allowed_skills = "task_planning_skill_v1" ∷ "summary_skill_v1" ∷ "approval_request_skill_v1" ∷ [];
  allowed_tools =
      "task_manager_tool" ∷ "database_read_tool" ∷ "filesystem_read_tool" ∷ "git_read_tool" ∷ [];
  reports_to = "human_root";
  risk_level = RiskLevel.high;
  version = "1.0.0";
  enabled = true;
}

abbrev pub project_manager_agent : Agent
project_manager_agent = record {
  agent_id = "project_manager_agent_v1";
  name = "Project Manager Agent";
  department = "Project";
  role = "Break work into steps and assign execution.";
  permissions =
      PermissionLevel.l0_read ∷ PermissionLevel.l1_draft ∷ PermissionLevel.l2_internal_write ∷ [];
  forbidden = common_forbidden;
  allowed_skills = "task_planning_skill_v1" ∷ "summary_skill_v1" ∷ [];
  allowed_tools = "task_manager_tool" ∷ "filesystem_read_tool" ∷ "git_read_tool" ∷ [];
  reports_to = "ceo_agent_v1";
  risk_level = RiskLevel.medium;
  version = "1.0.0";
  enabled = true;
}

abbrev pub document_agent : Agent
document_agent = record {
  agent_id = "document_agent_v1";
  name = "Document Agent";
  department = "Document";
  role = "Create structured internal documents.";
  permissions =
      PermissionLevel.l0_read ∷ PermissionLevel.l1_draft ∷ PermissionLevel.l2_internal_write ∷ [];
  forbidden = common_forbidden;
  allowed_skills = "document_writer_skill_v1" ∷ "summary_skill_v1" ∷ "rewrite_skill_v1" ∷ [];
  allowed_tools = "knowledge_base_tool" ∷ "filesystem_read_tool" ∷ [];
  reports_to = "project_manager_agent_v1";
  risk_level = RiskLevel.low;
  version = "1.0.0";
  enabled = true;
}

abbrev pub risk_agent : Agent
risk_agent = record {
  agent_id = "risk_agent_v1";
  name = "Risk Agent";
  department = "Safety";
  role = "Assess risk and block forbidden actions.";
  permissions =
      PermissionLevel.l0_read ∷ PermissionLevel.l1_draft ∷ PermissionLevel.l2_internal_write ∷ [];
  forbidden = common_forbidden;
  allowed_skills = "risk_check_skill_v1" ∷ [];
  allowed_tools = "audit_read_tool" ∷ "database_read_tool" ∷ "filesystem_read_tool" ∷ [];
  reports_to = "human_root";
  risk_level = RiskLevel.high;
  version = "1.0.0";
  enabled = true;
}

abbrev pub quality_agent : Agent
quality_agent = record {
  agent_id = "quality_agent_v1";
  name = "Quality Check Agent";
  department = "Quality";
  role = "Check output quality before completion.";
  permissions =
      PermissionLevel.l0_read ∷ PermissionLevel.l1_draft ∷ PermissionLevel.l2_internal_write ∷ [];
  forbidden = common_forbidden;
  allowed_skills = "quality_check_skill_v1" ∷ "code_review_skill_v1" ∷ [];
  allowed_tools = "audit_read_tool" ∷ "database_read_tool" ∷ "filesystem_read_tool" ∷ [];
  reports_to = "project_manager_agent_v1";
  risk_level = RiskLevel.low;
  version = "1.0.0";
  enabled = true;
}

abbrev pub product_agent : Agent
product_agent = record {
  agent_id = "product_agent_v1";
  name = "Product Agent";
  department = "Product";
  role = "Translate goals into product requirements and internal specifications.";
  permissions = internal_permissions;
  forbidden = common_forbidden;
  allowed_skills = "task_planning_skill_v1" ∷ "document_writer_skill_v1" ∷ "rewrite_skill_v1" ∷ [];
  allowed_tools = "task_manager_tool" ∷ "knowledge_base_tool" ∷ "filesystem_read_tool" ∷ [];
  reports_to = "project_manager_agent_v1";
  risk_level = RiskLevel.medium;
  version = "1.0.0";
  enabled = true;
}

abbrev pub tech_agent : Agent
tech_agent = record {
  agent_id = "tech_agent_v1";
  name = "Tech Agent";
  department = "Engineering";
  role = "Design implementation plans, generate draft code, and review technical changes.";
  permissions = internal_permissions;
  forbidden = common_forbidden;
  allowed_skills =
      "code_generation_skill_v1" ∷ "code_review_skill_v1" ∷ "github_project_analysis_skill_v1" ∷ [];
  allowed_tools =
      "task_manager_tool" ∷ "filesystem_read_tool" ∷ "git_read_tool" ∷ "code_execution_tool" ∷ [];
  reports_to = "project_manager_agent_v1";
  risk_level = RiskLevel.high;
  version = "1.0.0";
  enabled = true;
}

abbrev pub data_agent : Agent
data_agent = record {
  agent_id = "data_agent_v1";
  name = "Data Agent";
  department = "Data";
  role = "Clean internal datasets and prepare structured tables and summaries.";
  permissions = internal_permissions;
  forbidden = common_forbidden;
  allowed_skills =
      "data_cleanup_skill_v1" ∷ "spreadsheet_generation_skill_v1" ∷ "summary_skill_v1" ∷ [];
  allowed_tools = "database_read_tool" ∷ "filesystem_read_tool" ∷ "knowledge_base_tool" ∷ [];
  reports_to = "project_manager_agent_v1";
  risk_level = RiskLevel.medium;
  version = "1.0.0";
  enabled = true;
}

abbrev pub legal_compliance_agent : Agent
legal_compliance_agent = record {
  agent_id = "legal_compliance_agent_v1";
  name = "Legal and Compliance Agent";
  department = "Compliance";
  role = "Review internal drafts for policy, privacy, and compliance concerns.";
  permissions = review_permissions;
  forbidden = common_forbidden;
  allowed_skills =
      "risk_check_skill_v1" ∷ "document_writer_skill_v1" ∷ "knowledge_search_skill_v1" ∷ [];
  allowed_tools = "knowledge_base_tool" ∷ "audit_read_tool" ∷ "filesystem_read_tool" ∷ [];
  reports_to = "human_root";
  risk_level = RiskLevel.high;
  version = "1.0.0";
  enabled = true;
}

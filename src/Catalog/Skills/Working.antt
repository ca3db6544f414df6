-- ===== src/Catalog/Skills/Working.antt =====
-- backend/app/skills/registry.py, `default_skills`: planning, documents, checks and data.
use bug_free_enigma.Base.{true, false, [], ◌∷◌}
use bug_free_enigma.Core.Enums.{RiskLevel}
use bug_free_enigma.Core.Models.Catalog.{Skill}

abbrev pub task_planning_skill : Skill
task_planning_skill = record {
  skill_id = "task_planning_skill_v1";
  name = "Task Planning Skill";
  type = "planning";
  description = "Create a safe task plan and execution outline.";
  input_schema = ("goal", "string") ∷ [];
  output_schema = ("plan", "string") ∷ [];
  allowed_agents =
      "ceo_agent_v1" ∷ "project_manager_agent_v1" ∷ "product_agent_v1" ∷ "workflow_agent_v1"
      ∷ "agent_factory_agent_v1" ∷ [];
  risk_level = RiskLevel.low;
  requires_approval = false;
  version = "1.0.0";
  enabled = true;
}

abbrev pub document_writer_skill : Skill
document_writer_skill = record {
  skill_id = "document_writer_skill_v1";
  name = "Document Writing Skill";
  type = "document";
  description = "Generate structured internal markdown documents.";
  input_schema = ("topic", "string") ∷ ("materials", "array") ∷ [];
  output_schema = ("markdown_document", "string") ∷ [];
  allowed_agents = "document_agent_v1" ∷ "product_agent_v1" ∷ "legal_compliance_agent_v1" ∷ [];
  risk_level = RiskLevel.low;
  requires_approval = false;
  version = "1.0.0";
  enabled = true;
}

abbrev pub summary_skill : Skill
summary_skill = record {
  skill_id = "summary_skill_v1";
  name = "Summary Skill";
  type = "document";
  description = "Summarize plans, decisions, and task results.";
  input_schema = ("content", "string") ∷ [];
  output_schema = ("summary", "string") ∷ [];
  allowed_agents =
      "ceo_agent_v1" ∷ "project_manager_agent_v1" ∷ "document_agent_v1" ∷ "data_agent_v1"
      ∷ "memory_agent_v1" ∷ "audit_agent_v1" ∷ "capability_gap_detector_agent_v1" ∷ [];
  risk_level = RiskLevel.low;
  requires_approval = false;
  version = "1.0.0";
  enabled = true;
}

abbrev pub risk_check_skill : Skill
risk_check_skill = record {
  skill_id = "risk_check_skill_v1";
  name = "Risk Check Skill";
  type = "safety";
  description = "Check risk level and forbidden action policy.";
  input_schema = ("action", "string") ∷ [];
  output_schema = ("risk_level", "string") ∷ [];
  allowed_agents =
      "risk_agent_v1" ∷ "legal_compliance_agent_v1" ∷ "finance_assistant_agent_v1"
      ∷ "audit_agent_v1" ∷ "agent_factory_agent_v1" ∷ [];
  risk_level = RiskLevel.low;
  requires_approval = false;
  version = "1.0.0";
  enabled = true;
}

abbrev pub quality_check_skill : Skill
quality_check_skill = record {
  skill_id = "quality_check_skill_v1";
  name = "Quality Check Skill";
  type = "quality";
  description = "Check whether output satisfies the requested task.";
  input_schema = ("content", "string") ∷ [];
  output_schema = ("passed", "boolean") ∷ [];
  allowed_agents = "quality_agent_v1" ∷ "workflow_agent_v1" ∷ [];
  risk_level = RiskLevel.low;
  requires_approval = false;
  version = "1.0.0";
  enabled = true;
}

abbrev pub rewrite_skill : Skill
rewrite_skill = record {
  skill_id = "rewrite_skill_v1";
  name = "Rewrite Skill";
  type = "document";
  description = "Rewrite internal text while preserving meaning and constraints.";
  input_schema = ("content", "string") ∷ ("instructions", "string") ∷ [];
  output_schema = ("rewritten_content", "string") ∷ [];
  allowed_agents = "document_agent_v1" ∷ "product_agent_v1" ∷ [];
  risk_level = RiskLevel.low;
  requires_approval = false;
  version = "1.0.0";
  enabled = true;
}

abbrev pub data_cleanup_skill : Skill
data_cleanup_skill = record {
  skill_id = "data_cleanup_skill_v1";
  name = "Data Cleanup Skill";
  type = "data";
  description = "Normalize and validate internal structured data without external writes.";
  input_schema = ("records", "array") ∷ ("rules", "object") ∷ [];
  output_schema = ("records", "array") ∷ ("issues", "array") ∷ [];
  allowed_agents = "data_agent_v1" ∷ "finance_assistant_agent_v1" ∷ [];
  risk_level = RiskLevel.low;
  requires_approval = false;
  version = "1.0.0";
  enabled = true;
}

abbrev pub spreadsheet_generation_skill : Skill
spreadsheet_generation_skill = record {
  skill_id = "spreadsheet_generation_skill_v1";
  name = "Spreadsheet Generation Skill";
  type = "data";
  description = "Prepare an internal spreadsheet specification from validated records.";
  input_schema = ("records", "array") ∷ ("columns", "array") ∷ [];
  output_schema = ("workbook_spec", "object") ∷ [];
  allowed_agents = "data_agent_v1" ∷ "finance_assistant_agent_v1" ∷ [];
  risk_level = RiskLevel.low;
  requires_approval = false;
  version = "1.0.0";
  enabled = true;
}

abbrev pub code_generation_skill : Skill
code_generation_skill = record {
  skill_id = "code_generation_skill_v1";
  name = "Code Generation Skill";
  type = "engineering";
  description = "Generate draft code; execution remains a separate approval-gated Tool action.";
  input_schema = ("requirements", "string") ∷ ("language", "string") ∷ [];
  output_schema = ("source", "string") ∷ ("notes", "string") ∷ [];
  allowed_agents = "tech_agent_v1" ∷ [];
  risk_level = RiskLevel.medium;
  requires_approval = true;
  version = "1.0.0";
  enabled = true;
}

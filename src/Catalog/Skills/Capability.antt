-- ===== src/Catalog/Skills/Capability.antt =====
-- backend/app/skills/registry.py, `default_skills`: engineering, control, knowledge and capability.
use bug_free_enigma.Base.{true, false, [], ◌∷◌}
use bug_free_enigma.Core.Enums.{RiskLevel}
use bug_free_enigma.Core.Models.Catalog.{Skill}

abbrev pub code_review_skill : Skill
code_review_skill = record {
  skill_id = "code_review_skill_v1";
  name = "Code Review Skill";
  type = "engineering";
  description = "Review code for correctness, safety, and missing tests without executing it.";
  input_schema = ("source", "string") ∷ ("context", "string") ∷ [];
  output_schema = ("findings", "array") ∷ [];
  allowed_agents = "tech_agent_v1" ∷ "quality_agent_v1" ∷ [];
  risk_level = RiskLevel.low;
  requires_approval = false;
  version = "1.0.0";
  enabled = true;
}

abbrev pub github_project_analysis_skill : Skill
github_project_analysis_skill = record {
  skill_id = "github_project_analysis_skill_v1";
  name = "GitHub Project Analysis Skill";
  type = "engineering";
  description = "Analyze supplied repository metadata as untrusted external content.";
  input_schema = ("repository", "string") ∷ ("metadata", "object") ∷ [];
  output_schema = ("analysis", "object") ∷ [];
  allowed_agents = "tech_agent_v1" ∷ "skill_manager_agent_v1" ∷ [];
  risk_level = RiskLevel.medium;
  requires_approval = true;
  version = "1.0.0";
  enabled = true;
}

abbrev pub approval_request_skill : Skill
approval_request_skill = record {
  skill_id = "approval_request_skill_v1";
  name = "Approval Request Skill";
  type = "control";
  description = "Prepare a scoped action request for the Approval Center.";
  input_schema = ("action", "string") ∷ ("reason", "string") ∷ ("target", "string") ∷ [];
  output_schema = ("approval_id", "string") ∷ [];
  allowed_agents =
      "ceo_agent_v1" ∷ "workflow_agent_v1" ∷ "agent_factory_agent_v1" ∷ "skill_factory_agent_v1"
      ∷ [];
  risk_level = RiskLevel.low;
  requires_approval = false;
  version = "1.0.0";
  enabled = true;
}

abbrev pub audit_logging_skill : Skill
audit_logging_skill = record {
  skill_id = "audit_logging_skill_v1";
  name = "Audit Logging Skill";
  type = "control";
  description = "Prepare structured append-only audit event data.";
  input_schema = ("event", "object") ∷ [];
  output_schema = ("event_id", "string") ∷ [];
  allowed_agents = "audit_agent_v1" ∷ "workflow_agent_v1" ∷ [];
  risk_level = RiskLevel.low;
  requires_approval = false;
  version = "1.0.0";
  enabled = true;
}

abbrev pub memory_write_skill : Skill
memory_write_skill = record {
  skill_id = "memory_write_skill_v1";
  name = "Memory Write Skill";
  type = "knowledge";
  description = "Convert scoped task outcomes into internal memory records.";
  input_schema = ("task_id", "string") ∷ ("content", "string") ∷ [];
  output_schema = ("record_id", "string") ∷ [];
  allowed_agents = "memory_agent_v1" ∷ [];
  risk_level = RiskLevel.low;
  requires_approval = false;
  version = "1.0.0";
  enabled = true;
}

abbrev pub knowledge_search_skill : Skill
knowledge_search_skill = record {
  skill_id = "knowledge_search_skill_v1";
  name = "Knowledge Search Skill";
  type = "knowledge";
  description = "Search registered internal knowledge records.";
  input_schema = ("query", "string") ∷ [];
  output_schema = ("documents", "array") ∷ [];
  allowed_agents =
      "memory_agent_v1" ∷ "legal_compliance_agent_v1" ∷ "capability_gap_detector_agent_v1" ∷ [];
  risk_level = RiskLevel.low;
  requires_approval = false;
  version = "1.0.0";
  enabled = true;
}

abbrev pub skill_search_skill : Skill
skill_search_skill = record {
  skill_id = "skill_search_skill_v1";
  name = "Skill Search Skill";
  type = "capability";
  description = "Search the Skill Registry before creating new capability.";
  input_schema = ("query", "string") ∷ [];
  output_schema = ("skills", "array") ∷ [];
  allowed_agents =
      "skill_manager_agent_v1" ∷ "skill_factory_agent_v1" ∷ "capability_gap_detector_agent_v1" ∷ [];
  risk_level = RiskLevel.low;
  requires_approval = false;
  version = "1.0.0";
  enabled = true;
}

abbrev pub skill_composition_skill : Skill
skill_composition_skill = record {
  skill_id = "skill_composition_skill_v1";
  name = "Skill Composition Skill";
  type = "capability";
  description = "Design a non-executing composition of existing registered Skills.";
  input_schema = ("skill_ids", "array") ∷ ("goal", "string") ∷ [];
  output_schema = ("composition", "object") ∷ [];
  allowed_agents = "skill_manager_agent_v1" ∷ "skill_factory_agent_v1" ∷ [];
  risk_level = RiskLevel.low;
  requires_approval = false;
  version = "1.0.0";
  enabled = true;
}

abbrev pub temporary_skill_creation_skill : Skill
temporary_skill_creation_skill = record {
  skill_id = "temporary_skill_creation_skill_v1";
  name = "Temporary Skill Creation Skill";
  type = "capability";
  description = "Prepare a disabled low-risk temporary Skill definition for sandbox review.";
  input_schema = ("capability", "string") ∷ ("constraints", "array") ∷ [];
  output_schema = ("skill_proposal", "object") ∷ [];
  allowed_agents = "skill_manager_agent_v1" ∷ "skill_factory_agent_v1" ∷ [];
  risk_level = RiskLevel.medium;
  requires_approval = true;
  version = "1.0.0";
  enabled = true;
}

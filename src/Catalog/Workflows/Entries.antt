-- ===== src/Catalog/Workflows/Entries.antt =====
-- backend/app/workflows/registry.py, `default_workflows`: the entries.
use bug_free_enigma.Base.{ℕ, String, true, Option, some, [], ◌∷◌}
use bug_free_enigma.Core.Enums.{PermissionLevel}
use bug_free_enigma.Core.Models.Catalog.{WorkflowStepDefinition, WorkflowDefinition}

abbrev step :
    ℕ → String → String → String → PermissionLevel → Option String → WorkflowStepDefinition
step sequence step_name actor_id action permission_level skill_id = record {
  sequence = sequence;
  step_name = step_name;
  actor_id = actor_id;
  action = action;
  permission_level = permission_level;
  skill_id = skill_id;
}

abbrev pub document_generation : WorkflowDefinition
document_generation = record {
  workflow_id = "document_generation_v1";
  name = "Document Generation";
  description = "Plan, draft, risk-check, quality-check, and retain an internal document.";
  entrypoint = "POST /workflows/run";
  steps =
      (step 1 "plan_task" "ceo_agent_v1" "plan_task" PermissionLevel.l1_draft
        (some "task_planning_skill_v1"))
      ∷ (step 2 "assign_document_agent" "project_manager_agent_v1" "assign_document_agent"
          PermissionLevel.l2_internal_write (some "task_planning_skill_v1"))
      ∷ (step 3 "write_document" "document_agent_v1" "create_internal_document"
          PermissionLevel.l2_internal_write (some "document_writer_skill_v1"))
      ∷ (step 4 "risk_check" "risk_agent_v1" "risk_check" PermissionLevel.l1_draft
          (some "risk_check_skill_v1"))
      ∷ (step 5 "quality_check" "quality_agent_v1" "quality_check" PermissionLevel.l1_draft
          (some "quality_check_skill_v1"))
      ∷ [];
  execution_mode = "native";
  version = "1.0.0";
  enabled = true;
}

abbrev pub task_planning : WorkflowDefinition
task_planning = record {
  workflow_id = "task_planning_v1";
  name = "Task Planning";
  description = "Turn a goal into a scoped, risk-reviewed execution plan.";
  entrypoint = "POST /workflows/run";
  steps =
      (step 1 "understand_goal" "ceo_agent_v1" "understand_goal" PermissionLevel.l1_draft
        (some "task_planning_skill_v1"))
      ∷ (step 2 "decompose_task" "project_manager_agent_v1" "decompose_task"
          PermissionLevel.l1_draft (some "task_planning_skill_v1"))
      ∷ (step 3 "validate_plan_risk" "risk_agent_v1" "risk_check" PermissionLevel.l1_draft
          (some "risk_check_skill_v1"))
      ∷ [];
  execution_mode = "native";
  version = "1.0.0";
  enabled = true;
}

abbrev pub agent_collaboration : WorkflowDefinition
agent_collaboration = record {
  workflow_id = "agent_collaboration_v1";
  name = "Agent Collaboration";
  description = "Coordinate planning, handoff, and auditable team communication.";
  entrypoint = "POST /workflows/run";
  steps =
      (step 1 "coordinate_work" "workflow_agent_v1" "coordinate_work" PermissionLevel.l1_draft
        (some "task_planning_skill_v1"))
      ∷ (step 2 "prepare_handoff" "project_manager_agent_v1" "prepare_handoff"
          PermissionLevel.l2_internal_write (some "task_planning_skill_v1"))
      ∷ (step 3 "audit_collaboration" "audit_agent_v1" "record_collaboration"
          PermissionLevel.l1_draft (some "audit_logging_skill_v1"))
      ∷ [];
  execution_mode = "native";
  version = "1.0.0";
  enabled = true;
}

abbrev pub skill_missing : WorkflowDefinition
skill_missing = record {
  workflow_id = "skill_missing_v1";
  name = "Skill Missing Handling";
  description = "Search, compose, sandbox, approve, and register missing capability safely.";
  entrypoint = "POST /workflows/run";
  steps =
      (step 1 "detect_skill_gap" "capability_gap_detector_agent_v1" "detect_skill_gap"
        PermissionLevel.l1_draft (some "skill_search_skill_v1"))
      ∷ (step 2 "search_or_compose" "skill_manager_agent_v1" "compose_skill"
          PermissionLevel.l2_internal_write (some "skill_composition_skill_v1"))
      ∷ (step 3 "prepare_skill_proposal" "skill_factory_agent_v1" "create_skill"
          PermissionLevel.l2_internal_write (some "temporary_skill_creation_skill_v1"))
      ∷ [];
  execution_mode = "native";
  version = "1.0.0";
  enabled = true;
}

abbrev pub agent_missing : WorkflowDefinition
agent_missing = record {
  workflow_id = "agent_missing_v1";
  name = "Agent Missing Handling";
  description =
      "Detect a repeated role gap and route a constrained Agent proposal through control gates.";
  entrypoint = "POST /workflows/run";
  steps =
      (step 1 "detect_role_gap" "capability_gap_detector_agent_v1" "detect_role_gap"
        PermissionLevel.l1_draft (some "knowledge_search_skill_v1"))
      ∷ (step 2 "prepare_agent_proposal" "agent_factory_agent_v1" "create_agent"
          PermissionLevel.l2_internal_write (some "task_planning_skill_v1"))
      ∷ (step 3 "review_agent_risk" "risk_agent_v1" "risk_check" PermissionLevel.l1_draft
          (some "risk_check_skill_v1"))
      ∷ [];
  execution_mode = "native";
  version = "1.0.0";
  enabled = true;
}

abbrev pub approval : WorkflowDefinition
approval = record {
  workflow_id = "approval_v1";
  name = "Approval";
  description = "Assess a controlled action and place Human Root at the decision boundary.";
  entrypoint = "POST /workflows/run";
  steps =
      (step 1 "prepare_request" "ceo_agent_v1" "request_approval" PermissionLevel.l1_draft
        (some "approval_request_skill_v1"))
      ∷ (step 2 "assess_request_risk" "risk_agent_v1" "risk_check" PermissionLevel.l1_draft
          (some "risk_check_skill_v1"))
      ∷ (step 3 "audit_decision" "audit_agent_v1" "record_approval" PermissionLevel.l1_draft
          (some "audit_logging_skill_v1"))
      ∷ [];
  execution_mode = "native";
  version = "1.0.0";
  enabled = true;
}

abbrev pub quality_check : WorkflowDefinition
quality_check = record {
  workflow_id = "quality_check_v1";
  name = "Quality Check";
  description = "Review output quality and safety before completion.";
  entrypoint = "POST /workflows/run";
  steps =
      (step 1 "check_quality" "quality_agent_v1" "quality_check" PermissionLevel.l1_draft
        (some "quality_check_skill_v1"))
      ∷ (step 2 "check_output_risk" "risk_agent_v1" "risk_check" PermissionLevel.l1_draft
          (some "risk_check_skill_v1"))
      ∷ (step 3 "audit_quality" "audit_agent_v1" "record_quality" PermissionLevel.l1_draft
          (some "audit_logging_skill_v1"))
      ∷ [];
  execution_mode = "native";
  version = "1.0.0";
  enabled = true;
}

abbrev pub retrospective : WorkflowDefinition
retrospective = record {
  workflow_id = "retrospective_v1";
  name = "Retrospective";
  description = "Capture quality outcomes, lessons, memory, and follow-up improvements.";
  entrypoint = "POST /workflows/run";
  steps =
      (step 1 "review_outcome" "quality_agent_v1" "quality_check" PermissionLevel.l1_draft
        (some "quality_check_skill_v1"))
      ∷ (step 2 "write_review_memory" "memory_agent_v1" "write_memory"
          PermissionLevel.l2_internal_write (some "memory_write_skill_v1"))
      ∷ (step 3 "audit_retrospective" "audit_agent_v1" "record_review" PermissionLevel.l1_draft
          (some "audit_logging_skill_v1"))
      ∷ [];
  execution_mode = "native";
  version = "1.0.0";
  enabled = true;
}

abbrev pub github_project_analysis : WorkflowDefinition
github_project_analysis = record {
  workflow_id = "github_project_analysis_v1";
  name = "GitHub Project Analysis";
  description =
      "Treat repository material as untrusted, assess it, and register knowledge only after approval.";
  entrypoint = "POST /workflows/run";
  steps =
      (step 1 "analyze_repository" "tech_agent_v1" "analyze_github_repository"
        PermissionLevel.l1_draft (some "github_project_analysis_skill_v1"))
      ∷ (step 2 "review_repository_risk" "risk_agent_v1" "risk_check" PermissionLevel.l1_draft
          (some "risk_check_skill_v1"))
      ∷ (step 3 "curate_capability" "skill_manager_agent_v1" "review_github_capability"
          PermissionLevel.l1_draft (some "github_project_analysis_skill_v1"))
      ∷ [];
  execution_mode = "native";
  version = "1.0.0";
  enabled = true;
}

abbrev pub tool_call : WorkflowDefinition
tool_call = record {
  workflow_id = "tool_call_v1";
  name = "Tool Call";
  description =
      "Validate Tool registration, Agent permission, risk, approval, execution, and audit.";
  entrypoint = "POST /workflows/run";
  steps =
      (step 1 "prepare_tool_call" "workflow_agent_v1" "prepare_tool_call" PermissionLevel.l1_draft
        (some "approval_request_skill_v1"))
      ∷ (step 2 "review_tool_risk" "risk_agent_v1" "risk_check" PermissionLevel.l1_draft
          (some "risk_check_skill_v1"))
      ∷ (step 3 "audit_tool_call" "audit_agent_v1" "record_tool_call" PermissionLevel.l1_draft
          (some "audit_logging_skill_v1"))
      ∷ [];
  execution_mode = "native";
  version = "1.0.0";
  enabled = true;
}

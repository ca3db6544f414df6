-- ===== src/Catalog/Tools/Entries.antt =====
-- backend/app/tools/registry.py, `default_tools`: the entries. What the environment says of
-- computer control is an argument.
use bug_free_enigma.Base.{Bool, true, false, [], ◌∷◌}
use bug_free_enigma.Core.Enums.{PermissionLevel, RiskLevel}
use bug_free_enigma.Core.Models.Catalog.{Tool}

abbrev pub task_manager_tool : Tool
task_manager_tool = record {
  tool_id = "task_manager_tool";
  name = "Task Manager Tool";
  type = "internal";
  description = "Create, update, and inspect internal task state.";
  action = "manage_task";
  permission_level = PermissionLevel.l2_internal_write;
  risk_level = RiskLevel.low;
  requires_approval = false;
  input_schema = ("operation", "string") ∷ ("task_id", "string") ∷ [];
  output_schema = ("result", "string") ∷ [];
  version = "1.0.0";
  enabled = true;
}

abbrev pub knowledge_base_tool : Tool
knowledge_base_tool = record {
  tool_id = "knowledge_base_tool";
  name = "Knowledge Base Tool";
  type = "internal";
  description = "Read and write internal knowledge base records.";
  action = "write_knowledge";
  permission_level = PermissionLevel.l2_internal_write;
  risk_level = RiskLevel.low;
  requires_approval = false;
  input_schema = ("title", "string") ∷ ("content", "string") ∷ [];
  output_schema = ("doc_id", "string") ∷ [];
  version = "1.0.0";
  enabled = true;
}

abbrev pub audit_read_tool : Tool
audit_read_tool = record {
  tool_id = "audit_read_tool";
  name = "Audit Read Tool";
  type = "internal";
  description = "Read append-only audit log entries for review and quality checks.";
  action = "read_audit_log";
  permission_level = PermissionLevel.l0_read;
  risk_level = RiskLevel.low;
  requires_approval = false;
  input_schema = ("limit", "integer") ∷ [];
  output_schema = ("events", "array") ∷ [];
  version = "1.0.0";
  enabled = true;
}

abbrev pub database_read_tool : Tool
database_read_tool = record {
  tool_id = "database_read_tool";
  name = "Database Read Tool";
  type = "internal";
  description = "Read safe aggregate database state without raw SQL access.";
  action = "read_database_state";
  permission_level = PermissionLevel.l0_read;
  risk_level = RiskLevel.low;
  requires_approval = false;
  input_schema = ("operation", "string") ∷ [];
  output_schema = ("tables", "object") ∷ [];
  version = "1.0.0";
  enabled = true;
}

abbrev pub filesystem_read_tool : Tool
filesystem_read_tool = record {
  tool_id = "filesystem_read_tool";
  name = "Filesystem Read Tool";
  type = "internal";
  description = "Read or list small text files inside the workspace with path safety checks.";
  action = "read_filesystem";
  permission_level = PermissionLevel.l0_read;
  risk_level = RiskLevel.low;
  requires_approval = false;
  input_schema = ("operation", "string") ∷ ("path", "string") ∷ ("query", "string") ∷ [];
  output_schema = ("result", "object") ∷ [];
  version = "1.0.0";
  enabled = true;
}

abbrev pub workspace_patch_tool : Tool
workspace_patch_tool = record {
  tool_id = "workspace_patch_tool";
  name = "Workspace Patch Tool";
  type = "workspace";
  description = "Apply one exact, concurrency-checked text replacement inside the workspace.";
  action = "modify_workspace";
  permission_level = PermissionLevel.l2_internal_write;
  risk_level = RiskLevel.medium;
  requires_approval = true;
  input_schema =
      ("path", "string")
      ∷ ("old_text", "string")
      ∷ ("new_text", "string")
      ∷ ("expected_sha256", "string")
      ∷ [];
  output_schema = ("path", "string") ∷ ("diff", "string") ∷ ("after_sha256", "string") ∷ [];
  version = "1.0.0";
  enabled = true;
}

abbrev pub workspace_command_tool : Tool
workspace_command_tool = record {
  tool_id = "workspace_command_tool";
  name = "Workspace Command Tool";
  type = "sandbox";
  description = "Run an allowlisted process in a workspace directory after explicit approval.";
  action = "execute_code";
  permission_level = PermissionLevel.l4_high_risk;
  risk_level = RiskLevel.high;
  requires_approval = true;
  input_schema = ("argv", "array") ∷ ("cwd", "string") ∷ ("timeout_seconds", "integer") ∷ [];
  output_schema = ("exit_code", "integer") ∷ ("stdout", "string") ∷ ("stderr", "string") ∷ [];
  version = "1.0.0";
  enabled = true;
}

abbrev pub git_read_tool : Tool
git_read_tool = record {
  tool_id = "git_read_tool";
  name = "Git Read Tool";
  type = "workspace";
  description =
      "Inspect workspace Git status, diff, or recent history without changing repository state.";
  action = "read_git_state";
  permission_level = PermissionLevel.l0_read;
  risk_level = RiskLevel.low;
  requires_approval = false;
  input_schema = ("operation", "string") ∷ ("path", "string") ∷ ("limit", "integer") ∷ [];
  output_schema = ("output", "string") ∷ [];
  version = "1.0.0";
  enabled = true;
}

abbrev pub computer_control_tool : Bool → Tool
computer_control_tool computer_control = record {
  tool_id = "computer_control_tool";
  name = "Computer Control Tool";
  type = "desktop";
  description = "Control the local desktop through a small, approval-gated action set.";
  action = "control_local_computer";
  permission_level = PermissionLevel.l4_high_risk;
  risk_level = RiskLevel.high;
  requires_approval = true;
  input_schema =
      ("operation", "string")
      ∷ ("url", "string")
      ∷ ("app", "string")
      ∷ ("keys", "string")
      ∷ ("text", "string")
      ∷ [];
  output_schema =
      ("operation", "string")
      ∷ ("exit_code", "integer")
      ∷ ("stdout", "string")
      ∷ ("stderr", "string")
      ∷ [];
  version = "1.0.0";
  enabled = computer_control;
}

abbrev pub external_api_tool : Tool
external_api_tool = record {
  tool_id = "external_api_tool";
  name = "External API Tool";
  type = "external";
  description = "Prepare an outbound API call for Human Root review.";
  action = "call_external_api";
  permission_level = PermissionLevel.l3_external_prepare;
  risk_level = RiskLevel.medium;
  requires_approval = true;
  input_schema = ("url", "string") ∷ ("method", "string") ∷ [];
  output_schema = ("approval_id", "string") ∷ [];
  version = "1.0.0";
  enabled = false;
}

abbrev pub code_execution_tool : Tool
code_execution_tool = record {
  tool_id = "code_execution_tool";
  name = "Code Execution Tool";
  type = "sandbox";
  description = "Run code in a controlled sandbox after explicit approval.";
  action = "execute_code";
  permission_level = PermissionLevel.l4_high_risk;
  risk_level = RiskLevel.high;
  requires_approval = true;
  input_schema = ("language", "string") ∷ ("source", "string") ∷ [];
  output_schema = ("stdout", "string") ∷ ("stderr", "string") ∷ [];
  version = "1.0.0";
  enabled = false;
}

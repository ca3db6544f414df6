-- ===== src/Catalog/Tools.antt =====
-- backend/app/tools/registry.py: `ToolRegistry` and `default_tools`. What the environment variable
-- AI_COMPANY_OS_ENABLE_COMPUTER_CONTROL says is an argument.
mod Entries
pub mod Laws
use bug_free_enigma.Base.{
  Bool, true, false, not, ◌&&◌, List, [], ◌∷◌, Outcome, ok, value_error, ◌>>=◌, ◌>>◌, raise_if,
}
use bug_free_enigma.Base.Dict.{Dict, has_key, put}
use bug_free_enigma.Core.Enums.{RiskLevel}
use bug_free_enigma.Core.Models.Catalog.{Tool}
use bug_free_enigma.Catalog.Skills.{is_high}
use Entries.{
  task_manager_tool, knowledge_base_tool, audit_read_tool, database_read_tool, filesystem_read_tool,
  workspace_patch_tool, workspace_command_tool, git_read_tool, computer_control_tool,
  external_api_tool, code_execution_tool,
}

abbrev pub ToolRegistry : Type 0
ToolRegistry = Dict Tool

abbrev pub is_forbidden : RiskLevel → Bool
is_forbidden RiskLevel.forbidden = true
is_forbidden _ = false

unfoldable pub register : Tool → ToolRegistry → Outcome ToolRegistry
register tool tools = do
  raise_if (has_key tool.tool_id tools) (value_error "tool already registered" (tool.tool_id ∷ []))
  raise_if (is_high tool.risk_level && not tool.requires_approval)
      (value_error "high or forbidden risk tools must require approval" [])
  raise_if (is_forbidden tool.risk_level && tool.enabled)
      (value_error "forbidden risk tools cannot be enabled" [])
  ok (put tool.tool_id tool tools)

abbrev pub default_tools : Bool → List Tool
default_tools computer_control =
    task_manager_tool
    ∷ knowledge_base_tool
    ∷ audit_read_tool
    ∷ database_read_tool
    ∷ filesystem_read_tool
    ∷ workspace_patch_tool
    ∷ workspace_command_tool
    ∷ git_read_tool
    ∷ computer_control_tool computer_control
    ∷ external_api_tool
    ∷ code_execution_tool
    ∷ []

-- ===== src/Core/Models/Catalog.antt =====
-- backend/app/core/models.py: the entries of the Agent, Skill, Tool and Workflow catalogs.
use bug_free_enigma.Base.{ℕ, String, Bool, Option, List}
use bug_free_enigma.Base.Dict.{Dict}
use bug_free_enigma.Core.Enums.{PermissionLevel, RiskLevel}

pub record Agent : Type 0 where
  pub agent_id : String
  pub name : String
  pub department : String
  pub role : String
  pub permissions : List PermissionLevel
  pub forbidden : List String
  pub allowed_skills : List String
  pub allowed_tools : List String
  pub reports_to : String
  pub risk_level : RiskLevel
  pub version : String
  pub enabled : Bool

pub record Skill : Type 0 where
  pub skill_id : String
  pub name : String
  pub type : String
  pub description : String
  pub input_schema : Dict String
  pub output_schema : Dict String
  pub allowed_agents : List String
  pub risk_level : RiskLevel
  pub requires_approval : Bool
  pub version : String
  pub enabled : Bool

pub record Tool : Type 0 where
  pub tool_id : String
  pub name : String
  pub type : String
  pub description : String
  pub action : String
  pub permission_level : PermissionLevel
  pub risk_level : RiskLevel
  pub requires_approval : Bool
  pub input_schema : Dict String
  pub output_schema : Dict String
  pub version : String
  pub enabled : Bool

pub record WorkflowStepDefinition : Type 0 where
  pub sequence : ℕ
  pub step_name : String
  pub actor_id : String
  pub action : String
  pub permission_level : PermissionLevel
  pub skill_id : Option String

pub record WorkflowDefinition : Type 0 where
  pub workflow_id : String
  pub name : String
  pub description : String
  pub entrypoint : String
  pub steps : List WorkflowStepDefinition
  pub execution_mode : String
  pub version : String
  pub enabled : Bool

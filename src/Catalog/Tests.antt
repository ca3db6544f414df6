-- ===== src/Catalog/Tests.antt =====
-- The registries (backend/app/agents, skills, tools and workflows) with one entry each.
use bug_free_enigma.Base.{true, false, none, some, [], ◌∷◌, ◌≡◌, refl, ok, All, contains, for_each}
use bug_free_enigma.Base.Dict.{lookup, put, values}
use bug_free_enigma.Base.Text.{is_blank}
use bug_free_enigma.Core.Enums.{PermissionLevel, RiskLevel, ActionDecision}
use bug_free_enigma.Core.Json.{end}
use bug_free_enigma.Core.Models.Catalog.{Agent, Skill, Tool, WorkflowDefinition}
use bug_free_enigma.Core.Models.Control.{ActionRequest}
use bug_free_enigma.Safety.Permissions.{PermissionResult, block, evaluate, max_order}
use bug_free_enigma.Catalog.Agents
use bug_free_enigma.Catalog.Agents.Laws as AgentLaws
use bug_free_enigma.Catalog.Agents.{AgentRegistry}
use bug_free_enigma.Catalog.Skills
use bug_free_enigma.Catalog.Skills.Laws as SkillLaws
use bug_free_enigma.Catalog.Skills.{SkillRegistry}
use bug_free_enigma.Catalog.Tools
use bug_free_enigma.Catalog.Tools.Laws as ToolLaws
use bug_free_enigma.Catalog.Tools.{ToolRegistry}
use bug_free_enigma.Catalog.Workflows
use bug_free_enigma.Catalog.Workflows.Laws as WorkflowLaws
use bug_free_enigma.Catalog.Workflows.{validate, validate_step, validate_skill}

abbrev clerk : Agent
clerk = record {
  agent_id = "clerk";
  name = "Clerk";
  department = "Operations";
  role = "Keeps files";
  permissions = PermissionLevel.l1_draft ∷ [];
  forbidden = [];
  allowed_skills = "filing_skill" ∷ [];
  allowed_tools = [];
  reports_to = "human_root";
  risk_level = RiskLevel.low;
  version = "1.0.0";
  enabled = true;
}

abbrev filing_skill : Skill
filing_skill = record {
  skill_id = "filing_skill";
  name = "Filing";
  type = "work";
  description = "Files a note.";
  input_schema = [];
  output_schema = [];
  allowed_agents = "clerk" ∷ [];
  risk_level = RiskLevel.high;
  requires_approval = true;
  version = "1.0.0";
  enabled = true;
}

abbrev shredder_tool : Tool
shredder_tool = record {
  tool_id = "shredder_tool";
  name = "Shredder";
  type = "internal";
  description = "Destroys a file.";
  action = "shred_file";
  permission_level = PermissionLevel.l4_high_risk;
  risk_level = RiskLevel.forbidden;
  requires_approval = true;
  input_schema = [];
  output_schema = [];
  version = "1.0.0";
  enabled = false;
}

abbrev filing : WorkflowDefinition
filing = record {
  workflow_id = "filing";
  name = "Filing";
  description = "Files a note.";
  entrypoint = "run";
  steps =
      (record {
        sequence = 1;
        step_name = "file";
        actor_id = "clerk";
        action = "file_note";
        permission_level = PermissionLevel.l1_draft;
        skill_id = some "filing_skill";
      })
      ∷ [];
  execution_mode = "executable";
  version = "1.0.0";
  enabled = true;
}

abbrev agents : AgentRegistry
agents = ("clerk", clerk) ∷ []

abbrev skills : SkillRegistry
skills = ("filing_skill", filing_skill) ∷ []

abbrev root_request : ActionRequest
root_request = record {
  action = "file_note";
  actor_id = "clerk";
  task_id = none;
  permission_level = PermissionLevel.l5_root;
  reason = "a note";
  target = none;
  reversible = true;
  metadata = end;
}

abbrev past_boundary : PermissionResult
past_boundary = block "permission level exceeds agent boundary"

is_past : evaluate clerk root_request ≡ ok past_boundary
unfolding evaluate max_order contains
is_past = refl

clerk_registers : Agents.register clerk [] ≡ ok agents
unfolding Agents.register put lookup
clerk_registers = refl

filing_registers : Skills.register filing_skill [] ≡ ok skills
unfolding Skills.register put lookup
filing_registers = refl

shredder_registers : Tools.register shredder_tool [] ≡ ok (("shredder_tool", shredder_tool) ∷ [])
unfolding Tools.register put lookup
shredder_registers = refl

workflow_registers : Workflows.register agents skills filing [] ≡ ok (("filing", filing) ∷ [])
unfolding Workflows.register validate validate_step validate_skill put lookup contains is_blank
    for_each
workflow_registers = refl

clerk_is_there : lookup "clerk" agents ≡ some clerk
unfolding lookup
clerk_is_there = refl

filing_is_there : lookup "filing_skill" skills ≡ some filing_skill
unfolding lookup
filing_is_there = refl

evaluate-registered_root_example : past_boundary.decision ≡ ActionDecision.block
evaluate-registered_root_example =
    AgentLaws.evaluate-registered_root "clerk" root_request
      (AgentLaws.Reach.next AgentLaws.Reach.here (AgentLaws.Step.registered clerk clerk_registers))
      clerk_is_there refl is_past

lookup-IsGuarded_example : filing_skill.requires_approval ≡ true
lookup-IsGuarded_example =
    SkillLaws.lookup-IsGuarded "filing_skill"
      (SkillLaws.Reach.next SkillLaws.Reach.here
        (SkillLaws.Step.registered filing_skill filing_registers))
      filing_is_there refl

register-IsGuarded_example : All ToolLaws.IsGuarded (values (("shredder_tool", shredder_tool) ∷ []))
register-IsGuarded_example = ToolLaws.register-IsGuarded shredder_tool [] shredder_registers tt

register-IsRunnable_example :
    (lookup {V = WorkflowDefinition} "filing" [] ≡ none)
    × ((("filing", filing) ∷ []) ≡ put "filing" filing [])
    × WorkflowLaws.IsRunnable agents skills filing
register-IsRunnable_example =
    WorkflowLaws.register-IsRunnable agents skills filing [] workflow_registers

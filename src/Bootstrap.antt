-- ===== src/Bootstrap.antt =====
-- backend/app/bootstrap.py: the catalogs of `build_company_os`, and the check of their references.
pub mod Links
pub mod Registries
pub mod Loading
mod Tests
use bug_free_enigma.Base.{
  String, Bool, true, false, not, ◌&&◌, List, [], ◌∷◌, map, Check, Outcome, ok, err, value_error,
  ◌>>=◌, ◌>>◌, raise_if, for_each, contains, difference, ◌==◌, if◌then◌else◌,
}
use bug_free_enigma.Base.Dict.{get, values}
use bug_free_enigma.Core.Models.Catalog.{Agent, Skill, Tool, WorkflowDefinition}
use bug_free_enigma.Catalog.Agents
use bug_free_enigma.Catalog.Agents.{AgentRegistry, default_agents}
use bug_free_enigma.Catalog.Skills
use bug_free_enigma.Catalog.Skills.{SkillRegistry, default_skills}
use bug_free_enigma.Catalog.Tools
use bug_free_enigma.Catalog.Tools.{ToolRegistry, default_tools}
use bug_free_enigma.Catalog.Workflows
use bug_free_enigma.Catalog.Workflows.{Workflows, default_workflows}

pub record Catalog : Type 0 where
  pub agents : AgentRegistry
  pub skills : SkillRegistry
  pub tools : ToolRegistry
  pub workflows : Workflows

-- `if items:`
abbrev pub is_nonempty : List String → Bool
is_nonempty [] = false
is_nonempty _ = true

module _ (agents : AgentRegistry) (skills : SkillRegistry) (tools : ToolRegistry) where
  abbrev pub agent_ids : List String
  agent_ids = map (λ (a : Agent). a.agent_id) (values agents)

  abbrev pub skill_ids : List String
  skill_ids = map (λ (s : Skill). s.skill_id) (values skills)

  abbrev pub tool_ids : List String
  tool_ids = map (λ (t : Tool). t.tool_id) (values tools)

  -- the body of the loop over the Skills of an Agent
  unfoldable pub check_agent_link : Agent → String → Check
  check_agent_link agent skill_id = do
    skill ← get skill_id skills
    raise_if (not (contains agent.agent_id skill.allowed_agents)) (
        value_error "agent and skill have asymmetric authorization"
          (agent.agent_id ∷ skill_id ∷ []))

  -- the body of the loop over the Agents
  unfoldable pub check_agent : Agent → Check
  check_agent agent = do
    let unknown_skills = difference agent.allowed_skills skill_ids
    let unknown_tools = difference agent.allowed_tools tool_ids
    raise_if (is_nonempty unknown_skills)
        (value_error "agent references unknown skills" (agent.agent_id ∷ unknown_skills))
    raise_if (is_nonempty unknown_tools)
        (value_error "agent references unknown tools" (agent.agent_id ∷ unknown_tools))
    raise_if (not (agent.reports_to == "human_root") && not (contains agent.reports_to agent_ids))
        (value_error "agent reports to unknown agent" (agent.agent_id ∷ agent.reports_to ∷ []))
    for_each (check_agent_link agent) agent.allowed_skills

  -- the body of the loop over the Agents of a Skill
  unfoldable pub check_skill_link : Skill → String → Check
  check_skill_link skill agent_id = do
    agent ← get agent_id agents
    raise_if (not (contains skill.skill_id agent.allowed_skills)) (
        value_error "skill and agent have asymmetric authorization"
          (skill.skill_id ∷ agent_id ∷ []))

  -- the body of the loop over the Skills
  unfoldable pub check_skill : Skill → Check
  check_skill skill = do
    let unknown_agents = difference skill.allowed_agents agent_ids
    raise_if (is_nonempty unknown_agents)
        (value_error "skill references unknown agents" (skill.skill_id ∷ unknown_agents))
    for_each (check_skill_link skill) skill.allowed_agents

  -- `_validate_catalog_references`
  unfoldable pub validate_catalog_references : Check
  validate_catalog_references = do
    for_each check_agent (values agents)
    for_each check_skill (values skills)

-- `for x in xs: registry.step(x)`
unfoldable pub load : {A R : Type 0} → (A → R → Outcome R) → List A → R → Outcome R
load step [] r = ok r
load step (x ∷ xs) r = do r' ← step x r; load step xs r'

-- A stored Tool is registered if no default has its identifier.
unfoldable pub register_if_absent : Tool → ToolRegistry → Outcome ToolRegistry
register_if_absent tool tools =
    if contains tool.tool_id (map (λ (t : Tool). t.tool_id) (values tools))
    then ok tools
    else Tools.register tool tools

unfoldable pub load_agents : List Agent → Outcome AgentRegistry
load_agents registered = do
  defaults ← load Agents.register default_agents []
  load Agents.restore registered defaults

unfoldable pub load_skills : List Skill → Outcome SkillRegistry
load_skills registered = do
  defaults ← load Skills.register default_skills []
  load Skills.restore registered defaults

unfoldable pub load_tools : Bool → List Tool → Outcome ToolRegistry
unfolding register_if_absent
load_tools computer_control stored = do
  defaults ← load Tools.register (default_tools computer_control) []
  load register_if_absent stored defaults

unfoldable pub load_workflows : AgentRegistry → SkillRegistry → Outcome Workflows
load_workflows agents skills = load (Workflows.register agents skills) default_workflows []

-- the catalogs of `build_company_os`
unfoldable pub build_catalog : Bool → List Agent → List Skill → List Tool → Outcome Catalog
build_catalog computer_control registered_agents registered_skills stored_tools = do
  agents ← load_agents registered_agents
  skills ← load_skills registered_skills
  tools ← load_tools computer_control stored_tools
  validate_catalog_references agents skills tools
  workflows ← load_workflows agents skills
  ok (record { agents = agents; skills = skills; tools = tools; workflows = workflows })

-- ===== src/Catalog/Workflows.antt =====
-- backend/app/workflows/registry.py: `WorkflowRegistry` and `default_workflows`.
mod Entries
pub mod Laws
use bug_free_enigma.Base.{
  ℕ, ◌+◌, String, Bool, true, false, not, ◌||◌, ◌&&◌, Option, none, some, List, [], ◌∷◌, map, Check,
  Outcome, ok, err, value_error, ◌>>=◌, ◌>>◌, raise_if, for_each, contains, ◌=ℕ◌,
}
use bug_free_enigma.Base.Dict.{Dict, get, has_key, put}
use bug_free_enigma.Base.Text.{is_blank}
use bug_free_enigma.Core.Enums.{PermissionLevel}
use bug_free_enigma.Core.Models.Catalog.{Agent, Skill, WorkflowStepDefinition, WorkflowDefinition}
use bug_free_enigma.Safety.Policy.{permission_order}
use bug_free_enigma.Catalog.Agents.{AgentRegistry}
use bug_free_enigma.Catalog.Skills.{SkillRegistry}
use Entries.{
  document_generation, task_planning, agent_collaboration, skill_missing, agent_missing, approval,
  quality_check, retrospective, github_project_analysis, tool_call,
}

abbrev pub Workflows : Type 0
Workflows = Dict WorkflowDefinition

-- `level in levels`: the order tells the levels apart
abbrev pub grants : PermissionLevel → List PermissionLevel → Bool
grants level [] = false
grants level (l ∷ ls) = permission_order l =ℕ permission_order level || grants level ls

-- `sequences == list(range(n, ...))`
abbrev pub counts_from : ℕ → List WorkflowStepDefinition → Bool
counts_from n [] = true
counts_from n (s ∷ steps) = s.sequence =ℕ n && counts_from (n + 1) steps

-- `skill_id in agent.allowed_skills and agent.agent_id in skill.allowed_agents`
abbrev pub are_linked : Agent → String → Skill → Bool
are_linked agent skill_id skill =
    contains skill_id agent.allowed_skills && contains agent.agent_id skill.allowed_agents

abbrev is_empty : List WorkflowStepDefinition → Bool
is_empty [] = true
is_empty _ = false

module _ (agents : AgentRegistry) (skills : SkillRegistry) where
  unfoldable pub validate_skill :
      WorkflowDefinition → WorkflowStepDefinition → Agent → Option String → Check
  validate_skill workflow step agent none = ok tt
  validate_skill workflow step agent (some skill_id) = do
    skill ← get skill_id skills
    raise_if (not (are_linked agent skill_id skill)) (
        value_error "workflow step has unauthorized Skill assignment"
          (workflow.workflow_id ∷ step.step_name ∷ []))

  -- the body of the loop over the steps
  unfoldable pub validate_step : WorkflowDefinition → WorkflowStepDefinition → Check
  unfolding validate_skill
  validate_step workflow step = do
    raise_if (is_blank step.step_name || is_blank step.action)
        (value_error "workflow step name and action are required" [])
    agent ← get step.actor_id agents
    raise_if (not (grants step.permission_level agent.permissions)) (
        value_error "workflow step exceeds exact Agent permission"
          (workflow.workflow_id ∷ step.step_name ∷ []))
    validate_skill workflow step agent step.skill_id

  -- `_validate`
  unfoldable pub validate : WorkflowDefinition → Check
  validate workflow = do
    raise_if (is_blank workflow.workflow_id || is_blank workflow.name)
        (value_error "workflow_id and name are required" [])
    raise_if (is_blank workflow.entrypoint) (value_error "workflow entrypoint is required" [])
    raise_if (is_empty workflow.steps) (value_error "workflow must define at least one step" [])
    raise_if (not (counts_from 1 workflow.steps))
        (value_error "workflow step sequences must be unique and contiguous from 1" [])
    for_each (validate_step workflow) workflow.steps

  unfoldable pub register : WorkflowDefinition → Workflows → Outcome Workflows
  register workflow workflows = do
    raise_if (has_key workflow.workflow_id workflows)
        (value_error "workflow already registered" (workflow.workflow_id ∷ []))
    validate workflow
    ok (put workflow.workflow_id workflow workflows)

abbrev pub default_workflows : List WorkflowDefinition
default_workflows =
    document_generation ∷ task_planning ∷ agent_collaboration ∷ skill_missing ∷ agent_missing
    ∷ approval ∷ quality_check ∷ retrospective ∷ github_project_analysis ∷ tool_call ∷ []

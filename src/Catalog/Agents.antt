-- ===== src/Catalog/Agents.antt =====
-- backend/app/agents/registry.py: `AgentRegistry` and `default_agents`.
mod Shared
mod Operating
mod Control
pub mod Laws
use bug_free_enigma.Base.{
  String, Bool, true, false, ◌||◌, List, [], ◌∷◌, Check, Outcome, ok, value_error, ◌>>=◌, ◌>>◌,
  raise_if, with_item,
}
use bug_free_enigma.Base.Dict.{Dict, get, has_key, put}
use bug_free_enigma.Core.Enums.{PermissionLevel}
use bug_free_enigma.Core.Models.Catalog.{Agent}
use Operating.{
  ceo_agent, project_manager_agent, document_agent, risk_agent, quality_agent, product_agent,
  tech_agent, data_agent, legal_compliance_agent,
}
use Control.{
  finance_assistant_agent, memory_agent, skill_manager_agent, workflow_agent, audit_agent,
  capability_gap_detector_agent, agent_factory_agent, skill_factory_agent, workspace_agent,
}

abbrev pub AgentRegistry : Type 0
AgentRegistry = Dict Agent

abbrev is_root : PermissionLevel → Bool
is_root PermissionLevel.l5_root = true
is_root _ = false

-- `PermissionLevel.L5_ROOT in permissions`
abbrev pub has_root : List PermissionLevel → Bool
has_root [] = false
has_root (level ∷ levels) = is_root level || has_root levels

abbrev root_refused : Agent → Check
root_refused agent =
    raise_if (has_root agent.permissions)
      (value_error "Agents cannot receive L5_ROOT permission" [])

unfoldable pub register : Agent → AgentRegistry → Outcome AgentRegistry
register agent agents = do
  raise_if (has_key agent.agent_id agents)
      (value_error "agent already registered" (agent.agent_id ∷ []))
  root_refused agent
  ok (put agent.agent_id agent agents)

unfoldable pub restore : Agent → AgentRegistry → Outcome AgentRegistry
restore agent agents = do root_refused agent; ok (put agent.agent_id agent agents)

unfoldable pub grant_skill : String → String → AgentRegistry → Outcome AgentRegistry
grant_skill agent_id skill_id agents = do
  agent ← get agent_id agents
  ok (
      put agent_id (record agent { allowed_skills = with_item skill_id agent.allowed_skills })
        agents)

abbrev pub default_agents : List Agent
default_agents =
    ceo_agent ∷ project_manager_agent ∷ document_agent ∷ risk_agent ∷ quality_agent ∷ product_agent
    ∷ tech_agent ∷ data_agent ∷ legal_compliance_agent ∷ finance_assistant_agent ∷ memory_agent
    ∷ skill_manager_agent ∷ workflow_agent ∷ audit_agent ∷ capability_gap_detector_agent
    ∷ agent_factory_agent ∷ skill_factory_agent ∷ workspace_agent ∷ []

-- ===== src/Service/Registration.antt =====
-- backend/app/services/company.py: `register_agent`, `register_skill` and `register_tool`. Their
-- arguments are the fields of the entry that they make, so a method takes the entry. The lists in it
-- that stand for Python sets have no repetitions.
pub mod Validation
pub mod Adding
pub mod Links
pub mod Loops
pub mod Ends
pub mod Reachable
mod Tests
use bug_free_enigma.Base.{
  String, not, ◌&&◌, none, List, [], ◌∷◌, ◌==◌, contains, difference, sorted, Check, ok,
  value_error, raise_if,
}
use bug_free_enigma.Core.Enums.{ApprovalStatus, RiskLevel}
use bug_free_enigma.Core.Models.Catalog.{Agent, Skill, Tool}
use bug_free_enigma.Catalog.Agents
use bug_free_enigma.Catalog.Agents.{grant_skill}
use bug_free_enigma.Catalog.Skills
use bug_free_enigma.Catalog.Skills.{allow_agent}
use bug_free_enigma.Catalog.Tools
use bug_free_enigma.Service.State.{Env, Company}
use bug_free_enigma.Service.Registration.Validation.{
  validate_agent_catalog_entry, validate_skill_catalog_entry,
}
use bug_free_enigma.Service.Actions.{Action, pure, asks, modify, ◌>>=◌, ◌>>◌}
use bug_free_enigma.Service.Records.{log_event}

-- the loop over the Skills of a new Agent; the order of a Python set is not fixed
unfoldable pub allow_each : String → List String → Action Unit
allow_each agent_id [] = pure tt
allow_each agent_id (skill_id ∷ skill_ids) = do
  skills ← asks (λ c. allow_agent skill_id agent_id c.skills)
  modify (λ c. record c { skills = skills })
  allow_each agent_id skill_ids

-- the loop over the Agents that a new Skill admits
unfoldable pub grant_each : String → List String → Action Unit
grant_each skill_id [] = pure tt
grant_each skill_id (agent_id ∷ agent_ids) = do
  agents ← asks (λ c. grant_skill agent_id skill_id c.agents)
  modify (λ c. record c { agents = agents })
  grant_each skill_id agent_ids

module _ (env : Env) where
  -- the audit event of a registration
  abbrev log_registration : String → String → RiskLevel → String → Action Unit
  log_registration event_type action risk_level result =
      log_event env event_type "human_root" action none risk_level ApprovalStatus.not_required
        result none none none

  unfoldable pub register_agent : Agent → Action Agent
  register_agent agent = do
    asks (validate_agent_catalog_entry agent)
    agents ← asks (λ c. Agents.register agent c.agents)
    modify (λ c. record c { agents = agents })
    allow_each agent.agent_id agent.allowed_skills
    log_registration "agent_registered" "register_agent" agent.risk_level agent.agent_id
    pure agent

  unfoldable pub register_skill : Skill → Action Skill
  register_skill skill = do
    asks (validate_skill_catalog_entry skill)
    skills ← asks (λ c. Skills.register skill c.skills)
    modify (λ c. record c { skills = skills })
    grant_each skill.skill_id skill.allowed_agents
    log_registration "skill_registered" "register_skill" skill.risk_level skill.skill_id
    pure skill

-- A Tool is registered without an audit event.
unfoldable pub register_tool : Tool → Action Tool
register_tool tool = do
  tools ← asks (λ c. Tools.register tool c.tools)
  modify (λ c. record c { tools = tools })
  pure tool

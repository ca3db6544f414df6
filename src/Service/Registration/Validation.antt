-- ===== src/Service/Registration/Validation.antt =====
-- What `register_agent` and `register_skill` of backend/app/services/company.py check first.
use bug_free_enigma.Base.{
  not, ◌&&◌, String, List, [], ◌∷◌, ◌==◌, contains, difference, sorted, Check, value_error,
  raise_if, ◌>>◌,
}
use bug_free_enigma.Base.Text.{is_blank}
use bug_free_enigma.Core.Models.Catalog.{Agent, Skill}
use bug_free_enigma.Bootstrap.{is_nonempty, agent_ids, skill_ids, tool_ids}
use bug_free_enigma.Service.State.{Company}

-- what an entry names that is not in the catalogs
abbrev pub unknown_skills : Agent → Company → List String
unknown_skills agent c = difference agent.allowed_skills (skill_ids c.agents c.skills c.tools)

abbrev pub unknown_tools : Agent → Company → List String
unknown_tools agent c = difference agent.allowed_tools (tool_ids c.agents c.skills c.tools)

abbrev pub unknown_agents : Skill → Company → List String
unknown_agents skill c = difference skill.allowed_agents (agent_ids c.agents c.skills c.tools)

-- `_validate_agent_catalog_entry`
unfoldable pub validate_agent_catalog_entry : Agent → Company → Check
validate_agent_catalog_entry agent c = do
  raise_if (is_blank agent.agent_id) (value_error "agent_id is required" [])
  raise_if (is_nonempty (unknown_skills agent c))
      (value_error "agent references unknown skills" (sorted (unknown_skills agent c)))
  raise_if (is_nonempty (unknown_tools agent c))
      (value_error "agent references unknown tools" (sorted (unknown_tools agent c)))
  raise_if
      (not (agent.reports_to == "human_root")
        && not (contains agent.reports_to (agent_ids c.agents c.skills c.tools)))
      (value_error "agent reports to unknown agent" (agent.reports_to ∷ []))

-- `_validate_skill_catalog_entry`
unfoldable pub validate_skill_catalog_entry : Skill → Company → Check
validate_skill_catalog_entry skill c = do
  raise_if (is_blank skill.skill_id) (value_error "skill_id is required" [])
  raise_if (is_nonempty (unknown_agents skill c))
      (value_error "skill references unknown agents" (sorted (unknown_agents skill c)))

-- ===== src/Bootstrap/Tests.antt =====
-- Starts of backend/app/bootstrap.py on the shipped catalogs.
use bug_free_enigma.Base.{
  true, [], ◌∷◌, ◌≡◌, refl, ok, is_ok, of_is_ok, contains, difference, for_each,
}
use bug_free_enigma.Base.Dict.{lookup, put}
use bug_free_enigma.Base.Text.{is_blank}
use bug_free_enigma.Core.Enums.{PermissionLevel, RiskLevel}
use bug_free_enigma.Core.Models.Catalog.{Agent}
use bug_free_enigma.Catalog.Agents
use bug_free_enigma.Catalog.Skills
use bug_free_enigma.Catalog.Tools
use bug_free_enigma.Catalog.Workflows
use bug_free_enigma.Catalog.Workflows.{validate, validate_step, validate_skill}
use bug_free_enigma.Bootstrap.{
  Catalog, load, check_agent, check_agent_link, check_skill, check_skill_link, register_if_absent,
  validate_catalog_references, load_agents, load_skills, load_tools, load_workflows, build_catalog,
}
use bug_free_enigma.Bootstrap.Loading.{IsSound, build_catalog-IsSound}

-- an Agent that was stored in an earlier run
abbrev stored_agent : Agent
stored_agent = record {
  agent_id = "clerk";
  name = "Clerk";
  department = "Operations";
  role = "Keeps files";
  permissions = PermissionLevel.l1_draft ∷ [];
  forbidden = [];
  allowed_skills = [];
  allowed_tools = "audit_read_tool" ∷ [];
  reports_to = "ceo_agent_v1";
  risk_level = RiskLevel.low;
  version = "1.0.0";
  enabled = true;
}

boots_with_clerk : is_ok (build_catalog true (stored_agent ∷ []) [] []) ≡ true
unfolding build_catalog load_agents load_skills load_tools load_workflows load
    validate_catalog_references check_agent check_agent_link check_skill check_skill_link
    register_if_absent Agents.register Agents.restore Skills.register Tools.register
    Workflows.register validate validate_step is_blank for_each contains difference lookup put
boots_with_clerk = refl

abbrev booted : (c : Catalog) × (build_catalog true (stored_agent ∷ []) [] [] ≡ ok c)
booted = of_is_ok (build_catalog true (stored_agent ∷ []) [] []) boots_with_clerk

build_catalog-IsSound_example : IsSound booted.0
build_catalog-IsSound_example = build_catalog-IsSound true (stored_agent ∷ []) [] [] booted.1

-- ===== src/Service/Registration/Tests.antt =====
-- Registrations that are run (backend/app/services/company.py).
use bug_free_enigma.Base.{
  String, List, none, some, value_error, true, false, [], ◌∷◌, ◌≡◌, refl, err, difference, contains,
  for_each, with_item, sorted, value_error,
}
use bug_free_enigma.Base.Dict.{lookup, put}
use bug_free_enigma.Base.Text.{is_blank}
use bug_free_enigma.Core.Enums.{RiskLevel}
use bug_free_enigma.Core.Models.Catalog.{Agent, Skill}
use bug_free_enigma.Catalog.Agents
use bug_free_enigma.Catalog.Agents.{grant_skill}
use bug_free_enigma.Catalog.Skills
use bug_free_enigma.Catalog.Skills.{allow_agent}
use bug_free_enigma.Catalog.Tools
use bug_free_enigma.Bootstrap.{validate_catalog_references}
use bug_free_enigma.Bootstrap.Links.{validate-IsLinked}
use bug_free_enigma.Service.State.{Company}
use bug_free_enigma.Service.Sample.{env, company, writer, notes_tool}
use bug_free_enigma.Service.Registration.{
  register_agent, register_skill, register_tool, allow_each, grant_each,
}
use bug_free_enigma.Service.Registration.Validation.{
  validate_agent_catalog_entry, validate_skill_catalog_entry,
}
use bug_free_enigma.Service.Records.{log_event}
use bug_free_enigma.Service.Registration.Ends.{AreSound}
use bug_free_enigma.Service.Registration.Reachable.{
  Entry, register_entry, register_entry_atomic, Reach, Reach-AreSound,
}

abbrev blank : Company
blank = record company { agents = []; tools = [] }

blank-AreSound : AreSound blank
unfolding validate_catalog_references for_each
blank-AreSound = record {
  agents_ok = (tt, tt);
  skills_ok = (tt, tt);
  tools_ok = (tt, tt);
  linked =
      validate-IsLinked [] [] [] (record { agents_keyed = tt; skills_keyed = tt; tools_keyed = tt })
        refl;
}

abbrev noter : Agent
noter = record writer { agent_id = "noter"; allowed_tools = "notes_tool" ∷ [] }

abbrev rewriting : Skill
rewriting = record {
  skill_id = "rewriting";
  name = "Rewriting";
  type = "writing";
  description = "Rewrites a note.";
  input_schema = [];
  output_schema = [];
  allowed_agents = "noter" ∷ [];
  risk_level = RiskLevel.low;
  requires_approval = false;
  version = "1.0.0";
  enabled = true;
}

abbrev editor : Agent
editor = record noter {
  agent_id = "editor";
  allowed_skills = "rewriting" ∷ [];
  reports_to = "noter";
}

abbrev with_tool : Company
with_tool = (register_entry env (Entry.tool notes_tool) blank).1

abbrev with_agent : Company
with_agent = (register_entry env (Entry.agent noter) with_tool).1

abbrev with_skill : Company
with_skill = (register_entry env (Entry.skill rewriting) with_agent).1

abbrev grown : Company
grown = (register_entry env (Entry.agent editor) with_skill).1

abbrev admitted_to : String → Company → List String
admitted_to skill_id c = elim (lookup skill_id c.skills) [ none ↦ [] | some s ↦ s.allowed_agents ]

-- both Agents are admitted to the Skill
editor_is_admitted : admitted_to "rewriting" grown ≡ "noter" ∷ "editor" ∷ []
unfolding register_agent register_skill register_tool Agents.register Skills.register Tools.register
    validate_agent_catalog_entry validate_skill_catalog_entry allow_each grant_each allow_agent
    grant_skill log_event is_blank difference contains with_item lookup put
editor_is_admitted = refl

-- an Agent whose Skill is not registered yet
blank_refuses :
    (register_entry env (Entry.agent editor) blank).0
    ≡ err (value_error "agent references unknown skills" ("rewriting" ∷ []))
unfolding register_agent validate_agent_catalog_entry is_blank difference contains sorted
blank_refuses = refl

Reach-AreSound_example : AreSound grown
Reach-AreSound_example =
    Reach-AreSound env {c = blank} {d = grown}
      (Reach.next
        (Reach.next (Reach.next (Reach.next Reach.here (Entry.tool notes_tool)) (Entry.agent noter))
          (Entry.skill rewriting))
        (Entry.agent editor))
      blank-AreSound

register_entry_atomic_example : (register_entry env (Entry.agent editor) blank).1 ≡ blank
register_entry_atomic_example =
    register_entry_atomic env (Entry.agent editor) blank
      (value_error "agent references unknown skills" ("rewriting" ∷ [])) blank-AreSound
      blank_refuses

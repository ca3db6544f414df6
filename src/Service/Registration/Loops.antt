-- ===== src/Service/Registration/Loops.antt =====
-- The loops of `register_agent` and `register_skill` (backend/app/services/company.py): where every
-- entry is known they go through, and leave the rest of the state alone.
use bug_free_enigma.Base.{
  String, true, some, List, [], ◌∷◌, ◌≡◌, refl, arith, eq_refl, contains, with_item, ok,
}
use bug_free_enigma.Base.Dict.{lookup, put, has_key, lookup-put, IsKeyed-put, lookup-IsKeyed}
use bug_free_enigma.Core.Models.Catalog.{Agent, Skill}
use bug_free_enigma.Catalog.Agents.{AgentRegistry, grant_skill}
use bug_free_enigma.Catalog.Agents.Laws as AgentLaws
use bug_free_enigma.Catalog.Skills.{SkillRegistry, allow_agent}
use bug_free_enigma.Catalog.Skills.Laws as SkillLaws
use bug_free_enigma.Bootstrap.Registries.{AgentsOk, SkillsOk}
use bug_free_enigma.Service.State.{Company}
use bug_free_enigma.Service.Registration.{allow_each, grant_each}
use bug_free_enigma.Service.Registration.Adding.{Adds-none, Adds-next}
use bug_free_enigma.Service.Registration.Links.{Admits, Gains, found_key}

-- the Skill after an Agent was allowed
allow_agent-found :
    (i j : String) (skills : SkillRegistry) (s : Skill)
    → lookup j skills ≡ some s
    → allow_agent j i skills
      ≡ ok (put j (record s { allowed_agents = with_item i s.allowed_agents }) skills)
unfolding allow_agent
allow_agent-found i j skills s found = ground arith

grant_skill-found :
    (i j : String) (agents : AgentRegistry) (a : Agent)
    → lookup j agents ≡ some a
    → grant_skill j i agents
      ≡ ok (put j (record a { allowed_skills = with_item i a.allowed_skills }) agents)
unfolding grant_skill
grant_skill-found i j agents a found = ground arith

allowed-SkillsOk :
    (i j : String) (skills : SkillRegistry) (s : Skill)
    → lookup j skills ≡ some s
    → SkillsOk skills
    → SkillsOk (put j (record s { allowed_agents = with_item i s.allowed_agents }) skills)
allowed-SkillsOk i j skills s found h =
    let t : Skill = record s { allowed_agents = with_item i s.allowed_agents } in
    let key = lookup-IsKeyed (λ (x : Skill). x.skill_id) j skills h.0 found in
    (
      rw (← key) (IsKeyed-put (λ (x : Skill). x.skill_id) t skills h.0),
      SkillLaws.Step-IsGuarded (SkillLaws.Step.allowed j i (allow_agent-found i j skills s found))
          h.1,
    )

granted-AgentsOk :
    (i j : String) (agents : AgentRegistry) (a : Agent)
    → lookup j agents ≡ some a
    → AgentsOk agents
    → AgentsOk (put j (record a { allowed_skills = with_item i a.allowed_skills }) agents)
granted-AgentsOk i j agents a found h =
    let b : Agent = record a { allowed_skills = with_item i a.allowed_skills } in
    let key = lookup-IsKeyed (λ (x : Agent). x.agent_id) j agents h.0 found in
    (
      rw (← key) (IsKeyed-put (λ (x : Agent). x.agent_id) b agents h.0),
      AgentLaws.Step-IsRootless (AgentLaws.Step.granted j i (grant_skill-found i j agents a found))
          h.1,
    )

pub allow_each-Admits :
    (i : String) (js : List String) (c : Company)
    → ((j : String) → contains j js ≡ true → has_key j c.skills ≡ true)
    → SkillsOk c.skills
    → (skills : SkillRegistry) × (allow_each i js c ≡ (ok tt, record c { skills = skills }))
      × Admits i js c.skills skills
      × SkillsOk skills
unfolding allow_each contains
allow_each-Admits i [] c known h = (c.skills, refl, Adds-none _ _ i c.skills, h)
allow_each-Admits i (j ∷ js) c known h =
    let (s, found) = found_key c.skills j (known j (ground (arith, eq_refl j))) in
    let t : Skill = record s { allowed_agents = with_item i s.allowed_agents } in
    let (skills, went, admits, sound) =
      allow_each-Admits i js (record c { skills = put j t c.skills })
        (λ k listed. ground (arith, known k, lookup-put j k t c.skills))
        (allowed-SkillsOk i j c.skills s found h) in
    (
      skills,
      rw (allow_agent-found i j c.skills s found) went,
      Adds-next _ _ i j js c.skills skills s t found refl refl admits,
      sound,
    )

pub grant_each-Gains :
    (i : String) (js : List String) (c : Company)
    → ((j : String) → contains j js ≡ true → has_key j c.agents ≡ true)
    → AgentsOk c.agents
    → (agents : AgentRegistry) × (grant_each i js c ≡ (ok tt, record c { agents = agents }))
      × Gains i js c.agents agents
      × AgentsOk agents
unfolding grant_each contains
grant_each-Gains i [] c known h = (c.agents, refl, Adds-none _ _ i c.agents, h)
grant_each-Gains i (j ∷ js) c known h =
    let (a, found) = found_key c.agents j (known j (ground (arith, eq_refl j))) in
    let b : Agent = record a { allowed_skills = with_item i a.allowed_skills } in
    let (agents, went, gains, sound) =
      grant_each-Gains i js (record c { agents = put j b c.agents })
        (λ k listed. ground (arith, known k, lookup-put j k b c.agents))
        (granted-AgentsOk i j c.agents a found h) in
    (
      agents,
      rw (grant_skill-found i j c.agents a found) went,
      Adds-next _ _ i j js c.agents agents a b found refl refl gains,
      sound,
    )

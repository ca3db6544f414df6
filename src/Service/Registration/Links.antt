-- ===== src/Service/Registration/Links.antt =====
-- The links between the catalogs when an entry is added (backend/app/services/company.py:
-- `register_agent`, `register_skill`, `register_tool`).
use bug_free_enigma.Base.{
  ap, ◌||◌, ◌&&◌, String, true, false, none, some, List, ◌≡◌, ◌≢◌, ◌⊎◌, arith, inl, inr, ◌==◌,
  eq_iff, eq_refl, contains, Bool-cases, Option-cases,
}
use bug_free_enigma.Base.Dict.{Dict, lookup, put, has_key, lookup-put}
use bug_free_enigma.Core.Models.Catalog.{Agent, Skill, Tool}
use bug_free_enigma.Catalog.Agents.{AgentRegistry}
use bug_free_enigma.Catalog.Skills.{SkillRegistry}
use bug_free_enigma.Catalog.Tools.{ToolRegistry}
use bug_free_enigma.Bootstrap.Links.{IsLinked}
use bug_free_enigma.Service.Registration.Adding.{Adds}

module _ {V : Type 0} (d : Dict V) where
  -- an entry after a write: the new one, or one that was there
  lookup_new :
      (k i : String) (v w : V)
      → lookup i (put k v d) ≡ some w
      → ((k ≡ i) × (v ≡ w)) ⊎ (((k == i) ≡ false) × (lookup i d ≡ some w))
  lookup_new k i v w found = elim (Bool-cases (k == i)) [
    | inl same ↦ inl (ground (arith, lookup-put k i v d, eq_iff k i))
    | inr other ↦ inr (other, ground (arith, lookup-put k i v d))
  ]

  -- a write under a fresh key hides no entry
  lookup_old :
      (k i : String) (v w : V)
      → lookup k d ≡ none
      → lookup i d ≡ some w
      → lookup i (put k v d) ≡ some w
  lookup_old k i v w fresh found = ground (arith, lookup-put k i v d, eq_iff k i)

  lookup_own : (k : String) (v : V) → lookup k (put k v d) ≡ some v
  lookup_own k v = ground (arith, lookup-put k k v d, eq_refl k)

  pub found_key : (k : String) → has_key k d ≡ true → (v : V) × (lookup k d ≡ some v)
  found_key k h = elim (Option-cases (lookup k d)) [
    | inl missing ↦ absurd (ground arith)
    | inr (v, e) ↦ (v, e)
  ]

-- The Skills have gained an Agent, and the Agents a Skill, with nothing else of theirs changed that
-- a link reads.
abbrev pub Admits : String → List String → SkillRegistry → SkillRegistry → Type 0
Admits = Adds (λ (s : Skill). s.allowed_agents) (λ (s : Skill). s.skill_id)

abbrev pub bounds : Agent → List String × String
bounds a = (a.allowed_tools, a.reports_to)

abbrev pub Gains : String → List String → AgentRegistry → AgentRegistry → Type 0
Gains = Adds (λ (a : Agent). a.allowed_skills) bounds

module _ (agents : AgentRegistry) (skills : SkillRegistry) (tools : ToolRegistry)
    (linked : IsLinked agents skills tools) where
  module _ (a : Agent) (skills' : SkillRegistry) (fresh : lookup a.agent_id agents ≡ none)
      (admits : Admits a.agent_id a.allowed_skills skills skills')
      (known_skills : (j : String)
        → contains j a.allowed_skills ≡ true
        → has_key j skills ≡ true) where
    new_agent_admitted :
        (i j : String) (b : Agent)
        → lookup i (put a.agent_id a agents) ≡ some b
        → contains j b.allowed_skills ≡ true
        → (s : Skill) × (lookup j skills' ≡ some s) × (contains i s.allowed_agents ≡ true)
    new_agent_admitted i j b found c = elim (lookup_new agents a.agent_id i a b found) [
      | inl (same, own) ↦
          let named : contains j a.allowed_skills ≡ true = rw own c in
          let (s, there) = found_key skills j (known_skills j named) in
          let (s', stands, holds, still) = admits.kept j s there in
          (s', stands, ground (arith, holds i, eq_iff a.agent_id i))
      | inr (other, old) ↦
          let (s, there, had) = linked.skill_admits i j b old c in
          let (s', stands, holds, still) = admits.kept j s there in
          (s', stands, ground (arith, holds i))
    ]

    new_agent_held :
        (i j : String) (s' : Skill)
        → lookup j skills' ≡ some s'
        → contains i s'.allowed_agents ≡ true
        → (b : Agent) × (lookup i (put a.agent_id a agents) ≡ some b)
          × (contains j b.allowed_skills ≡ true)
    new_agent_held i j s' found c = elim (Option-cases (lookup j skills)) [
      | inl missing ↦ absurd (ground (arith, admits.only j missing))
      | inr (s, there) ↦
          let (s'', stands, holds, still) = admits.kept j s there in
          let same : s'' ≡ s' = ground arith in
          elim (Bool-cases (contains i s.allowed_agents)) [
            | inl had ↦
                let (b, at, has) = linked.agent_holds i j s there had in
                (b, lookup_old agents a.agent_id i a b fresh at, has)
            | inr lacked ↦
                let gained : (a.agent_id ≡ i) × (contains j a.allowed_skills ≡ true) =
                  ground (arith, holds i, same, eq_iff a.agent_id i) in
                (a, rw (← gained.0) (lookup_own agents a.agent_id a), gained.1)
          ]
    ]

    -- an Agent that was checked and registered, with its Skills that admit it
    pub new_agent-IsLinked :
        ((t : String) → contains t a.allowed_tools ≡ true → has_key t tools ≡ true)
        → (a.reports_to ≡ "human_root") ⊎ (has_key a.reports_to agents ≡ true)
        → IsLinked (put a.agent_id a agents) skills' tools
    new_agent-IsLinked known_tools known_superior = record {
      skill_admits = new_agent_admitted;
      agent_holds = new_agent_held;
      tools_known = λ i t b found c. elim (lookup_new agents a.agent_id i a b found) [
        | inl (same, own) ↦ let known = known_tools t (rw own c) in ground arith
        | inr (other, old) ↦ linked.tools_known i t b old c
      ];
      reports_known = λ i b found. elim (lookup_new agents a.agent_id i a b found) [
        | inl (same, own) ↦ rw (← own) (
            ground
              (arith, lookup-put a.agent_id a.reports_to a agents, eq_iff a.agent_id a.reports_to))
        | inr (other, old) ↦
            let was = linked.reports_known i b old in
            ground (arith, lookup-put a.agent_id b.reports_to a agents)
      ];
    }

  module _ (s : Skill) (agents' : AgentRegistry) (fresh : lookup s.skill_id skills ≡ none)
      (gains : Gains s.skill_id s.allowed_agents agents agents')
      (known_agents : (i : String)
        → contains i s.allowed_agents ≡ true
        → has_key i agents ≡ true) where
    -- an Agent afterwards, beside what it was
    agent_before :
        (i : String) (b : Agent)
        → lookup i agents' ≡ some b
        → (a : Agent) × (lookup i agents ≡ some a)
          × ((k : String)
              → contains k b.allowed_skills
                ≡ (contains k a.allowed_skills || (s.skill_id == k && contains i s.allowed_agents)))
          × (bounds b ≡ bounds a)
    agent_before i b found = elim (Option-cases (lookup i agents)) [
      | inl missing ↦ absurd (ground (arith, gains.only i missing))
      | inr (a, there) ↦
          let (a', stands, holds, still) = gains.kept i a there in
          let same : a' ≡ b = ground arith in
          (a, there, (λ k. rw (← same) (holds k)), rw (← same) still)
    ]

    new_skill_admits :
        (i j : String) (b : Agent)
        → lookup i agents' ≡ some b
        → contains j b.allowed_skills ≡ true
        → (t : Skill) × (lookup j (put s.skill_id s skills) ≡ some t)
          × (contains i t.allowed_agents ≡ true)
    new_skill_admits i j b found c =
        let (a, there, holds, still) = agent_before i b found in
        elim (Bool-cases (contains j a.allowed_skills)) [
          | inl had ↦
              let (t, at, admitted) = linked.skill_admits i j a there had in
              (t, lookup_old skills s.skill_id j s t fresh at, admitted)
          | inr lacked ↦
              let gained : (s.skill_id ≡ j) × (contains i s.allowed_agents ≡ true) =
                ground (arith, holds j, eq_iff s.skill_id j) in
              (s, rw (← gained.0) (lookup_own skills s.skill_id s), gained.1)
        ]

    new_skill_held :
        (i j : String) (t : Skill)
        → lookup j (put s.skill_id s skills) ≡ some t
        → contains i t.allowed_agents ≡ true
        → (b : Agent) × (lookup i agents' ≡ some b) × (contains j b.allowed_skills ≡ true)
    new_skill_held i j t found c = elim (lookup_new skills s.skill_id j s t found) [
      | inl (same, own) ↦
          let named : contains i s.allowed_agents ≡ true = rw own c in
          let (a, there) = found_key agents i (known_agents i named) in
          let (b, stands, holds, still) = gains.kept i a there in
          (b, stands, ground (arith, holds j, eq_iff s.skill_id j))
      | inr (other, old) ↦
          let (a, there, had) = linked.agent_holds i j t old c in
          let (b, stands, holds, still) = gains.kept i a there in
          (b, stands, ground (arith, holds j))
    ]

    superior_stays : (k : String) → lookup k agents ≢ none → lookup k agents' ≢ none
    superior_stays k there gone = elim (Option-cases (lookup k agents)) [
      | inl missing ↦ there missing
      | inr (a, found) ↦
          let (b, stands, holds, still) = gains.kept k a found in absurd (ground arith)
    ]

    -- a Skill that was checked and registered, with its Agents that have gained it
    pub new_skill-IsLinked : IsLinked agents' (put s.skill_id s skills) tools
    new_skill-IsLinked = record {
      skill_admits = new_skill_admits;
      agent_holds = new_skill_held;
      tools_known = λ i t b found c.
          let (a, there, holds, still) = agent_before i b found in
          linked.tools_known i t a there (rw (← ap (λ p. p.0) still) c);
      reports_known = λ i b found.
          let (a, there, holds, still) = agent_before i b found in
          rw (ap (λ p. p.1) still) (elim (linked.reports_known i a there) [
            | inl root ↦ inl root
            | inr known ↦ inr (superior_stays a.reports_to known)
          ]);
    }

  -- a Tool more
  pub new_tool-IsLinked : (t : Tool) → IsLinked agents skills (put t.tool_id t tools)
  new_tool-IsLinked t = record {
    skill_admits = linked.skill_admits;
    agent_holds = linked.agent_holds;
    tools_known = λ i k a found c.
        let was = linked.tools_known i k a found c in
        ground (arith, lookup-put t.tool_id k t tools);
    reports_known = linked.reports_known;
  }

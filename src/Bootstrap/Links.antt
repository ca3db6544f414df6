-- ===== src/Bootstrap/Links.antt =====
-- What the check of the references (backend/app/bootstrap.py) establishes.
use bug_free_enigma.Base.{
  String, true, none, some, [], ◌≡◌, ◌≢◌, ◌⊎◌, inl, inr, arith, ok, All, All-contains, contains,
  difference, difference-nil, Option-cases, for_each, for_each-eq-ok, >>=-eq-ok, eq_iff,
}
use bug_free_enigma.Base.Dict.{lookup, values, All-lookup, IsKeyed, lookup-IsKeyed, contains-keys}
use bug_free_enigma.Core.Models.Catalog.{Agent, Skill, Tool}
use bug_free_enigma.Catalog.Agents.{AgentRegistry}
use bug_free_enigma.Catalog.Skills.{SkillRegistry}
use bug_free_enigma.Catalog.Tools.{ToolRegistry}
use bug_free_enigma.Bootstrap.{
  agent_ids, tool_ids, check_agent_link, check_agent, check_skill_link, check_skill,
  validate_catalog_references,
}

-- Every entry of the registries stands under its identifier.
pub record IsIndexed (agents : AgentRegistry) (skills : SkillRegistry) (tools : ToolRegistry)
    : Type 0 where
  pub agents_keyed : IsKeyed (λ (a : Agent). a.agent_id) agents
  pub skills_keyed : IsKeyed (λ (s : Skill). s.skill_id) skills
  pub tools_keyed : IsKeyed (λ (t : Tool). t.tool_id) tools

-- Authorization is symmetric, and no entry names what is not registered.
pub record IsLinked (agents : AgentRegistry) (skills : SkillRegistry) (tools : ToolRegistry)
    : Type 0 where
  -- an Agent's Skill is registered, and admits the Agent
  pub skill_admits :
      (i j : String) (a : Agent)
      → lookup i agents ≡ some a
      → contains j a.allowed_skills ≡ true
      → (s : Skill) × (lookup j skills ≡ some s) × (contains i s.allowed_agents ≡ true)
  -- an Agent that a Skill admits is registered, and has the Skill
  pub agent_holds :
      (i j : String) (s : Skill)
      → lookup j skills ≡ some s
      → contains i s.allowed_agents ≡ true
      → (a : Agent) × (lookup i agents ≡ some a) × (contains j a.allowed_skills ≡ true)
  pub tools_known :
      (i t : String) (a : Agent)
      → lookup i agents ≡ some a
      → contains t a.allowed_tools ≡ true
      → lookup t tools ≢ none
  pub reports_known :
      (i : String) (a : Agent)
      → lookup i agents ≡ some a
      → (a.reports_to ≡ "human_root") ⊎ (lookup a.reports_to agents ≢ none)

module _ (agents : AgentRegistry) (skills : SkillRegistry) (tools : ToolRegistry)
    (keyed : IsIndexed agents skills tools) where
  check_agent_link-eq-ok :
      (a : Agent) (j : String)
      → check_agent_link agents skills tools a j ≡ ok tt
      → (s : Skill) × (lookup j skills ≡ some s) × (contains a.agent_id s.allowed_agents ≡ true)
  unfolding check_agent_link
  check_agent_link-eq-ok a j h = elim (Option-cases (lookup j skills)) [
    | inl missing ↦ absurd (ground arith)
    | inr (s, e) ↦ (s, e, ground arith)
  ]

  check_skill_link-eq-ok :
      (s : Skill) (i : String)
      → check_skill_link agents skills tools s i ≡ ok tt
      → (a : Agent) × (lookup i agents ≡ some a) × (contains s.skill_id a.allowed_skills ≡ true)
  unfolding check_skill_link
  check_skill_link-eq-ok s i h = elim (Option-cases (lookup i agents)) [
    | inl missing ↦ absurd (ground arith)
    | inr (a, e) ↦ (a, e, ground arith)
  ]

  -- What the loop's body finds out about one Agent.
  record IsChecked (a : Agent) : Type 0 where
    links : All (λ j. check_agent_link agents skills tools a j ≡ ok tt) a.allowed_skills
    tools_in : difference a.allowed_tools (tool_ids agents skills tools) ≡ []
    reports_in :
        (a.reports_to ≡ "human_root")
        ⊎ (contains a.reports_to (agent_ids agents skills tools) ≡ true)

  check_agent-IsChecked : (a : Agent) → check_agent agents skills tools a ≡ ok tt → IsChecked a
  unfolding check_agent
  check_agent-IsChecked a h = record {
    links =
        (for_each-eq-ok (check_agent_link agents skills tools a) a.allowed_skills).0 (ground arith);
    tools_in = ground arith;
    reports_in = ground (arith, eq_iff a.reports_to "human_root");
  }

  check_skill-links :
      (s : Skill)
      → check_skill agents skills tools s ≡ ok tt
      → All (λ i. check_skill_link agents skills tools s i ≡ ok tt) s.allowed_agents
  unfolding check_skill
  check_skill-links s h =
      (for_each-eq-ok (check_skill_link agents skills tools s) s.allowed_agents).0 (ground arith)

  validate-checks :
      validate_catalog_references agents skills tools ≡ ok tt
      → All (λ a. check_agent agents skills tools a ≡ ok tt) (values agents)
        × All (λ s. check_skill agents skills tools s ≡ ok tt) (values skills)
  unfolding validate_catalog_references
  validate-checks h =
      let (_, first, second) =
        >>=-eq-ok (for_each (check_agent agents skills tools) (values agents))
          (λ _. for_each (check_skill agents skills tools) (values skills)) h in
      (
        (for_each-eq-ok (check_agent agents skills tools) (values agents)).0 first,
        (for_each-eq-ok (check_skill agents skills tools) (values skills)).0 second,
      )

  module _ (h : validate_catalog_references agents skills tools ≡ ok tt) where
    checked : (i : String) {a : Agent} → lookup i agents ≡ some a → IsChecked a
    checked i {a} found = check_agent-IsChecked a (
        All-lookup (λ x. check_agent agents skills tools x ≡ ok tt) i agents (validate-checks h).0
          found)

    admitted :
        (i j : String) (a : Agent)
        → lookup i agents ≡ some a
        → contains j a.allowed_skills ≡ true
        → (s : Skill) × (lookup j skills ≡ some s) × (contains i s.allowed_agents ≡ true)
    admitted i j a found c =
        rw (← lookup-IsKeyed (λ (x : Agent). x.agent_id) i agents keyed.agents_keyed found) (
          check_agent_link-eq-ok a j (
            All-contains (λ k. check_agent_link agents skills tools a k ≡ ok tt) j a.allowed_skills
              (checked i found).links c))

    held :
        (i j : String) (s : Skill)
        → lookup j skills ≡ some s
        → contains i s.allowed_agents ≡ true
        → (a : Agent) × (lookup i agents ≡ some a) × (contains j a.allowed_skills ≡ true)
    held i j s found c =
        rw (← lookup-IsKeyed (λ (x : Skill). x.skill_id) j skills keyed.skills_keyed found) (
          check_skill_link-eq-ok s i (
            All-contains (λ k. check_skill_link agents skills tools s k ≡ ok tt) i s.allowed_agents
              (check_skill-links s (
                All-lookup (λ x. check_skill agents skills tools x ≡ ok tt) j skills
                  (validate-checks h).1 found))
              c))

    known_tool :
        (i t : String) (a : Agent)
        → lookup i agents ≡ some a
        → contains t a.allowed_tools ≡ true
        → lookup t tools ≢ none
    known_tool i t a found c =
        let listed =
          difference-nil t a.allowed_tools (tool_ids agents skills tools) (checked i found).tools_in
            c in
        let same = contains-keys (λ (x : Tool). x.tool_id) t tools keyed.tools_keyed in ground arith

    known_superior :
        (i : String) (a : Agent)
        → lookup i agents ≡ some a
        → (a.reports_to ≡ "human_root") ⊎ (lookup a.reports_to agents ≢ none)
    known_superior i a found =
        let known = (checked i found).reports_in in
        let same =
          contains-keys (λ (x : Agent). x.agent_id) a.reports_to agents keyed.agents_keyed in
        ground arith

  -- Over registries whose entries stand under their identifiers, a check that raises nothing means
  -- that an Agent has a Skill exactly where the Skill admits the Agent, that both are registered
  -- then, and that every Tool of an Agent and every superior is registered too, the Human Root
  -- aside.
  pub validate-IsLinked :
      validate_catalog_references agents skills tools ≡ ok tt → IsLinked agents skills tools
  validate-IsLinked h = record {
    skill_admits = admitted h;
    agent_holds = held h;
    tools_known = known_tool h;
    reports_known = known_superior h;
  }

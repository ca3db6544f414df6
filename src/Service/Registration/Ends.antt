-- ===== src/Service/Registration/Ends.antt =====
-- How the registrations of backend/app/services/company.py end: `register_agent`, `register_skill`
-- and `register_tool`.
use mathlib.Core.Path.{subst}
use bug_free_enigma.Base.{
  true, false, String, List, [], ◌∷◌, ◌≡◌, ◌⊎◌, refl, sym, ◌∙◌, ap, arith, inl, inr, eq_iff,
  contains, difference-nil, Outcome, Error, ok, err, Outcome-cases,
}
use bug_free_enigma.Base.Dict.{has_key, contains-keys}
use bug_free_enigma.Core.Models.Catalog.{Agent, Skill, Tool}
use bug_free_enigma.Catalog.Agents
use bug_free_enigma.Catalog.Agents.Laws as AgentLaws
use bug_free_enigma.Catalog.Skills
use bug_free_enigma.Catalog.Skills.Laws as SkillLaws
use bug_free_enigma.Catalog.Tools
use bug_free_enigma.Catalog.Tools.Laws as ToolLaws
use bug_free_enigma.Bootstrap.{is_nonempty}
use bug_free_enigma.Bootstrap.Registries.{
  AgentsOk, SkillsOk, ToolsOk, register-AgentsOk, register-SkillsOk, register-ToolsOk,
}
use bug_free_enigma.Bootstrap.Links.{IsLinked}
use bug_free_enigma.Service.State.{Env, Company}
use bug_free_enigma.Service.Records.{log_event}
use bug_free_enigma.Service.Registration.{register_agent, register_skill, register_tool}
use bug_free_enigma.Service.Registration.Validation.{
  validate_agent_catalog_entry, validate_skill_catalog_entry, unknown_skills, unknown_tools,
  unknown_agents,
}
use bug_free_enigma.Service.Registration.Links.{
  new_agent-IsLinked, new_skill-IsLinked, new_tool-IsLinked,
}
use bug_free_enigma.Service.Registration.Loops.{allow_each-Admits, grant_each-Gains}

-- The catalogs of a company: every entry stands under its identifier, no Agent has the Root
-- permission, Skills and Tools of high risk are guarded, and the links are symmetric.
pub record AreSound (c : Company) : Type 0 where
  pub agents_ok : AgentsOk c.agents
  pub skills_ok : SkillsOk c.skills
  pub tools_ok : ToolsOk c.tools
  pub linked : IsLinked c.agents c.skills c.tools

none_left : (xs : List String) → is_nonempty xs ≡ false → xs ≡ []
none_left [] h = refl
none_left (x ∷ xs) h = cc

-- what the check of an Agent's entry finds
record IsKnown (a : Agent) (c : Company) : Type 0 where
  skills_in : (j : String) → contains j a.allowed_skills ≡ true → has_key j c.skills ≡ true
  tools_in : (t : String) → contains t a.allowed_tools ≡ true → has_key t c.tools ≡ true
  superior_in : (a.reports_to ≡ "human_root") ⊎ (has_key a.reports_to c.agents ≡ true)

agent_check :
    (a : Agent) (c : Company)
    → validate_agent_catalog_entry a c ≡ ok tt
    → (is_nonempty (unknown_skills a c) ≡ false) × (is_nonempty (unknown_tools a c) ≡ false)
unfolding validate_agent_catalog_entry
agent_check a c h = ground arith

agent_check-IsKnown :
    (a : Agent) (c : Company) → AreSound c → validate_agent_catalog_entry a c ≡ ok tt → IsKnown a c
unfolding validate_agent_catalog_entry
agent_check-IsKnown a c sound h =
    let (no_skills, no_tools) = agent_check a c h in
    let superiors =
      contains-keys (λ (x : Agent). x.agent_id) a.reports_to c.agents sound.agents_ok.0 in
    record {
      skills_in = λ j listed.
          sym (contains-keys (λ (x : Skill). x.skill_id) j c.skills sound.skills_ok.0)
          ∙ difference-nil j a.allowed_skills _ (none_left _ no_skills) listed;
      tools_in = λ t listed.
          sym (contains-keys (λ (x : Tool). x.tool_id) t c.tools sound.tools_ok.0)
          ∙ difference-nil t a.allowed_tools _ (none_left _ no_tools) listed;
      superior_in = ground (arith, superiors, eq_iff a.reports_to "human_root");
    }

skill_check-known :
    (s : Skill) (c : Company)
    → AreSound c
    → validate_skill_catalog_entry s c ≡ ok tt
    → (i : String) → contains i s.allowed_agents ≡ true
    → has_key i c.agents ≡ true
unfolding validate_skill_catalog_entry
skill_check-known s c sound h i listed =
    let no_agents : is_nonempty (unknown_agents s c) ≡ false = ground arith in
    sym (contains-keys (λ (x : Agent). x.agent_id) i c.agents sound.agents_ok.0)
    ∙ difference-nil i s.allowed_agents _ (none_left _ no_agents) listed

-- How a method that registers an entry ends: it raises and has changed nothing, or it gives the
-- entry and leaves sound catalogs.
abbrev pub Ends : {A : Type 0} → A → Company → Outcome A × Company → Type 0
Ends a c result = ((e : Error) × (result ≡ (err e, c))) ⊎ ((result.0 ≡ ok a) × AreSound result.1)

pub unchanged :
    {A : Type 0} (a : A) (c : Company) (result : Outcome A × Company) (e : Error)
    → Ends a c result
    → result.0 ≡ err e
    → result.1 ≡ c
unchanged a c result e (inl (_, same)) raised = ap (λ p. p.1) same
unchanged a c result e (inr (went, _)) raised = absurd (cc)

pub ended :
    {A : Type 0} (a : A) (c : Company) (result : Outcome A × Company)
    → AreSound c
    → Ends a c result
    → AreSound result.1
ended a c result sound (inl (_, same)) = subst AreSound (sym (ap (λ p. p.1) same)) sound
ended a c result sound (inr (_, after)) = after

module _ (env : Env) (c : Company) (sound : AreSound c) where
  new_agent-Ends :
      (a : Agent)
      → validate_agent_catalog_entry a c ≡ ok tt
      → (agents : Agents.AgentRegistry) → Agents.register a c.agents ≡ ok agents
      → Ends a c (register_agent env a c)
  unfolding register_agent log_event
  new_agent-Ends a valid agents registered =
      let known = agent_check-IsKnown a c sound valid in
      let (fresh, _, written) = AgentLaws.register-eq-ok a c.agents registered in
      let (skills, went, admits, skills_sound) =
        allow_each-Admits a.agent_id a.allowed_skills (record c { agents = agents }) known.skills_in
          sound.skills_ok in
      rw (valid, registered, went)
        (inr (
          refl,
          record {
            agents_ok = register-AgentsOk a c.agents agents registered sound.agents_ok;
            skills_ok = skills_sound;
            tools_ok = sound.tools_ok;
            linked =
                subst (λ r. IsLinked r skills c.tools) (sym written)
                  (new_agent-IsLinked c.agents c.skills c.tools sound.linked a skills fresh admits
                    known.skills_in known.tools_in known.superior_in);
          },
        ))

  pub register_agent-Ends : (a : Agent) → Ends a c (register_agent env a c)
  unfolding register_agent
  register_agent-Ends a = elim (Outcome-cases (validate_agent_catalog_entry a c)) [
    | inr (e, refused) ↦ inl (e, rw refused refl)
    | inl (_, valid) ↦ elim (Outcome-cases (Agents.register a c.agents)) [
      | inr (e, refused) ↦ inl (e, rw (valid, refused) refl)
      | inl (agents, registered) ↦ new_agent-Ends a valid agents registered
    ]
  ]

  new_skill-Ends :
      (s : Skill)
      → validate_skill_catalog_entry s c ≡ ok tt
      → (skills : Skills.SkillRegistry) → Skills.register s c.skills ≡ ok skills
      → Ends s c (register_skill env s c)
  unfolding register_skill log_event
  new_skill-Ends s valid skills registered =
      let known = skill_check-known s c sound valid in
      let (fresh, _, written) = SkillLaws.register-eq-ok s c.skills registered in
      let (agents, went, gains, agents_sound) =
        grant_each-Gains s.skill_id s.allowed_agents (record c { skills = skills }) known
          sound.agents_ok in
      rw (valid, registered, went)
        (inr (
          refl,
          record {
            agents_ok = agents_sound;
            skills_ok = register-SkillsOk s c.skills skills registered sound.skills_ok;
            tools_ok = sound.tools_ok;
            linked =
                subst (λ r. IsLinked agents r c.tools) (sym written)
                  (new_skill-IsLinked c.agents c.skills c.tools sound.linked s agents fresh gains
                    known);
          },
        ))

  pub register_skill-Ends : (s : Skill) → Ends s c (register_skill env s c)
  unfolding register_skill
  register_skill-Ends s = elim (Outcome-cases (validate_skill_catalog_entry s c)) [
    | inr (e, refused) ↦ inl (e, rw refused refl)
    | inl (_, valid) ↦ elim (Outcome-cases (Skills.register s c.skills)) [
      | inr (e, refused) ↦ inl (e, rw (valid, refused) refl)
      | inl (skills, registered) ↦ new_skill-Ends s valid skills registered
    ]
  ]

  pub register_tool-Ends : (t : Tool) → Ends t c (register_tool t c)
  unfolding register_tool
  register_tool-Ends t = elim (Outcome-cases (Tools.register t c.tools)) [
    | inr (e, refused) ↦ inl (e, rw refused refl)
    | inl (tools, registered) ↦
        let (_, _, written) = ToolLaws.register-eq-ok t c.tools registered in
        rw registered (
          inr (
            refl,
            record {
              agents_ok = sound.agents_ok;
              skills_ok = sound.skills_ok;
              tools_ok = register-ToolsOk t c.tools tools registered sound.tools_ok;
              linked =
                  subst (λ r. IsLinked c.agents c.skills r) (sym written)
                    (new_tool-IsLinked c.agents c.skills c.tools sound.linked t);
            },
          ))
  ]

-- ===== src/Bootstrap/Loading.antt =====
-- What holds of every catalog that boots (backend/app/bootstrap.py), whatever was stored.
use bug_free_enigma.Base.{
  Bool, true, false, List, [], ◌≡◌, refl, arith, ok, All, is_ok, of_is_ok, contains, difference,
  for_each,
}
use bug_free_enigma.Base.Dict.{values, lookup, put, All-put}
use bug_free_enigma.Base.Text.{is_blank}
use bug_free_enigma.Core.Models.Catalog.{Agent, Skill, Tool, WorkflowDefinition}
use bug_free_enigma.Catalog.Agents
use bug_free_enigma.Catalog.Agents.Laws as AgentLaws
use bug_free_enigma.Catalog.Agents.{AgentRegistry, default_agents}
use bug_free_enigma.Catalog.Skills
use bug_free_enigma.Catalog.Skills.Laws as SkillLaws
use bug_free_enigma.Catalog.Skills.{SkillRegistry, default_skills}
use bug_free_enigma.Catalog.Tools
use bug_free_enigma.Catalog.Tools.Laws as ToolLaws
use bug_free_enigma.Catalog.Tools.{ToolRegistry, default_tools}
use bug_free_enigma.Catalog.Workflows
use bug_free_enigma.Catalog.Workflows.Laws as WorkflowLaws
use bug_free_enigma.Catalog.Workflows.{default_workflows, validate, validate_step}
use bug_free_enigma.Bootstrap.{
  Catalog, load, check_agent, check_agent_link, check_skill, check_skill_link, register_if_absent,
  validate_catalog_references, load_agents, load_skills, load_tools, load_workflows, build_catalog,
}
use bug_free_enigma.Bootstrap.Registries.{
  load_inv, load_agents-AgentsOk, load_skills-SkillsOk, load_tools-ToolsOk,
}
use bug_free_enigma.Bootstrap.Links.{IsLinked, validate-IsLinked}

-- What a catalog needs for the gates to work.
pub record IsSound (c : Catalog) : Type 0 where
  pub linked : IsLinked c.agents c.skills c.tools
  pub no_root : AgentLaws.IsRootless c.agents
  pub skills_guarded : All SkillLaws.IsGuarded (values c.skills)
  pub tools_guarded : All ToolLaws.IsGuarded (values c.tools)
  pub workflows_runnable : All (WorkflowLaws.IsRunnable c.agents c.skills) (values c.workflows)

register-All-IsRunnable :
    (agents : AgentRegistry) (skills : SkillRegistry) (w : WorkflowDefinition)
    (b c : Workflows.Workflows)
    → Workflows.register agents skills w b ≡ ok c
    → All (WorkflowLaws.IsRunnable agents skills) (values b)
    → All (WorkflowLaws.IsRunnable agents skills) (values c)
register-All-IsRunnable agents skills w b c e h =
    let (_, written, runnable) = WorkflowLaws.register-IsRunnable agents skills w b e in
    rw written (All-put (WorkflowLaws.IsRunnable agents skills) w.workflow_id w b runnable h)

-- The parts of a catalog that booted.
record Parts (control : Bool) (xs : List Agent) (ys : List Skill) (zs : List Tool) (c : Catalog)
    : Type 0 where
  agents_loaded : load_agents xs ≡ ok c.agents
  skills_loaded : load_skills ys ≡ ok c.skills
  tools_loaded : load_tools control zs ≡ ok c.tools
  references : validate_catalog_references c.agents c.skills c.tools ≡ ok tt
  workflows_loaded : load_workflows c.agents c.skills ≡ ok c.workflows

build_catalog-Parts :
    (control : Bool) (xs : List Agent) (ys : List Skill) (zs : List Tool) {c : Catalog}
    → build_catalog control xs ys zs ≡ ok c
    → Parts control xs ys zs c
unfolding build_catalog
build_catalog-Parts control xs ys zs {c} h = ground arith

-- Whatever Agents, Skills and Tools were stored, a catalog that boots is sound: authorization is
-- symmetric and names only what is registered, no Agent holds the Root permission, Skills and Tools
-- of high risk ask for approval, Tools of forbidden risk are switched off, and every workflow can
-- be run by its Agents.
pub build_catalog-IsSound :
    (control : Bool) (xs : List Agent) (ys : List Skill) (zs : List Tool) {c : Catalog}
    → build_catalog control xs ys zs ≡ ok c
    → IsSound c
unfolding load_workflows
build_catalog-IsSound control xs ys zs {c} h =
    let parts = build_catalog-Parts control xs ys zs h in
    let a = load_agents-AgentsOk xs parts.agents_loaded in
    let s = load_skills-SkillsOk ys parts.skills_loaded in
    let t = load_tools-ToolsOk control zs parts.tools_loaded in
    record {
      linked =
          validate-IsLinked c.agents c.skills c.tools
            (record { agents_keyed = a.0; skills_keyed = s.0; tools_keyed = t.0 }) parts.references;
      no_root = a.1;
      skills_guarded = s.1;
      tools_guarded = t.1;
      workflows_runnable =
          load_inv (λ ws. All (WorkflowLaws.IsRunnable c.agents c.skills) (values ws))
            (Workflows.register c.agents c.skills) (register-All-IsRunnable c.agents c.skills)
            default_workflows [] parts.workflows_loaded tt;
    }

boots : (control : Bool) → is_ok (build_catalog control [] [] []) ≡ true
unfolding build_catalog load_agents load_skills load_tools load_workflows load
    validate_catalog_references check_agent check_agent_link check_skill check_skill_link
    register_if_absent Agents.register Skills.register Tools.register Workflows.register validate
    validate_step is_blank for_each contains difference lookup put
boots true = refl
boots false = refl

-- With nothing stored, the shipped catalog boots, whatever the environment says of computer
-- control, and it is sound.
shipped_catalog_boots :
    (control : Bool) → (c : Catalog) × (build_catalog control [] [] [] ≡ ok c) × IsSound c
shipped_catalog_boots control =
    let (c, e) = of_is_ok (build_catalog control [] [] []) (boots control) in
    (c, e, build_catalog-IsSound control [] [] [] e)

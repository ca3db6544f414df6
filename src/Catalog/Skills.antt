-- ===== src/Catalog/Skills.antt =====
-- backend/app/skills/registry.py: `SkillRegistry` and `default_skills`.
mod Working
mod Capability
pub mod Laws
use bug_free_enigma.Base.{
  String, Bool, true, false, not, ◌&&◌, List, [], ◌∷◌, Check, Outcome, ok, value_error, ◌>>=◌, ◌>>◌,
  raise_if, with_item,
}
use bug_free_enigma.Base.Dict.{Dict, get, has_key, put}
use bug_free_enigma.Core.Enums.{RiskLevel}
use bug_free_enigma.Core.Models.Catalog.{Skill}
use Working.{
  task_planning_skill, document_writer_skill, summary_skill, risk_check_skill, quality_check_skill,
  rewrite_skill, data_cleanup_skill, spreadsheet_generation_skill, code_generation_skill,
}
use Capability.{
  code_review_skill, github_project_analysis_skill, approval_request_skill, audit_logging_skill,
  memory_write_skill, knowledge_search_skill, skill_search_skill, skill_composition_skill,
  temporary_skill_creation_skill,
}

abbrev pub SkillRegistry : Type 0
SkillRegistry = Dict Skill

-- `risk_level in {HIGH, FORBIDDEN}`
abbrev pub is_high : RiskLevel → Bool
is_high RiskLevel.high = true
is_high RiskLevel.forbidden = true
is_high _ = false

abbrev unguarded_refused : Skill → Check
unguarded_refused skill =
    raise_if (is_high skill.risk_level && not skill.requires_approval)
      (value_error "high or forbidden risk skills must require approval" [])

unfoldable pub register : Skill → SkillRegistry → Outcome SkillRegistry
register skill skills = do
  raise_if (has_key skill.skill_id skills)
      (value_error "skill already registered" (skill.skill_id ∷ []))
  unguarded_refused skill
  ok (put skill.skill_id skill skills)

unfoldable pub restore : Skill → SkillRegistry → Outcome SkillRegistry
restore skill skills = do unguarded_refused skill; ok (put skill.skill_id skill skills)

unfoldable pub allow_agent : String → String → SkillRegistry → Outcome SkillRegistry
allow_agent skill_id agent_id skills = do
  skill ← get skill_id skills
  ok (
      put skill_id (record skill { allowed_agents = with_item agent_id skill.allowed_agents })
        skills)

abbrev pub default_skills : List Skill
default_skills =
    task_planning_skill ∷ document_writer_skill ∷ summary_skill ∷ risk_check_skill
    ∷ quality_check_skill ∷ rewrite_skill ∷ data_cleanup_skill ∷ spreadsheet_generation_skill
    ∷ code_generation_skill ∷ code_review_skill ∷ github_project_analysis_skill
    ∷ approval_request_skill ∷ audit_logging_skill ∷ memory_write_skill ∷ knowledge_search_skill
    ∷ skill_search_skill ∷ skill_composition_skill ∷ temporary_skill_creation_skill ∷ []

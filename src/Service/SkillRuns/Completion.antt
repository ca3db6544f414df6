-- ===== src/Service/SkillRuns/Completion.antt =====
-- `complete_skill_run` of backend/app/services/company.py.
use bug_free_enigma.Base.{contains, ◌&&◌, String, not, Option, some, if◌then◌else◌}
use bug_free_enigma.Base.Dict.{put}
use bug_free_enigma.Base.Text.{◌<>◌}
use bug_free_enigma.Core.Enums.{SkillRunStatus}
use bug_free_enigma.Core.Values.{skill_run_status_value}
use bug_free_enigma.Core.Models.Catalog.{Agent, Skill}
use bug_free_enigma.Core.Models.Control.{ApprovalRequest}
use bug_free_enigma.Core.Models.Work.{SkillRun}
use bug_free_enigma.Service.State.{Env}
use bug_free_enigma.Service.Actions.{Action, pure, asks, modify, ◌>>=◌, ◌>>◌}
use bug_free_enigma.Service.Records.{log_event}
use bug_free_enigma.Service.SkillRuns.Waiting.{approved_run, parties}
use bug_free_enigma.Service.SkillRuns.Execution.{stop_run, execute_skill_run}

-- What the method reads before it changes anything.
pub record SkillDecision : Type 0 where
  pub run : SkillRun
  pub approval : ApprovalRequest
  pub skill : Skill
  pub agent : Agent

module _ (env : Env) where
  -- the chain of tests of `complete_skill_run`
  unfoldable pub settle_skill_run : SkillDecision → Action SkillRun
  settle_skill_run found =
      if not found.skill.enabled
      then stop_run env SkillRunStatus.blocked "skill is disabled" found.run
      else if not (
          contains found.run.skill_id found.agent.allowed_skills
          && contains found.agent.agent_id found.skill.allowed_agents)
      then stop_run env SkillRunStatus.blocked "skill is not authorized for this agent" found.run
      else execute_skill_run env found.run found.skill

  unfoldable pub file_skill_completion :
      String → String → Option String → SkillDecision → SkillRun → Action SkillRun
  file_skill_completion run_id completed_by remark found run = do
    modify (λ c. record c { skill_runs = put run_id run c.skill_runs })
    log_event env "skill_run_completed" completed_by ("run_skill:" <> found.skill.skill_id)
        run.task_id run.risk_level found.approval.status (skill_run_status_value run.status) remark
        (some run.run_id) run.error
    pure run

  -- the part of the method that changes the state
  unfoldable pub conclude_skill_run :
      String → String → Option String → SkillDecision → Action SkillRun
  conclude_skill_run run_id completed_by remark found = do
    run ← settle_skill_run found
    file_skill_completion run_id completed_by remark found run

  unfoldable pub complete_skill_run : String → String → Option String → Action SkillRun
  complete_skill_run run_id completed_by remark = do
    waiting ← asks (approved_run run_id)
    found ← asks (parties waiting.0)
    conclude_skill_run run_id completed_by remark
        (record { run = waiting.0; approval = waiting.1; skill = found.0; agent = found.1 })

-- ===== src/Service/SkillRuns/Blind.antt =====
-- The parts of the methods on Skill runs (backend/app/services/company.py) that call no adapter:
-- they are the same whatever the adapters do.
use bug_free_enigma.Base.{String, Option, none, List, ◌≡◌, refl}
use bug_free_enigma.Core.Json.{Fields}
use bug_free_enigma.Core.Enums.{ApprovalStatus}
use bug_free_enigma.Core.Models.Catalog.{Skill}
use bug_free_enigma.Core.Models.Control.{ActionRequest, RiskAssessment}
use bug_free_enigma.Core.Models.Work.{SkillRun, MemoryRecord}
use bug_free_enigma.Service.State.{Env, Company, SkillReply}
use bug_free_enigma.Service.Actions.{new_id, utc_now}
use bug_free_enigma.Service.Records.{log_event, report_incident}
use bug_free_enigma.Service.ToolRuns.Execution.{ask_approval}
use bug_free_enigma.Service.SkillRuns.Request.{authorize_run, report_blocked_skill, file_skill_run}
use bug_free_enigma.Service.SkillRuns.Completion.{SkillDecision, file_skill_completion}

-- What a Skill adapter does: its reply, and the memory records that it writes.
abbrev pub Adapter : Type 0
Adapter = String → Fields → Company → SkillReply × List MemoryRecord

-- the service with another adapter
abbrev pub with_adapter : Adapter → Env → Env
with_adapter other env = record env { skill_adapter = other }

module _ (other : Adapter) (env : Env) where
  -- a run that is held for an approval
  pub authorize_run-blind :
      (skill : Skill) (request : ActionRequest) (risk : RiskAssessment) (run : SkillRun)
      (c : Company)
      → authorize_run (with_adapter other env) skill request risk run none c
        ≡ authorize_run env skill request risk run none c
  unfolding authorize_run ask_approval new_id utc_now
  authorize_run-blind skill request risk run c = refl

  pub file_skill_run-blind :
      (request : ActionRequest) (risk : RiskAssessment) (d : SkillRun × ApprovalStatus)
      (c : Company)
      → file_skill_run (with_adapter other env) request risk d c
        ≡ file_skill_run env request risk d c
  unfolding file_skill_run report_blocked_skill report_incident log_event new_id utc_now
  file_skill_run-blind request risk d c = refl

  pub file_skill_completion-blind :
      (i by : String) (remark : Option String) (d : SkillDecision) (run : SkillRun) (c : Company)
      → file_skill_completion (with_adapter other env) i by remark d run c
        ≡ file_skill_completion env i by remark d run c
  unfolding file_skill_completion log_event new_id utc_now
  file_skill_completion-blind i by remark d run c = refl

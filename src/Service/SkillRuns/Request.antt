-- ===== src/Service/SkillRuns/Request.antt =====
-- `request_skill_run` of backend/app/services/company.py.
use text.Mathlib.Text.{starts_with}
use bug_free_enigma.Base.{
  String, Bool, true, false, not, ◌&&◌, ◌||◌, Option, none, some, [], ◌∷◌, Outcome, ok, err,
  value_error, type_error, ◌==◌, contains, if◌then◌else◌,
}
use bug_free_enigma.Base.Dict.{get, put}
use bug_free_enigma.Base.Text.{text_or, ◌<>◌}
use bug_free_enigma.Core.Enums.{ApprovalStatus, PermissionLevel, RiskLevel, SkillRunStatus}
use bug_free_enigma.Core.Values.{risk_level_value, skill_run_status_value}
use bug_free_enigma.Core.Time.{Instant}
use bug_free_enigma.Core.Json.{
  Value, null, bool, num, neg, real, str, arr, obj, Items, nil, cons, Fields, end, field, member_or,
  member, value_eq,
}
use bug_free_enigma.Core.Models.Catalog.{Agent, Skill}
use bug_free_enigma.Core.Models.Control.{ActionRequest, RiskAssessment, ApprovalRequest}
use bug_free_enigma.Core.Models.Work.{SkillRun}
use bug_free_enigma.Safety.Risk.{assess}
use bug_free_enigma.Safety.Permissions.{PermissionResult, evaluate}
use bug_free_enigma.Service.State.{Env, Company}
use bug_free_enigma.Service.Actions.{Action, pure, lift, asks, modify, ◌>>=◌, ◌>>◌, new_id, utc_now}
use bug_free_enigma.Service.Records.{log_event, report_incident}
use bug_free_enigma.Service.ToolApproval.{same_text}
use bug_free_enigma.Service.ToolRuns.Execution.{
  is_block, is_require_approval, is_approved, block_reason, ask_approval,
}
use bug_free_enigma.Service.SkillRuns.Execution.{is_blocked, stop_run, execute_skill_run}

abbrev pub skill_request : Skill → String → Option String → String → ActionRequest
skill_request skill actor_id task_id reason = record {
  action = "run_skill:" <> skill.skill_id;
  actor_id = actor_id;
  task_id = task_id;
  permission_level =
      if skill.skill_id == "memory_write_skill_v1"
      then PermissionLevel.l2_internal_write
      else PermissionLevel.l1_draft;
  reason = reason;
  target = some skill.skill_id;
  reversible = true;
  metadata = field "skill_id" (str skill.skill_id) end;
}

abbrev is_forbidden_level : RiskLevel → Bool
is_forbidden_level RiskLevel.forbidden = true
is_forbidden_level _ = false

unfoldable pub assess_skill_request : Skill → ActionRequest → RiskAssessment
assess_skill_request skill request =
    let assessed = assess request in
    record {
      request = request;
      level = skill.risk_level;
      reasons = ("registered Skill risk is " <> risk_level_value skill.risk_level) ∷ [];
      requires_approval = skill.requires_approval || assessed.requires_approval;
      blocked = is_forbidden_level skill.risk_level || assessed.blocked;
    }

abbrev listed : String → Items → Bool
listed skill_id nil = false
listed skill_id (cons v vs) = value_eq v (str skill_id) || listed skill_id vs

-- `part in text`: the part begins at some place of the text
abbrev occurs_in : String → String → Bool
occurs_in part String.[] = part == ""
occurs_in part (String.◌∷◌ c text) = starts_with (String.◌∷◌ c text) part || occurs_in part text

-- `skill_id in value`
abbrev is_in : String → Value → Outcome Bool
is_in skill_id (arr items) = ok (listed skill_id items)
is_in skill_id (obj fields) = ok (elim (member skill_id fields) [ none ↦ false | some _ ↦ true ])
is_in skill_id (str text) = ok (occurs_in skill_id text)
is_in skill_id null = err (type_error "argument is not iterable")
is_in skill_id (bool _) = err (type_error "argument is not iterable")
is_in skill_id (num _) = err (type_error "argument is not iterable")
is_in skill_id (neg _) = err (type_error "argument is not iterable")
is_in skill_id (real _ _) = err (type_error "argument is not iterable")

-- the tests on an authorization
unfoldable pub check_authorization :
    Skill → Option String → ApprovalRequest → Outcome ApprovalRequest
check_authorization skill task_id authorization =
    if not (is_approved authorization.status)
    then err (value_error "Skill authorization approval is not approved" [])
    else if not (same_text authorization.request.task_id task_id)
    then err (value_error "Skill authorization approval does not match task" [])
    else elim (is_in skill.skill_id
        (member_or "approved_skill_ids" (arr nil) authorization.request.metadata)) [
          | err e ↦ err e
          | ok found ↦
              if found
              then ok authorization
              else err (value_error "Skill is outside the authorization approval scope" [])
        ]

-- the authorization that a call names, if it names one
unfoldable pub find_authorization :
    Skill → Option String → Option String → Company → Outcome (Option ApprovalRequest)
find_authorization skill task_id none c = ok none
find_authorization skill task_id (some approval_id) c = elim (get approval_id c.approvals) [
  | err e ↦ err e
  | ok found ↦ elim (check_authorization skill task_id found) [
    | err e ↦ err e
    | ok authorization ↦ ok (some authorization)
  ]
]

abbrev pub new_skill_run :
    Skill → String → Fields → String → Option String → RiskAssessment → String → Instant → SkillRun
new_skill_run skill actor_id input reason task_id risk run_id created_at = record {
  skill_id = skill.skill_id;
  actor_id = actor_id;
  input = input;
  reason = reason;
  task_id = task_id;
  status = SkillRunStatus.requested;
  result = none;
  risk_level = risk.level;
  approval_id = none;
  error = none;
  run_id = run_id;
  created_at = created_at;
  completed_at = none;
}

-- `skill_id in agent.allowed_skills and agent_id in skill.allowed_agents`
abbrev pub are_matched : Skill → Agent → Bool
are_matched skill agent =
    contains skill.skill_id agent.allowed_skills && contains agent.agent_id skill.allowed_agents

module _ (env : Env) where
  -- a run that needs an approval, with or without an authorization
  unfoldable pub authorize_run :
      Skill
      → ActionRequest
      → RiskAssessment
      → SkillRun
      → Option ApprovalRequest
      → Action (SkillRun × ApprovalStatus)
  authorize_run skill request risk run (some authorization) = do
    run' ← execute_skill_run env (record run { approval_id = some authorization.approval_id }) skill
    pure (run', authorization.status)
  authorize_run skill request risk run none = do
    approval ←
        ask_approval env request risk ("Run " <> skill.name <> " for a controlled task step.")
          "Skill output could be incorrect, unsafe, or create unintended internal state."
    pure (
      record run {
        status = SkillRunStatus.waiting_approval;
        approval_id = some approval.approval_id;
      },
      approval.status,
    )

  abbrev without_approval : Action SkillRun → Action (SkillRun × ApprovalStatus)
  without_approval m = do run ← m; pure (run, ApprovalStatus.not_required)

  -- the chain of tests of `request_skill_run`
  unfoldable pub admit_skill_run :
      Skill
      → Agent
      → ActionRequest
      → RiskAssessment
      → PermissionResult
      → Option ApprovalRequest
      → SkillRun
      → Action (SkillRun × ApprovalStatus)
  admit_skill_run skill agent request risk permission authorization run =
      if not skill.enabled
      then without_approval (stop_run env SkillRunStatus.blocked "skill is disabled" run)
      else if not (are_matched skill agent)
      then without_approval
          (stop_run env SkillRunStatus.blocked "skill is not authorized for this agent" run)
      else if risk.blocked || is_block permission.decision
      then without_approval (stop_run env SkillRunStatus.blocked (block_reason permission risk) run)
      else if risk.requires_approval || is_require_approval permission.decision
      then authorize_run skill request risk run authorization
      else without_approval (execute_skill_run env run skill)

  -- the incident of a blocked run
  unfoldable pub report_blocked_skill : SkillRun → Action Unit
  report_blocked_skill run =
      if is_blocked run.status
      then (do
        report_incident env "Skill run blocked"
            (text_or "Skill run was blocked by policy." run.error) "skill_run" run.run_id
            run.risk_level run.task_id (some run.actor_id)
            "Review Skill enablement, symmetric Agent authorization, risk, and permission boundaries."
        pure tt)
      else pure tt

  -- what `request_skill_run` does once the run is decided: store, report and log it
  unfoldable pub file_skill_run :
      ActionRequest → RiskAssessment → SkillRun × ApprovalStatus → Action SkillRun
  file_skill_run request risk (run, approval_status) = do
    modify (λ c. record c { skill_runs = put run.run_id run c.skill_runs })
    report_blocked_skill run
    log_event env "skill_run_requested" run.actor_id request.action run.task_id risk.level
        approval_status (skill_run_status_value run.status) (some run.reason) (some run.run_id)
        run.error
    pure run

  unfoldable pub request_skill_run :
      String → String → Fields → String → Option String → Option String → Action SkillRun
  unfolding new_id utc_now
  request_skill_run skill_id actor_id input reason task_id authorization_id = do
    skill ← asks (λ c. get skill_id c.skills)
    agent ← asks (λ c. get actor_id c.agents)
    let request = skill_request skill actor_id task_id reason
    let risk = assess_skill_request skill request
    permission ← lift (evaluate agent request)
    run_id ← new_id env "skill_run"
    created_at ← utc_now env
    authorization ← asks (find_authorization skill task_id authorization_id)
    decided ←
        admit_skill_run skill agent request risk permission authorization
          (new_skill_run skill actor_id input reason task_id risk run_id created_at)
    file_skill_run request risk decided

-- ===== src/Service/Schedules/Control.antt =====
-- Creating, pausing, resuming and cancelling a schedule (backend/app/services/company.py).
use bug_free_enigma.Base.{
  ℕ, String, Bool, true, false, not, ◌&&◌, ◌||◌, Option, none, some, [], ◌∷◌, Outcome, ok, err,
  value_error, is_some, ltb, ◌=ℕ◌, ◌==◌, if◌then◌else◌,
}
use bug_free_enigma.Base.Dict.{get, put}
use bug_free_enigma.Base.Text.{is_blank, strip, ◌<>◌}
use bug_free_enigma.Core.Enums.{
  PermissionLevel, ActionDecision, RiskLevel, ApprovalStatus, ScheduleAction, ScheduleStatus,
}
use bug_free_enigma.Core.Values.{schedule_action_value, schedule_status_value}
use bug_free_enigma.Core.Time.{Instant, DateTime, aware_utc}
use bug_free_enigma.Core.Json.{str, Fields, end, field, text_at}
use bug_free_enigma.Core.Models.Control.{ActionRequest}
use bug_free_enigma.Core.Models.Schedule.{ScheduledJob}
use bug_free_enigma.Safety.Risk.{assess}
use bug_free_enigma.Safety.Permissions.{evaluate}
use bug_free_enigma.Service.State.{Env, Company}
use bug_free_enigma.Service.Actions.{
  Action, pure, lift, asks, guard, modify, ◌>>=◌, ◌>>◌, new_id, utc_now,
}
use bug_free_enigma.Service.Records.{log_event, publish_domain_event}

abbrev pub is_active : ScheduleStatus → Bool
is_active ScheduleStatus.active = true
is_active _ = false

abbrev pub is_paused : ScheduleStatus → Bool
is_paused ScheduleStatus.paused = true
is_paused _ = false

-- `SchedulerStore.create`, and every later write of a job
abbrev pub store_job : ScheduledJob → Action Unit
store_job job = modify (λ c. record c { jobs = put job.schedule_id job c.jobs })

-- `SchedulerStore.get`
abbrev pub find_job : String → Action ScheduledJob
find_job schedule_id = asks (λ c. get schedule_id c.jobs)

abbrev pub schedule_request : String → ActionRequest
schedule_request actor_id = record {
  action = "create_schedule";
  actor_id = actor_id;
  task_id = none;
  permission_level = PermissionLevel.l2_internal_write;
  reason = "Create an internal scheduled job.";
  target = some "scheduler";
  reversible = true;
  metadata = end;
}

abbrev allows : ActionDecision → Bool
allows ActionDecision.allow = true
allows _ = false

-- `_authorize_schedule_actor`
unfoldable pub authorize_schedule_actor : String → Action Unit
authorize_schedule_actor actor_id = if actor_id == "human_root" then pure tt else (do
  agent ← asks (λ c. get actor_id c.agents)
  permission ← lift (evaluate agent (schedule_request actor_id))
  let risk = assess (schedule_request actor_id)
  guard (not (allows permission.decision) || risk.blocked || risk.requires_approval)
      (value_error "schedule creation is not allowed" (permission.reason ∷ [])))

-- `_authorize_schedule_control`
unfoldable pub authorize_schedule_control : ScheduledJob → String → Action Unit
authorize_schedule_control job actor_id = do
  guard (not (actor_id == "human_root") && not (actor_id == job.created_by))
      (value_error "only human_root or the schedule creator can change this schedule" [])
  authorize_schedule_actor actor_id

abbrev filled : Option String → Bool
filled none = false
filled (some s) = not (is_blank s)

abbrev text_of : Option String → String
text_of none = ""
text_of (some s) = s

-- `_validate_schedule_payload`, of a payload that is an object
unfoldable pub validate_schedule_payload : ScheduleAction → Fields → Company → Outcome Fields
validate_schedule_payload ScheduleAction.create_task payload c =
    let title = text_at "title" payload in
    let description = text_at "description" payload in
    if not (filled title)
    then err (value_error "create_task schedule requires a title" [])
    else if not (filled description)
    then err (value_error "create_task schedule requires a description" [])
    else ok (
        field "title" (str (strip (text_of title)))
          (field "description" (str (strip (text_of description))) end))
validate_schedule_payload ScheduleAction.run_task payload c =
    let task_id = text_at "task_id" payload in
    if not (filled task_id)
    then err (value_error "run_task schedule requires a task_id" [])
    else elim (get (text_of task_id) c.tasks) [
      | err e ↦ err e
      | ok task ↦ ok (field "task_id" (str (text_of task_id)) end)
    ]

abbrev pub too_short : Option ℕ → Bool
too_short none = false
too_short (some s) = ltb s 60

abbrev pub is_zero : Option ℕ → Bool
is_zero none = false
is_zero (some n) = n =ℕ 0

-- `max_runs is not None and max_runs != 1`
abbrev pub not_one : Option ℕ → Bool
not_one none = false
not_one (some n) = not (n =ℕ 1)

module _ (env : Env) where
  -- `_record_schedule_state_change`
  unfoldable pub record_schedule_state_change : ScheduledJob → String → String → Action Unit
  record_schedule_state_change job actor_id transition = do
    publish_domain_event env ("schedule." <> transition) "schedule" job.schedule_id actor_id
        (field "status" (str (schedule_status_value job.status)) end)
        (text_at "task_id" job.payload)
    log_event env ("scheduled_job_" <> transition) actor_id (transition <> "_schedule")
        (text_at "task_id" job.payload) RiskLevel.low ApprovalStatus.not_required
        (schedule_status_value job.status) none (some job.schedule_id) none

  -- what `create_scheduled_job` does once the input is accepted
  unfoldable pub new_job :
      String
      → ScheduleAction
      → Fields
      → String
      → Instant
      → Option ℕ
      → Option ℕ
      → Action ScheduledJob
  unfolding new_id utc_now
  new_job name action payload created_by next_run_at interval_seconds max_runs = do
    schedule_id ← new_id env "schedule"
    created_at ← utc_now env
    updated_at ← utc_now env
    pure (record {
      name = strip name;
      action = action;
      payload = payload;
      created_by = created_by;
      next_run_at = next_run_at;
      interval_seconds = interval_seconds;
      max_runs = max_runs;
      schedule_id = schedule_id;
      status = ScheduleStatus.active;
      run_count = 0;
      failure_count = 0;
      last_run_at = none;
      last_error = none;
      created_at = created_at;
      updated_at = updated_at;
    })

  unfoldable pub record_creation : ScheduledJob → Action Unit
  record_creation job = do
    publish_domain_event env "schedule.created" "schedule" job.schedule_id job.created_by
        (field "action" (str (schedule_action_value job.action))
          (field "next_run_at" (str (env.isoformat job.next_run_at)) end))
        (text_at "task_id" job.payload)
    log_event env "scheduled_job_created" job.created_by "create_schedule"
        (text_at "task_id" job.payload) RiskLevel.low ApprovalStatus.not_required
        (schedule_status_value job.status) (some (schedule_action_value job.action))
        (some job.schedule_id) none

  unfoldable pub create_scheduled_job :
      String
      → ScheduleAction
      → Fields
      → String
      → DateTime
      → Option ℕ
      → Option ℕ
      → Action ScheduledJob
  create_scheduled_job name action payload created_by next_run_at interval_seconds max_runs = do
    guard (is_blank name) (value_error "schedule name is required" [])
    authorize_schedule_actor created_by
    first_run ← lift (aware_utc next_run_at "next_run_at")
    guard (too_short interval_seconds)
        (value_error "recurring schedule interval must be at least 60 seconds" [])
    guard (is_zero max_runs) (value_error "schedule max_runs must be greater than zero" [])
    guard (not (is_some interval_seconds) && not_one max_runs)
        (value_error "one-time schedules can only use max_runs=1" [])
    clean_payload ← asks (validate_schedule_payload action payload)
    job ← new_job name action clean_payload created_by first_run interval_seconds max_runs
    store_job job
    record_creation job
    pure job

  -- the writes of the three methods that change a status
  unfoldable pub change_status :
      ScheduledJob → ScheduleStatus → String → String → Action ScheduledJob
  unfolding utc_now
  change_status job status actor_id transition = do
    now ← utc_now env
    let job' : ScheduledJob = record job { status = status; updated_at = now }
    store_job job'
    record_schedule_state_change job' actor_id transition
    pure job'

  unfoldable pub pause_scheduled_job : String → String → Action ScheduledJob
  pause_scheduled_job schedule_id actor_id = do
    job ← find_job schedule_id
    authorize_schedule_control job actor_id
    guard (not (is_active job.status)) (value_error "only active schedules can be paused" [])
    change_status job ScheduleStatus.paused actor_id "paused"

  unfoldable pub resume_scheduled_job : String → String → Action ScheduledJob
  resume_scheduled_job schedule_id actor_id = do
    job ← find_job schedule_id
    authorize_schedule_control job actor_id
    guard (not (is_paused job.status)) (value_error "only paused schedules can be resumed" [])
    change_status job ScheduleStatus.active actor_id "resumed"

  unfoldable pub cancel_scheduled_job : String → String → Action ScheduledJob
  cancel_scheduled_job schedule_id actor_id = do
    job ← find_job schedule_id
    authorize_schedule_control job actor_id
    guard (not (is_active job.status || is_paused job.status))
        (value_error "only active or paused schedules can be cancelled" [])
    change_status job ScheduleStatus.cancelled actor_id "cancelled"

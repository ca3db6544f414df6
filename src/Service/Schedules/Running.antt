-- ===== src/Service/Schedules/Running.antt =====
-- `create_task` and `_execute_scheduled_job` of backend/app/services/company.py. What `run_task`
-- does, the whole document workflow, is an argument.
use bug_free_enigma.Base.{
  ◌+◌, String, Bool, true, false, not, ◌&&◌, Option, none, some, [], ◌∷◌, Outcome, ok, err,
  key_error, value_error, is_some, leb, ◌==◌, if◌then◌else◌,
}
use bug_free_enigma.Base.Dict.{lookup, get, put}
use bug_free_enigma.Base.Text.{text_or, prefix, ◌<>◌}
use bug_free_enigma.Core.Enums.{
  RiskLevel, ApprovalStatus, TaskStatus, ScheduleAction, ScheduleStatus, ScheduleExecutionStatus,
}
use bug_free_enigma.Core.Values.{schedule_action_value, schedule_execution_status_value}
use bug_free_enigma.Core.Time.{Instant, add_seconds}
use bug_free_enigma.Core.Json.{Value, null, str, Fields, end, field, text_at}
use bug_free_enigma.Core.Models.Work.{Task}
use bug_free_enigma.Core.Models.Schedule.{ScheduledJob, ScheduledExecution}
use bug_free_enigma.Service.State.{Env}
use bug_free_enigma.Service.Actions.{
  Action, pure, raise, lift, asks, gets, guard, modify, ◌>>=◌, ◌>>◌, new_id,
}
use bug_free_enigma.Service.Records.{log_event, publish_domain_event, report_incident}
use bug_free_enigma.Service.Schedules.Control.{store_job}

-- What the result of `run_task` says.
pub record TaskOutcome : Type 0 where
  pub blocked : Bool
  pub output : Option String

-- `run_task`, by the identifier of the task
abbrev pub TaskRunner : Type 0
TaskRunner = String → Action TaskOutcome

abbrev is_completed : TaskStatus → Bool
is_completed TaskStatus.completed = true
is_completed _ = false

abbrev first_of : Option String → Option String → Option String
first_of none other = other
first_of (some s) other = if s == "" then other else some s

-- `d[k]` of a payload whose values are texts
abbrev text_in : String → Fields → Outcome String
text_in k payload = elim (text_at k payload) [ none ↦ err (key_error k) | some s ↦ ok s ]

-- the counters after an attempt
abbrev pub counted : ScheduledJob → Instant → Option String → ScheduledJob
counted job now error = record job {
  run_count = job.run_count + 1;
  last_run_at = some now;
  last_error = error;
  failure_count = if is_some error then job.failure_count + 1 else job.failure_count;
}

abbrev pub reached_limit : ScheduledJob → Bool
reached_limit job = elim job.max_runs [ none ↦ false | some n ↦ leb n job.run_count ]

abbrev pub ended : ScheduledJob → Instant → Option String → ScheduledJob
ended job now error = record job {
  status = if is_some error then ScheduleStatus.failed else ScheduleStatus.completed;
  updated_at = now;
}

abbrev pub advanced : ScheduledJob → Instant → Instant → ScheduledJob
advanced job now next_run_at = record job {
  next_run_at = next_run_at;
  status = ScheduleStatus.active;
  updated_at = now;
}

abbrev pub after_addition : ScheduledJob → Instant → Outcome Instant → Outcome ScheduledJob
after_addition job now (ok next_run_at) = ok (advanced job now next_run_at)
after_addition job now (err e) = err e

-- the status and the next time after an attempt that is counted; the addition may overflow
unfoldable pub after_attempt : ScheduledJob → Instant → Option String → Outcome ScheduledJob
after_attempt job now error = elim job.interval_seconds [
  | none ↦ ok (ended job now error)
  | some seconds ↦
      if reached_limit job
      then ok (ended job now error)
      else after_addition job now (add_seconds now seconds)
]

-- the writes to the job; the counters stay written when the addition overflows
unfoldable pub settle : ScheduledJob → Instant → Option String → Action ScheduledJob
settle job now error = do
  store_job (counted job now error)
  job' ← lift (after_attempt (counted job now error) now error)
  store_job job'
  pure job'

module _ (env : Env) where
  abbrev new_task : String → String → String → String → Task
  new_task title description user_id task_id = record {
    title = title;
    description = description;
    user_id = user_id;
    task_id = task_id;
    status = TaskStatus.created;
    result = none;
    risk_level = RiskLevel.low;
    approval_id = none;
    history = TaskStatus.created ∷ [];
  }

  abbrev add_task : Task → Action Task
  add_task task = do modify (λ c. record c { tasks = put task.task_id task c.tasks }); pure task

  -- a task of a given identifier, which may be there already
  abbrev task_with_id : String → String → String → String → Option Task → Action Task
  task_with_id title description user_id task_id none =
      add_task (new_task title description user_id task_id)
  task_with_id title description user_id task_id (some task) =
      if not (task.title == title && task.description == description && task.user_id == user_id)
      then raise (value_error "task_id already exists with different task input" [])
      else pure task

  unfoldable pub create_task : String → String → String → Option String → Action Task
  unfolding new_id
  create_task title description user_id none = do
    task_id ← new_id env "task"
    add_task (new_task title description user_id task_id)
  create_task title description user_id (some task_id) = do
    existing ← gets (λ c. lookup task_id c.tasks)
    task_with_id title description user_id task_id existing

  abbrev pub scheduled_task_id : Option String → Option String
  scheduled_task_id none = none
  scheduled_task_id (some token) = some ("task_schedule_" <> prefix 20 (env.sha256 token))

  -- the identifier that an action gives out
  abbrev reference : ScheduledJob → Option String
  reference job = elim job.action [
    | ScheduleAction.create_task ↦ none
    | ScheduleAction.run_task ↦ text_at "task_id" job.payload
  ]

  module _ (run_task : TaskRunner) where
    -- the test of `run_task` in a delivery of the queue
    abbrev is_done : Option String → String → Action Bool
    is_done none task_id = pure false
    is_done (some token) task_id = do
      task ← asks (λ c. get task_id c.tasks)
      pure (is_completed task.status)

    abbrev run_unless : Bool → String → Action Unit
    run_unless true task_id = pure tt
    run_unless false task_id = do
      result ← run_task task_id
      guard result.blocked
          (value_error (text_or "scheduled task execution was blocked" result.output) [])

    -- what stands under `try`
    unfoldable pub perform : ScheduleAction → ScheduledJob → Option String → Action (Option String)
    perform ScheduleAction.create_task job token = do
      title ← lift (text_in "title" job.payload)
      description ← lift (text_in "description" job.payload)
      task ← create_task title description job.created_by (scheduled_task_id token)
      pure (some task.task_id)
    perform ScheduleAction.run_task job token = do
      task_id ← lift (text_in "task_id" job.payload)
      done ← is_done token task_id
      run_unless done task_id
      pure (some task_id)

    -- `output_ref` and `error` after the `try` statement
    abbrev caught : ScheduledJob → Outcome (Option String) → Option String × Option String
    caught job (ok output_ref) = (output_ref, none)
    caught job (err e) = (reference job, some (env.error_text e))

    unfoldable pub attempt : ScheduledJob → Option String → Action (Option String × Option String)
    attempt job token c = let (r, c') = perform job.action job token c in (ok (caught job r), c')

  abbrev execution_status : Option String → ScheduleExecutionStatus
  execution_status none = ScheduleExecutionStatus.completed
  execution_status (some _) = ScheduleExecutionStatus.failed

  abbrev or_null : Option String → Value
  or_null none = null
  or_null (some s) = str s

  -- the incident of an attempt that failed
  unfoldable pub report_failure : ScheduledJob → String → Option String → Action Unit
  report_failure job actor_id none = pure tt
  report_failure job actor_id (some error) = do
    report_incident env "Scheduled job failed"
        ("Schedule " <> job.schedule_id <> " failed: " <> error) "schedule" job.schedule_id
        RiskLevel.medium (text_at "task_id" job.payload) (some actor_id)
        "Inspect the schedule payload, target task state, and audit trail before retrying."
    pure tt

  -- the records of an attempt
  unfoldable pub record_attempt :
      ScheduledJob → String → Instant → Option String → Option String → Action ScheduledExecution
  unfolding new_id
  record_attempt job actor_id now output_ref error = do
    execution_id ← new_id env "schedule_run"
    let execution : ScheduledExecution = record {
      schedule_id = job.schedule_id;
      action = job.action;
      status = execution_status error;
      actor_id = actor_id;
      output_ref = output_ref;
      error = error;
      execution_id = execution_id;
      started_at = now;
      completed_at = now;
    }
    modify (λ c. record c { executions = put execution_id execution c.executions })
    publish_domain_event env
        ("schedule.execution." <> schedule_execution_status_value execution.status) "schedule"
        job.schedule_id actor_id
        (field "execution_id" (str execution_id) (
          field "action" (str (schedule_action_value job.action))
            (field "output_ref" (or_null output_ref) (field "error" (or_null error) end))))
        (first_of (text_at "task_id" job.payload) output_ref)
    log_event env ("scheduled_job_" <> schedule_execution_status_value execution.status) actor_id
        (schedule_action_value job.action) (first_of (text_at "task_id" job.payload) output_ref)
        (if is_some error then RiskLevel.medium else RiskLevel.low) ApprovalStatus.not_required
        (schedule_execution_status_value execution.status) (some job.schedule_id) output_ref error
    report_failure job actor_id error
    pure execution

  -- what `_execute_scheduled_job` does after the `try` statement
  unfoldable pub conclude :
      ScheduledJob → String → Instant → Option String × Option String → Action ScheduledExecution
  conclude job actor_id now (output_ref, error) = do
    job' ← settle job now error
    record_attempt job' actor_id now output_ref error

  -- `_execute_scheduled_job`
  unfoldable pub execute_scheduled_job :
      TaskRunner → ScheduledJob → String → Instant → Option String → Action ScheduledExecution
  execute_scheduled_job run_task job actor_id now token = do
    tried ← attempt run_task job token
    conclude job actor_id now tried

-- ===== src/Service/Schedules/Ticks.antt =====
-- Due jobs, ticks, and deliveries of the queue (backend/app/services/company.py).
use bug_free_enigma.Base.{
  ℕ, zero, suc, String, Bool, not, ◌&&◌, ◌||◌, Option, none, some, List, [], ◌∷◌, length, filter,
  value_error, ltb, leb, text_le, ◌=ℕ◌, ◌==◌, if◌then◌else◌,
}
use bug_free_enigma.Base.Dict.{values}
use bug_free_enigma.Base.Text.{show, ◌<>◌}
use bug_free_enigma.Core.Enums.{RiskLevel, ApprovalStatus}
use bug_free_enigma.Core.Values.{schedule_execution_status_value}
use bug_free_enigma.Core.Time.{Instant, DateTime, aware_utc}
use bug_free_enigma.Core.Json.{text_at}
use bug_free_enigma.Core.Models.Schedule.{ScheduledJob, ScheduledExecution}
use bug_free_enigma.Service.State.{Env, Company}
use bug_free_enigma.Service.Actions.{Action, pure, lift, gets, guard, ◌>>=◌, ◌>>◌, utc_now}
use bug_free_enigma.Service.Records.{log_event}
use bug_free_enigma.Service.Schedules.Control.{is_active, find_job}
use bug_free_enigma.Service.Schedules.Running.{TaskRunner, execute_scheduled_job}

-- An active job whose time has come.
abbrev pub is_due : Instant → ScheduledJob → Bool
is_due now job = is_active job.status && leb job.next_run_at now

-- the order of the keys `(next_run_at, schedule_id)`
abbrev pub job_le : ScheduledJob → ScheduledJob → Bool
job_le a b =
    ltb a.next_run_at b.next_run_at
    || a.next_run_at =ℕ b.next_run_at && text_le a.schedule_id b.schedule_id

abbrev pub insert_job : ScheduledJob → List ScheduledJob → List ScheduledJob
insert_job j [] = j ∷ []
insert_job j (k ∷ ks) = let rest = insert_job j ks in if job_le j k then j ∷ k ∷ ks else k ∷ rest

-- `sorted(jobs, key=...)`
unfoldable pub sort_jobs : List ScheduledJob → List ScheduledJob
sort_jobs [] = []
sort_jobs (j ∷ js) = insert_job j (sort_jobs js)

-- `jobs[:limit]`
abbrev pub take {ℓ} : {A : Type ℓ} → ℕ → List A → List A
take zero xs = []
take (suc n) [] = []
take (suc n) (x ∷ xs) = x ∷ take n xs

-- the jobs that `list_due_scheduled_jobs` lists
abbrev pub due_jobs : Instant → ℕ → Company → List ScheduledJob
due_jobs now limit c = take limit (sort_jobs (filter (is_due now) (values c.jobs)))

abbrev pub bad_limit : ℕ → Bool
bad_limit limit = limit =ℕ 0 || ltb 100 limit

-- What a delivery of the queue comes to.
pub data QueuedResult : Type 0 where
  skipped : String → QueuedResult
  executed : ScheduledExecution → QueuedResult

module _ (env : Env) where
  -- `self._aware_utc(now or utc_now(), "now")`
  unfoldable pub time_or_now : Option DateTime → Action Instant
  unfolding utc_now
  time_or_now none = utc_now env
  time_or_now (some t) = lift (aware_utc t "now")

  unfoldable pub list_due_scheduled_jobs : Option DateTime → ℕ → Action (List ScheduledJob)
  list_due_scheduled_jobs now limit = do
    guard (bad_limit limit) (value_error "scheduler due-job limit must be between 1 and 100" [])
    tick_time ← time_or_now now
    gets (due_jobs tick_time limit)

  -- what a tick writes of itself
  unfoldable pub record_tick :
      String → Instant → List ScheduledExecution → Action (List ScheduledExecution)
  record_tick actor_id tick_time executions = do
    log_event env "scheduler_tick" actor_id "tick_scheduler" none RiskLevel.low
        ApprovalStatus.not_required (show (length executions) <> " executed")
        (some (env.isoformat tick_time)) none none
    pure executions

  module _ (run_task : TaskRunner) where
    -- The comprehension over the due jobs. Listed as plain data, they are got again under their
    -- identifiers, which gives the same objects.
    unfoldable pub execute_all :
        List ScheduledJob → String → Instant → Action (List ScheduledExecution)
    execute_all [] actor_id now = pure []
    execute_all (job ∷ jobs) actor_id now = do
      execution ← execute_scheduled_job env run_task job actor_id now none
      rest ← execute_all jobs actor_id now
      pure (execution ∷ rest)

    -- a tick whose time is known
    unfoldable pub run_tick : String → ℕ → Instant → Action (List ScheduledExecution)
    run_tick actor_id limit tick_time = do
      jobs ← list_due_scheduled_jobs (some (DateTime.aware tick_time)) limit
      executions ← execute_all jobs actor_id tick_time
      record_tick actor_id tick_time executions

    unfoldable pub tick_scheduler : String → Option DateTime → ℕ → Action (List ScheduledExecution)
    tick_scheduler actor_id now limit = do
      guard (not (actor_id == "human_root"))
          (value_error "only human_root can tick the scheduler" [])
      guard (bad_limit limit) (value_error "scheduler tick limit must be between 1 and 100" [])
      tick_time ← time_or_now now
      run_tick actor_id limit tick_time

    -- the part of `execute_queued_schedule` for a job that is due at the time of the delivery; a job
    -- is stored under its own identifier
    unfoldable pub run_delivery : ScheduledJob → Instant → String → Instant → Action QueuedResult
    run_delivery job expected actor_id now = do
      let token = job.schedule_id <> ":" <> env.isoformat expected
      execution ← execute_scheduled_job env run_task job actor_id now (some token)
      log_event env "scheduler_worker_execution" actor_id "execute_queued_schedule"
          (text_at "task_id" job.payload) RiskLevel.low ApprovalStatus.not_required
          (schedule_execution_status_value execution.status) (some token)
          (some execution.execution_id) execution.error
      pure (QueuedResult.executed execution)

    -- the tests of a delivery
    unfoldable pub deliver : ScheduledJob → Instant → String → Instant → Action QueuedResult
    deliver job expected actor_id execution_time =
        if not (is_active job.status) || not (job.next_run_at =ℕ expected)
        then pure (QueuedResult.skipped "schedule state no longer matches the queued delivery")
        else if ltb execution_time job.next_run_at
        then pure (QueuedResult.skipped "schedule is not due yet")
        else run_delivery job expected actor_id execution_time

    unfoldable pub execute_queued_schedule :
        String → String → String → Option DateTime → Action QueuedResult
    execute_queued_schedule schedule_id expected_next_run_at actor_id now = do
      guard (not env.has_store)
          (value_error "queued schedule execution requires durable persistence" [])
      guard (not (actor_id == "human_root"))
          (value_error "only human_root can execute queued schedules" [])
      parsed ← lift (env.fromisoformat expected_next_run_at)
      expected ← lift (aware_utc parsed "expected_next_run_at")
      execution_time ← time_or_now now
      job ← find_job schedule_id
      deliver job expected actor_id execution_time

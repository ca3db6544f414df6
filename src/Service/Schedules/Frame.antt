-- ===== src/Service/Schedules/Frame.antt =====
-- The parts of the operations on schedules that leave the schedules as they are
-- (backend/app/services/company.py).
use bug_free_enigma.Base.{
  inl, inr, arith, Option-cases, Outcome-cases, String, Option, none, some, List, ◌≡◌, refl,
}
use bug_free_enigma.Base.Dict.{lookup}
use bug_free_enigma.Base.Text.{◌<>◌}
use bug_free_enigma.Safety.Permissions.{evaluate}
use bug_free_enigma.Core.Enums.{RiskLevel, ScheduleAction}
use bug_free_enigma.Core.Time.{Instant, DateTime}
use bug_free_enigma.Core.Json.{text_at}
use bug_free_enigma.Core.Models.Schedule.{ScheduledJob, ScheduledExecution}
use bug_free_enigma.Service.State.{Env, Company}
use bug_free_enigma.Service.Actions.{new_id, utc_now, pure}
use bug_free_enigma.Service.Records.{log_event, publish_domain_event, report_incident}
use bug_free_enigma.Service.Records.Frame.{report_incident-Recorded}
use bug_free_enigma.Service.Schedules.Control.{
  schedule_request, authorize_schedule_actor, authorize_schedule_control,
  record_schedule_state_change, record_creation,
}
use bug_free_enigma.Service.Schedules.Running.{
  scheduled_task_id, TaskRunner, create_task, perform, attempt, report_failure, record_attempt,
}
use bug_free_enigma.Service.Schedules.Ticks.{record_tick, time_or_now}
use bug_free_enigma.Service.Schedules.Invariant.{KeepsJobs, KeepsJobs-bind}

pub KeepsJobs-authorize_schedule_actor : (i : String) → KeepsJobs (authorize_schedule_actor i)
unfolding authorize_schedule_actor
KeepsJobs-authorize_schedule_actor i c = elim (Option-cases (lookup i c.agents)) [
  | inl missing ↦ ground arith
  | inr (agent, e) ↦ ground (arith, Outcome-cases (evaluate agent (schedule_request i)))
]

pub KeepsJobs-authorize_schedule_control :
    (job : ScheduledJob) (i : String) → KeepsJobs (authorize_schedule_control job i)
unfolding authorize_schedule_control
KeepsJobs-authorize_schedule_control job i c =
    ground (arith, KeepsJobs-authorize_schedule_actor i c)

module _ (env : Env) where
  pub KeepsJobs-record_schedule_state_change :
      (job : ScheduledJob) (i transition : String)
      → KeepsJobs (record_schedule_state_change env job i transition)
  unfolding record_schedule_state_change publish_domain_event log_event new_id utc_now
  KeepsJobs-record_schedule_state_change job i transition c = refl

  pub KeepsJobs-record_creation : (job : ScheduledJob) → KeepsJobs (record_creation env job)
  unfolding record_creation publish_domain_event log_event new_id utc_now
  KeepsJobs-record_creation job c = refl

  KeepsJobs-report_failure :
      (job : ScheduledJob) (i : String) (error : Option String)
      → KeepsJobs (report_failure env job i error)
  unfolding report_failure
  KeepsJobs-report_failure job i none c = refl
  KeepsJobs-report_failure job i (some error) c =
      KeepsJobs-bind
        (report_incident env "Scheduled job failed"
          ("Schedule " <> job.schedule_id <> " failed: " <> error) "schedule" job.schedule_id
          RiskLevel.medium (text_at "task_id" job.payload) (some i)
          "Inspect the schedule payload, target task state, and audit trail before retrying.")
        (λ _. pure tt) (λ d. (report_incident-Recorded env _ _ _ _ _ _ _ _ d).same_jobs)
        (λ _ d. refl) c

  pub KeepsJobs-record_attempt :
      (job : ScheduledJob) (i : String) (now : Instant) (output_ref error : Option String)
      → KeepsJobs (record_attempt env job i now output_ref error)
  unfolding record_attempt publish_domain_event log_event new_id utc_now
  KeepsJobs-record_attempt job i now output_ref error c =
      KeepsJobs-bind (report_failure env job i error) _ (KeepsJobs-report_failure job i error)
        (λ _ d. refl) _

  pub KeepsJobs-time_or_now : (now : Option DateTime) → KeepsJobs (time_or_now env now)
  unfolding time_or_now
  KeepsJobs-time_or_now none c = unfold utc_now in refl
  KeepsJobs-time_or_now (some t) c = refl

  pub KeepsJobs-record_tick :
      (by : String) (t : Instant) (executions : List ScheduledExecution)
      → KeepsJobs (record_tick env by t executions)
  unfolding record_tick log_event new_id utc_now
  KeepsJobs-record_tick by t executions c = refl

  KeepsJobs-create_task :
      (title description user_id : String) (task_id : Option String)
      → KeepsJobs (create_task env title description user_id task_id)
  unfolding create_task
  KeepsJobs-create_task title description user_id none c = unfold new_id in refl
  KeepsJobs-create_task title description user_id (some task_id) c =
      ground (arith, Option-cases (lookup task_id c.tasks))

  module _ (run_task : TaskRunner) (keeps : (i : String) → KeepsJobs (run_task i)) where
    KeepsJobs-perform :
        (action : ScheduleAction) (job : ScheduledJob) (token : Option String)
        → KeepsJobs (perform env run_task action job token)
    unfolding perform
    KeepsJobs-perform ScheduleAction.create_task job token c =
        elim (Option-cases (text_at "title" job.payload)) [
          | inl no_title ↦ ground arith
          | inr (title, et) ↦ elim (Option-cases (text_at "description" job.payload)) [
            | inl no_description ↦ ground arith
            | inr (description, ed) ↦ ground (
              arith,
              KeepsJobs-create_task title description job.created_by (scheduled_task_id env token)
                  c,
            )
          ]
        ]
    KeepsJobs-perform ScheduleAction.run_task job token c =
        elim (Option-cases (text_at "task_id" job.payload)) [
          | inl no_task ↦ ground arith
          | inr (task_id, e) ↦
              ground
                (arith, keeps task_id c, Option-cases token, Option-cases (lookup task_id c.tasks))
        ]

    pub KeepsJobs-attempt :
        (job : ScheduledJob) (token : Option String) (c : Company)
        → (attempt env run_task job token c).1.jobs ≡ c.jobs
    unfolding attempt
    KeepsJobs-attempt job token c = KeepsJobs-perform job.action job token c

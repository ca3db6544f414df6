-- ===== src/Service/Schedules/Tests.antt =====
-- Runs of the schedules of backend/app/services/company.py on a small company.
use bug_free_enigma.Base.{
  ◌⊎◌, inl, String, true, false, none, some, [], ◌∷◌, map, length, ◌≡◌, ◌≤◌, refl, arith, ok, All,
}
use bug_free_enigma.Base.Dict.{lookup, put}
use bug_free_enigma.Base.Text.{show, prefix}
use bug_free_enigma.Core.Enums.{ScheduleAction, ScheduleStatus, ScheduleExecutionStatus}
use bug_free_enigma.Core.Time.{DateTime, add_seconds, aware_utc}
use bug_free_enigma.Core.Json.{str, end, field, member}
use bug_free_enigma.Core.Models.Schedule.{ScheduledJob, ScheduledExecution}
use bug_free_enigma.Service.State.{Company}
use bug_free_enigma.Service.Sample.{env, company}
use bug_free_enigma.Service.Actions.{new_id, utc_now}
use bug_free_enigma.Service.Records.{log_event, publish_domain_event}
use bug_free_enigma.Service.Schedules.Running.{
  TaskRunner, create_task, perform, attempt, after_attempt, settle, report_failure, record_attempt,
  conclude, execute_scheduled_job,
}
use bug_free_enigma.Service.Schedules.Ticks.{
  QueuedResult, is_due, due_jobs, sort_jobs, time_or_now, list_due_scheduled_jobs, execute_all,
  record_tick, run_tick, tick_scheduler, run_delivery, deliver, execute_queued_schedule,
}
use bug_free_enigma.Service.Schedules.Limits.{IsWithin}
use bug_free_enigma.Service.Schedules.Invariant.{AllWithin, KeepsJobs}
use bug_free_enigma.Service.Schedules.Reachable.{Step, Reach, Reach-AllWithin}
use bug_free_enigma.Service.Schedules.Listing.{Has, InOrder, Has-due_jobs}
use bug_free_enigma.Service.Schedules.Exactness.{tick_scheduler_exact}
use bug_free_enigma.Service.Schedules.Replay.{execute_queued_schedule_once}

-- a runner that finishes every task and changes nothing
abbrev finishes : TaskRunner
finishes task_id c = (ok (record { blocked = false; output = none }), c)

keeps : (i : String) → KeepsJobs (finishes i)
keeps i c = refl

abbrev daily : ScheduledJob
daily = record {
  name = "Daily";
  action = ScheduleAction.create_task;
  payload = field "title" (str "Report") (field "description" (str "Write it") end);
  created_by = "human_root";
  next_run_at = 60;
  interval_seconds = some 86400;
  max_runs = some 2;
  schedule_id = "schedule_1";
  status = ScheduleStatus.active;
  run_count = 0;
  failure_count = 0;
  last_run_at = none;
  last_error = none;
  created_at = 0;
  updated_at = 0;
}

abbrev scheduled : Company
scheduled = record company { jobs = ("schedule_1", daily) ∷ [] }

daily-IsWithin : IsWithin daily
daily-IsWithin = record {
  attempts = λ n e. ground arith;
  left = λ n e o. ground arith;
  spaced = λ s e. ground arith;
  single = λ e. ground arith;
  untried = λ e o. refl;
}

abbrev run_of_daily : ScheduledExecution
run_of_daily = record {
  schedule_id = "schedule_1";
  action = ScheduleAction.create_task;
  status = ScheduleExecutionStatus.completed;
  actor_id = "human_root";
  output_ref = some "task_a";
  error = none;
  execution_id = "schedule_run_a";
  started_at = 60;
  completed_at = 60;
}

daily_ticks :
    (tick_scheduler env finishes "human_root" (some (DateTime.aware 60)) 10 scheduled).0
    ≡ ok (run_of_daily ∷ [])
unfolding tick_scheduler run_tick time_or_now aware_utc list_due_scheduled_jobs sort_jobs
    execute_all execute_scheduled_job attempt perform create_task conclude settle after_attempt
    add_seconds record_attempt report_failure record_tick log_event publish_domain_event new_id
    utc_now lookup put member
daily_ticks = refl

abbrev delivery_of_daily : ScheduledExecution
delivery_of_daily = record run_of_daily { output_ref = some "task_schedule_schedule_1:60" }

daily_is_delivered :
    (execute_queued_schedule env finishes "schedule_1" "60" "human_root"
      (some (DateTime.aware 60))
      scheduled).0
    ≡ ok (QueuedResult.executed delivery_of_daily)
unfolding execute_queued_schedule deliver run_delivery time_or_now aware_utc execute_scheduled_job
    attempt perform create_task conclude settle after_attempt add_seconds record_attempt
    report_failure log_event publish_domain_event new_id utc_now lookup put member prefix show
daily_is_delivered = refl

abbrev root : String
root = "human_root"

tick_scheduler_exact_example :
    (root ≡ "human_root")
    × (map (λ (x : ScheduledExecution). x.schedule_id) (run_of_daily ∷ [])
        ≡ map (λ (j : ScheduledJob). j.schedule_id) (due_jobs 60 10 scheduled))
    × All (λ (j : ScheduledJob). is_due 60 j ≡ true) (due_jobs 60 10 scheduled)
    × InOrder (due_jobs 60 10 scheduled)
    × (length (due_jobs 60 10 scheduled) ≤ 10)
tick_scheduler_exact_example = tick_scheduler_exact env finishes root 60 10 scheduled daily_ticks

execute_queued_schedule_once_example :
    (execute_queued_schedule env finishes "schedule_1" "60" "human_root"
      (some (DateTime.aware 90))
      (execute_queued_schedule env finishes "schedule_1" "60" "human_root"
        (some (DateTime.aware 60))
        scheduled).1).0
    ≡ ok (QueuedResult.skipped "schedule state no longer matches the queued delivery")
execute_queued_schedule_once_example =
    execute_queued_schedule_once env finishes "schedule_1" "60" "human_root" 60 90 scheduled
      (refl, tt) (daily-IsWithin, tt) daily_is_delivered

Reach-AllWithin_example :
    AllWithin (tick_scheduler env finishes "human_root" (some (DateTime.aware 60)) 10 scheduled).1
Reach-AllWithin_example =
    Reach-AllWithin env finishes keeps (daily-IsWithin, tt)
      (Reach.next Reach.here (Step.ticked "human_root" (some (DateTime.aware 60)) 10))

Has-due_jobs_example :
    Has daily (due_jobs 60 10 scheduled) ⊎ (length (due_jobs 60 10 scheduled) ≡ 10)
Has-due_jobs_example = Has-due_jobs 60 10 scheduled daily (inl refl) refl

-- ===== src/Service/Schedules/Operations.antt =====
-- The operations on schedules, one by one and in any sequence (backend/app/services/company.py).
use bug_free_enigma.Base.{
  ℕ, String, true, not, ◌||◌, ◌&&◌, Option, [], ◌≡◌, refl, arith, value_error, is_some,
}
use bug_free_enigma.Base.Dict.{All-put}
use bug_free_enigma.Base.Text.{is_blank}
use bug_free_enigma.Core.Enums.{ScheduleAction, ScheduleStatus}
use bug_free_enigma.Core.Time.{Instant, DateTime, aware_utc}
use bug_free_enigma.Core.Json.{Fields}
use bug_free_enigma.Core.Models.Schedule.{ScheduledJob}
use bug_free_enigma.Service.State.{Env}
use bug_free_enigma.Service.Actions.{lift, asks, guard, new_id, utc_now}
use bug_free_enigma.Service.Actions.Hoare.{Keeps, Keeps-bind, Keeps-guard}
use bug_free_enigma.Service.Records.{log_event, publish_domain_event}
use bug_free_enigma.Service.Schedules.Control.{
  is_active, is_paused, find_job, too_short, is_zero, not_one, authorize_schedule_actor,
  authorize_schedule_control, validate_schedule_payload, record_schedule_state_change,
  record_creation, new_job, change_status, create_scheduled_job, pause_scheduled_job,
  resume_scheduled_job, cancel_scheduled_job,
}
use bug_free_enigma.Service.Schedules.Limits.{IsWithin}
use bug_free_enigma.Service.Schedules.Invariant.{AllWithin, Keeps-KeepsJobs, Keeps-find_job}
use bug_free_enigma.Service.Schedules.Frame.{
  KeepsJobs-authorize_schedule_actor, KeepsJobs-authorize_schedule_control,
}

-- Nothing is asked of the result.
abbrev pub Any : {A : Type 0} → A → Type 0
Any _ = Unit {0}

with_status :
    (job : ScheduledJob) (status : ScheduleStatus) (now : Instant)
    → IsWithin job
    → (is_active job.status || is_paused job.status) ≡ true
    → IsWithin (record job { status = status; updated_at = now })
with_status job status now w o = record {
  attempts = w.attempts;
  left = λ n e _. w.left n e o;
  spaced = w.spaced;
  single = w.single;
  untried = λ e _. w.untried e o;
}

module _ (env : Env) where
  Keeps-change_status :
      (job : ScheduledJob) (status : ScheduleStatus) (i transition : String)
      → IsWithin job
      → (is_active job.status || is_paused job.status) ≡ true
      → Keeps AllWithin (change_status env job status i transition) Any
  unfolding change_status record_schedule_state_change publish_domain_event log_event new_id utc_now
  Keeps-change_status job status i transition w o = record {
    kept = λ c h. (
      All-put IsWithin job.schedule_id _ c.jobs
          (with_status job status (env.clock c.clock_reads) w o) h,
      tt,
    );
  }

  pub Keeps-pause_scheduled_job :
      (id by : String) → Keeps AllWithin (pause_scheduled_job env id by) Any
  unfolding pause_scheduled_job
  Keeps-pause_scheduled_job id by =
      Keeps-bind AllWithin (find_job id) _ (Keeps-find_job id) (λ job w.
        Keeps-bind AllWithin (authorize_schedule_control job by) _
          (Keeps-KeepsJobs _ (KeepsJobs-authorize_schedule_control job by))
          (λ _ _.
            Keeps-bind AllWithin
              (guard (not (is_active job.status))
                (value_error "only active schedules can be paused" []))
              _ (Keeps-guard AllWithin _ _)
              (λ _ g. Keeps-change_status job ScheduleStatus.paused by "paused" w (ground arith))))

  pub Keeps-resume_scheduled_job :
      (id by : String) → Keeps AllWithin (resume_scheduled_job env id by) Any
  unfolding resume_scheduled_job
  Keeps-resume_scheduled_job id by =
      Keeps-bind AllWithin (find_job id) _ (Keeps-find_job id) (λ job w.
        Keeps-bind AllWithin (authorize_schedule_control job by) _
          (Keeps-KeepsJobs _ (KeepsJobs-authorize_schedule_control job by))
          (λ _ _.
            Keeps-bind AllWithin
              (guard (not (is_paused job.status))
                (value_error "only paused schedules can be resumed" []))
              _ (Keeps-guard AllWithin _ _)
              (λ _ g. Keeps-change_status job ScheduleStatus.active by "resumed" w (ground arith))))

  pub Keeps-cancel_scheduled_job :
      (id by : String) → Keeps AllWithin (cancel_scheduled_job env id by) Any
  unfolding cancel_scheduled_job
  Keeps-cancel_scheduled_job id by =
      Keeps-bind AllWithin (find_job id) _ (Keeps-find_job id) (λ job w.
        Keeps-bind AllWithin (authorize_schedule_control job by) _
          (Keeps-KeepsJobs _ (KeepsJobs-authorize_schedule_control job by))
          (λ _ _.
            Keeps-bind AllWithin
              (guard (not (is_active job.status || is_paused job.status))
                (value_error "only active or paused schedules can be cancelled" []))
              _ (Keeps-guard AllWithin _ _)
              (λ _ g.
                Keeps-change_status job ScheduleStatus.cancelled by "cancelled" w (ground arith))))

  pub Keeps-create_scheduled_job :
      (name : String) (action : ScheduleAction) (payload : Fields) (by : String) (at : DateTime)
      (interval max : Option ℕ)
      → Keeps AllWithin (create_scheduled_job env name action payload by at interval max) Any
  unfolding create_scheduled_job new_job record_creation publish_domain_event log_event new_id
      utc_now
  Keeps-create_scheduled_job name action payload by at interval max =
      Keeps-bind AllWithin (guard (is_blank name) (value_error "schedule name is required" [])) _
        (Keeps-guard AllWithin _ _)
        (λ _ _.
          Keeps-bind AllWithin (authorize_schedule_actor by) _
            (Keeps-KeepsJobs _ (KeepsJobs-authorize_schedule_actor by))
            (λ _ _.
              Keeps-bind AllWithin (lift (aware_utc at "next_run_at")) _
                (Keeps-KeepsJobs (lift (aware_utc at "next_run_at")) (λ c. refl))
                (λ first_run _.
                  Keeps-bind AllWithin
                    (guard (too_short interval)
                      (value_error "recurring schedule interval must be at least 60 seconds" []))
                    _ (Keeps-guard AllWithin _ _)
                    (λ _ spaced.
                      Keeps-bind AllWithin
                        (guard (is_zero max)
                          (value_error "schedule max_runs must be greater than zero" []))
                        _ (Keeps-guard AllWithin _ _)
                        (λ _ some_run.
                          Keeps-bind AllWithin
                            (guard (not (is_some interval) && not_one max)
                              (value_error "one-time schedules can only use max_runs=1" []))
                            _ (Keeps-guard AllWithin _ _)
                            (λ _ once.
                              Keeps-bind AllWithin (asks (validate_schedule_payload action payload))
                                _
                                (Keeps-KeepsJobs (asks (validate_schedule_payload action payload))
                                  (λ c. refl))
                                (λ clean _. record {
                                  kept = λ c h. (
                                    All-put IsWithin _ _ c.jobs
                                        (record {
                                          attempts = λ n e. ground arith;
                                          left = λ n e o. ground arith;
                                          spaced = λ n e. ground arith;
                                          single = λ e. ground arith;
                                          untried = λ e o. refl;
                                        })
                                        h,
                                    tt,
                                  );
                                })))))))

-- ===== src/Service/Schedules/Ticking.antt =====
-- Executions, ticks and deliveries, and the limits of the schedules
-- (backend/app/services/company.py).
use bug_free_enigma.Base.{
  ◌=ℕ◌, ltb, inl, inr, Bool-cases, All-map, ℕ, String, true, not, ◌||◌, ◌==◌, Option, none, some,
  List, [], ◌∷◌, ◌≡◌, refl, arith, All, value_error,
}
use bug_free_enigma.Base.Text.{◌<>◌}
use bug_free_enigma.Core.Time.{Instant, DateTime, aware_utc}
use bug_free_enigma.Core.Models.Schedule.{ScheduledJob}
use bug_free_enigma.Service.State.{Env, Company}
use bug_free_enigma.Service.Actions.{gets, pure, lift, guard, new_id, utc_now, ◌>>=◌}
use bug_free_enigma.Service.Actions.Hoare.{Keeps, Keeps-bind, Keeps-if, Keeps-guard, Keeps-pure}
use bug_free_enigma.Service.Records.{log_event}
use bug_free_enigma.Service.Schedules.Control.{is_active, find_job}
use bug_free_enigma.Service.Schedules.Running.{
  TaskRunner, attempt, settle, record_attempt, conclude, execute_scheduled_job,
}
use bug_free_enigma.Service.Schedules.Ticks.{
  record_tick, deliver, bad_limit, due_jobs, run_tick, is_due, QueuedResult, time_or_now,
  execute_all, list_due_scheduled_jobs, tick_scheduler, run_delivery, execute_queued_schedule,
}
use bug_free_enigma.Service.Schedules.Due.{due_jobs-All}
use bug_free_enigma.Service.Schedules.Operations.{Any}
use bug_free_enigma.Service.Schedules.Limits.{IsWithin}
use bug_free_enigma.Service.Schedules.Invariant.{
  AllWithin, KeepsJobs, Keeps-KeepsJobs, Keeps-find_job, Keeps-settle,
}
use bug_free_enigma.Service.Schedules.Frame.{
  KeepsJobs-record_attempt, KeepsJobs-time_or_now, KeepsJobs-record_tick, KeepsJobs-attempt,
}

module _ (env : Env) where
  pub Keeps-conclude :
      (job : ScheduledJob) (by : String) (now : Instant) (tried : Option String × Option String)
      → IsWithin job
      → is_active job.status ≡ true
      → Keeps AllWithin (conclude env job by now tried) Any
  unfolding conclude
  Keeps-conclude job by now (output_ref, error) w active =
      Keeps-bind AllWithin (settle job now error)
        (λ job'. record_attempt env job' by now output_ref error)
        (Keeps-settle job now error w active)
        (λ job' _. Keeps-KeepsJobs _ (KeepsJobs-record_attempt env job' by now output_ref error))

  module _ (run_task : TaskRunner) (keeps : (i : String) → KeepsJobs (run_task i)) where
    -- An active schedule within its limits is executed: it stays within them.
    pub Keeps-execute_scheduled_job :
        (job : ScheduledJob) (by : String) (now : Instant) (token : Option String)
        → IsWithin job
        → is_active job.status ≡ true
        → Keeps AllWithin (execute_scheduled_job env run_task job by now token) Any
    unfolding execute_scheduled_job
    Keeps-execute_scheduled_job job by now token w active =
        Keeps-bind AllWithin (attempt env run_task job token) (conclude env job by now)
          (Keeps-KeepsJobs _ (KeepsJobs-attempt env run_task keeps job token))
          (λ tried _. Keeps-conclude job by now tried w active)

    -- The schedules of the list can run.
    abbrev Runnable : List ScheduledJob → Type 0
    Runnable = All (λ (job : ScheduledJob). IsWithin job × (is_active job.status ≡ true))

    due_jobs-Runnable :
        (t : Instant) (limit : ℕ) (c : Company) → AllWithin c → Runnable (due_jobs t limit c)
    due_jobs-Runnable t limit c h =
        All-map
          (λ (job : ScheduledJob) (x : IsWithin job × (is_due t job ≡ true)). (x.0, ground arith))
          (due_jobs t limit c) (due_jobs-All IsWithin t limit c h)

    Keeps-execute_all :
        (jobs : List ScheduledJob) (by : String) (now : Instant)
        → Runnable jobs
        → Keeps AllWithin (execute_all env run_task jobs by now) Any
    unfolding execute_all
    Keeps-execute_all [] by now h = Keeps-pure AllWithin [] tt
    Keeps-execute_all (job ∷ jobs) by now h =
        Keeps-bind AllWithin (execute_scheduled_job env run_task job by now none) _
          (Keeps-execute_scheduled_job job by now none h.0.0 h.0.1)
          (λ execution _.
            Keeps-bind AllWithin (execute_all env run_task jobs by now)
              (λ rest. pure (execution ∷ rest)) (Keeps-execute_all jobs by now h.1)
              (λ rest _. Keeps-pure AllWithin _ tt))

    Keeps-list_due_scheduled_jobs :
        (now : Option DateTime) (limit : ℕ)
        → Keeps AllWithin (list_due_scheduled_jobs env now limit) Runnable
    unfolding list_due_scheduled_jobs
    Keeps-list_due_scheduled_jobs now limit =
        Keeps-bind AllWithin
          (guard (bad_limit limit)
            (value_error "scheduler due-job limit must be between 1 and 100" []))
          _ (Keeps-guard AllWithin _ _)
          (λ _ _.
            Keeps-bind AllWithin (time_or_now env now) (λ t. gets (due_jobs t limit))
              (Keeps-KeepsJobs _ (KeepsJobs-time_or_now env now))
              (λ t _. record { kept = λ c h. (h, due_jobs-Runnable t limit c h) }))

    Keeps-run_tick :
        (by : String) (limit : ℕ) (t : Instant)
        → Keeps AllWithin (run_tick env run_task by limit t) Any
    unfolding run_tick
    Keeps-run_tick by limit t =
        Keeps-bind AllWithin (list_due_scheduled_jobs env (some (DateTime.aware t)) limit) _
          (Keeps-list_due_scheduled_jobs (some (DateTime.aware t)) limit)
          (λ jobs runnable.
            Keeps-bind AllWithin (execute_all env run_task jobs by t) (record_tick env by t)
              (Keeps-execute_all jobs by t runnable)
              (λ executions _. Keeps-KeepsJobs _ (KeepsJobs-record_tick env by t executions)))

    pub Keeps-tick_scheduler :
        (by : String) (now : Option DateTime) (limit : ℕ)
        → Keeps AllWithin (tick_scheduler env run_task by now limit) Any
    unfolding tick_scheduler
    Keeps-tick_scheduler by now limit =
        Keeps-bind AllWithin
          (guard (not (by == "human_root"))
            (value_error "only human_root can tick the scheduler" []))
          _ (Keeps-guard AllWithin _ _)
          (λ _ _.
            Keeps-bind AllWithin
              (guard (bad_limit limit)
                (value_error "scheduler tick limit must be between 1 and 100" []))
              _ (Keeps-guard AllWithin _ _)
              (λ _ _.
                Keeps-bind AllWithin (time_or_now env now) (run_tick env run_task by limit)
                  (Keeps-KeepsJobs _ (KeepsJobs-time_or_now env now))
                  (λ t _. Keeps-run_tick by limit t)))

    Keeps-run_delivery :
        (job : ScheduledJob) (expected : Instant) (by : String) (now : Instant)
        → IsWithin job
        → is_active job.status ≡ true
        → Keeps AllWithin (run_delivery env run_task job expected by now) Any
    unfolding run_delivery log_event new_id utc_now
    Keeps-run_delivery job expected by now w active =
        Keeps-bind AllWithin
          (execute_scheduled_job env run_task job by now
            (some (job.schedule_id <> ":" <> env.isoformat expected)))
          _ (Keeps-execute_scheduled_job job by now _ w active)
          (λ execution _. record { kept = λ c h. (h, tt) })

    Keeps-deliver :
        (job : ScheduledJob) (expected : Instant) (by : String) (now : Instant)
        → IsWithin job
        → Keeps AllWithin (deliver env run_task job expected by now) Any
    unfolding deliver
    Keeps-deliver job expected by now w = elim (Bool-cases (is_active job.status)) [
      | inl active ↦
          Keeps-if AllWithin (not (is_active job.status) || not (job.next_run_at =ℕ expected))
            (pure (QueuedResult.skipped "schedule state no longer matches the queued delivery")) _
            (Keeps-pure AllWithin _ tt)
            (Keeps-if AllWithin (ltb now job.next_run_at)
              (pure (QueuedResult.skipped "schedule is not due yet")) _ (Keeps-pure AllWithin _ tt)
              (Keeps-run_delivery job expected by now w active))
      | inr idle ↦ record { kept = λ c h. ground (arith, h) }
    ]

    pub Keeps-execute_queued_schedule :
        (id expected by : String) (now : Option DateTime)
        → Keeps AllWithin (execute_queued_schedule env run_task id expected by now) Any
    unfolding execute_queued_schedule
    Keeps-execute_queued_schedule id expected by now =
        Keeps-bind AllWithin
          (guard (not env.has_store)
            (value_error "queued schedule execution requires durable persistence" []))
          _ (Keeps-guard AllWithin _ _)
          (λ _ _.
            Keeps-bind AllWithin
              (guard (not (by == "human_root"))
                (value_error "only human_root can execute queued schedules" []))
              _ (Keeps-guard AllWithin _ _)
              (λ _ _.
                Keeps-bind AllWithin (lift (env.fromisoformat expected)) _
                  (Keeps-KeepsJobs (lift (env.fromisoformat expected)) (λ c. refl))
                  (λ parsed _.
                    Keeps-bind AllWithin (lift (aware_utc parsed "expected_next_run_at")) _
                      (Keeps-KeepsJobs (lift (aware_utc parsed "expected_next_run_at")) (λ c. refl))
                      (λ at _.
                        Keeps-bind AllWithin (time_or_now env now)
                          (λ t. find_job id >>= λ job. deliver env run_task job at by t)
                          (Keeps-KeepsJobs _ (KeepsJobs-time_or_now env now))
                          (λ t _.
                            Keeps-bind AllWithin (find_job id)
                              (λ job. deliver env run_task job at by t) (Keeps-find_job id)
                              (λ job w. Keeps-deliver job at by t w))))))

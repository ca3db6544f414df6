-- ===== src/Service/Schedules/Executed.antt =====
-- What one execution of a schedule leaves in the store (backend/app/services/company.py).
use bug_free_enigma.Base.{
  String, Option, none, some, List, [], ◌∷◌, map, ◌≡◌, ◌∙◌, inl, inr, arith, ok, Option-cases,
  Outcome-cases, eq_iff, Bool-cases,
}
use bug_free_enigma.Base.Dict.{lookup, put, lookup-put}
use bug_free_enigma.Core.Time.{Instant, add_seconds}
use bug_free_enigma.Core.Models.Schedule.{ScheduledJob, ScheduledExecution}
use bug_free_enigma.Service.State.{Env, Company}
use bug_free_enigma.Service.Actions.{bind-eq-ok, bind-after-ok, pure, new_id, utc_now}
use bug_free_enigma.Service.Records.{log_event, publish_domain_event}
use bug_free_enigma.Service.Schedules.Running.{
  TaskRunner, counted, reached_limit, after_attempt, settle, report_failure, record_attempt,
  conclude, attempt, execute_scheduled_job,
}
use bug_free_enigma.Service.Schedules.Ticks.{execute_all}
use bug_free_enigma.Service.Schedules.Frame.{KeepsJobs-record_attempt}

after_attempt-schedule_id :
    (job : ScheduledJob) (now : Instant) (error : Option String) {job' : ScheduledJob}
    → after_attempt job now error ≡ ok job'
    → job'.schedule_id ≡ job.schedule_id
unfolding after_attempt
after_attempt-schedule_id job now error h = elim (Option-cases job.interval_seconds) [
  | inl once ↦ ground arith
  | inr (s, e) ↦ ground (arith, Bool-cases (reached_limit job), Outcome-cases (add_seconds now s))
]

-- The schedule that a successful `settle` gives back is the one that it stored.
settle-eq-ok :
    (job : ScheduledJob) (now : Instant) (error : Option String) (c : Company) {job' : ScheduledJob}
    → (settle job now error c).0 ≡ ok job'
    → (after_attempt (counted job now error) now error ≡ ok job')
      × (lookup job.schedule_id (settle job now error c).1.jobs ≡ some job')
unfolding settle
settle-eq-ok job now error c {job'} h =
    let counts = counted job now error in
    elim (Outcome-cases (after_attempt counts now error)) [
      | inr (x, e) ↦ absurd (ground arith)
      | inl (j, e) ↦
          let same = after_attempt-schedule_id counts now error e in
          (
            ground arith,
            ground (
              arith,
              lookup-put j.schedule_id job.schedule_id j (put job.schedule_id counts c.jobs),
              eq_iff j.schedule_id job.schedule_id,
            ),
          )
    ]

module _ (env : Env) where
  record_attempt-schedule_id :
      (job : ScheduledJob) (by : String) (now : Instant) (output_ref error : Option String)
      (c : Company) {x : ScheduledExecution}
      → (record_attempt env job by now output_ref error c).0 ≡ ok x
      → x.schedule_id ≡ job.schedule_id
  unfolding record_attempt publish_domain_event log_event new_id utc_now
  record_attempt-schedule_id job by now output_ref error c h =
      let (_, _, e) = bind-eq-ok (report_failure env job by error) _ _ h in ground arith

  -- What an execution that went through leaves: the execution of that schedule, and the schedule
  -- stored anew, as `after_attempt` gives it.
  pub record Executed (job : ScheduledJob) (now : Instant) (c : Company) (x : ScheduledExecution)
      : Type 0 where
    pub of_job : x.schedule_id ≡ job.schedule_id
    pub error : Option String
    pub later : ScheduledJob
    pub computed : after_attempt (counted job now error) now error ≡ ok later
    pub stored : lookup job.schedule_id c.jobs ≡ some later

  conclude-Executed :
      (job : ScheduledJob) (by : String) (now : Instant) (tried : Option String × Option String)
      (c : Company) {x : ScheduledExecution}
      → (conclude env job by now tried c).0 ≡ ok x
      → Executed job now (conclude env job by now tried c).1 x
  unfolding conclude
  conclude-Executed job by now (output_ref, error) c {x} h =
      let (j, settled, recorded) =
        bind-eq-ok (settle job now error) (λ job'. record_attempt env job' by now output_ref error)
          c {b = x} h in
      let (computed, stored) = settle-eq-ok job now error c settled in
      let kept =
        KeepsJobs-record_attempt env j by now output_ref error (settle job now error c).1 in
      record {
        of_job =
            record_attempt-schedule_id j by now output_ref error (settle job now error c).1 recorded
            ∙ after_attempt-schedule_id (counted job now error) now error computed;
        error = error;
        later = j;
        computed = computed;
        stored = ground arith;
      }

  module _ (run_task : TaskRunner) where
    pub execute_scheduled_job-Executed :
        (job : ScheduledJob) (by : String) (now : Instant) (token : Option String) (c : Company)
        {x : ScheduledExecution}
        → (execute_scheduled_job env run_task job by now token c).0 ≡ ok x
        → Executed job now (execute_scheduled_job env run_task job by now token c).1 x
    unfolding execute_scheduled_job
    execute_scheduled_job-Executed job by now token c {x} h =
        let (tried, e, f) =
          bind-eq-ok (attempt env run_task job token) (conclude env job by now) c {b = x} h in
        rw (bind-after-ok (attempt env run_task job token) (conclude env job by now) c e)
          (conclude-Executed job by now tried (attempt env run_task job token c).1 f)

    pub execute_all-schedule_ids :
        (jobs : List ScheduledJob) (by : String) (now : Instant) (c : Company)
        {xs : List ScheduledExecution}
        → (execute_all env run_task jobs by now c).0 ≡ ok xs
        → map (λ (x : ScheduledExecution). x.schedule_id) xs
          ≡ map (λ (j : ScheduledJob). j.schedule_id) jobs
    unfolding execute_all
    execute_all-schedule_ids [] by now c h = ground arith
    execute_all-schedule_ids (job ∷ jobs) by now c {xs} h =
        let (x, ex, er) =
          bind-eq-ok (execute_scheduled_job env run_task job by now none) _ c {b = xs} h in
        let d = (execute_scheduled_job env run_task job by now none c).1 in
        let (rest, es, ep) =
          bind-eq-ok (execute_all env run_task jobs by now) (λ rest. pure (x ∷ rest)) d {b = xs}
            er in
        let head = (execute_scheduled_job-Executed job by now none c ex).of_job in
        let tail = execute_all-schedule_ids jobs by now d es in ground arith

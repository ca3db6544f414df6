-- ===== src/Service/Schedules/Replay.antt =====
-- How often a delivery of the queue runs (`execute_queued_schedule` of
-- backend/app/services/company.py).
use bug_free_enigma.Base.{
  ◌≤◌, String, true, not, ◌||◌, ◌==◌, ◌=ℕ◌, Option, some, ◌≡◌, sym, ap, ◌∙◌, inl, inr, arith,
  Outcome, ok, err, Option-cases, Outcome-cases, All,
}
use mathlib.Core.Path.{subst}
use bug_free_enigma.Base.Dict.{lookup, values, All-lookup, IsKeyed, lookup-IsKeyed}
use bug_free_enigma.Base.Text.{◌<>◌}
use bug_free_enigma.Core.Time.{Instant, DateTime, aware_utc}
use bug_free_enigma.Core.Models.Schedule.{ScheduledJob, ScheduledExecution}
use bug_free_enigma.Service.State.{Env, Company}
use bug_free_enigma.Service.Actions.{bind-eq-ok, new_id, utc_now}
use bug_free_enigma.Service.Records.{log_event}
use bug_free_enigma.Service.Schedules.Control.{is_active}
use bug_free_enigma.Service.Schedules.Running.{
  TaskRunner, counted, after_attempt, execute_scheduled_job,
}
use bug_free_enigma.Service.Schedules.Ticks.{
  QueuedResult, time_or_now, run_delivery, deliver, execute_queued_schedule,
}
use bug_free_enigma.Service.Schedules.Limits.{IsWithin, Attempted, after_attempt-Attempted}
use bug_free_enigma.Service.Schedules.Executed.{Executed, execute_scheduled_job-Executed}

abbrev mismatch : String
mismatch = "schedule state no longer matches the queued delivery"

-- `expected_next_run_at` as an instant
abbrev expected_at : Env → String → Outcome Instant
expected_at env text = elim (env.fromisoformat text) [
  | ok parsed ↦ aware_utc parsed "expected_next_run_at"
  | err e ↦ err e
]

module _ (env : Env) (run_task : TaskRunner) where
  -- What a delivery that came to a result found.
  record Delivered (id expected by : String) (t : Instant) (c : Company) : Type 0 where
    durable : env.has_store ≡ true
    by_root : (by == "human_root") ≡ true
    at : Instant
    at_expected : expected_at env expected ≡ ok at
    job : ScheduledJob
    found : lookup id c.jobs ≡ some job
    tested :
        execute_queued_schedule env run_task id expected by (some (DateTime.aware t)) c
        ≡ deliver env run_task job at by t c

  execute_queued_schedule-Delivered :
      (id expected by : String) (t : Instant) (c : Company) {x : QueuedResult}
      → (execute_queued_schedule env run_task id expected by (some (DateTime.aware t)) c).0 ≡ ok x
      → Delivered id expected by t c
  unfolding execute_queued_schedule time_or_now aware_utc
  execute_queued_schedule-Delivered id expected by t c h =
      elim (Outcome-cases (expected_at env expected)) [
        | inr (e, ee) ↦ absurd (ground (arith, Outcome-cases (env.fromisoformat expected)))
        | inl (at, ea) ↦ elim (Option-cases (lookup id c.jobs)) [
          | inl missing ↦ absurd (ground (arith, Outcome-cases (env.fromisoformat expected)))
          | inr (job, ej) ↦ record {
            durable = ground arith;
            by_root = ground arith;
            at = at;
            at_expected = ea;
            job = job;
            found = ej;
            tested = ground (arith, Outcome-cases (env.fromisoformat expected));
          }
        ]
      ]

  -- a later delivery for a job that has moved on
  execute_queued_schedule-skips :
      (id expected by : String) (t at : Instant) (c : Company) (job : ScheduledJob)
      → env.has_store ≡ true
      → (by == "human_root") ≡ true
      → expected_at env expected ≡ ok at
      → lookup id c.jobs ≡ some job
      → (not (is_active job.status) || not (job.next_run_at =ℕ at)) ≡ true
      → (execute_queued_schedule env run_task id expected by (some (DateTime.aware t)) c).0
        ≡ ok (QueuedResult.skipped mismatch)
  unfolding execute_queued_schedule deliver time_or_now aware_utc
  execute_queued_schedule-skips id expected by t at c job durable root ea found moved =
      ground (arith, Outcome-cases (env.fromisoformat expected))

  run_delivery-Executed :
      (job : ScheduledJob) (at : Instant) (by : String) (t : Instant) (c : Company)
      {x : ScheduledExecution}
      → (run_delivery env run_task job at by t c).0 ≡ ok (QueuedResult.executed x)
      → Executed env job t (run_delivery env run_task job at by t c).1 x
  unfolding run_delivery log_event new_id utc_now
  run_delivery-Executed job at by t c {x} h =
      let token = some (job.schedule_id <> ":" <> env.isoformat at) in
      let run = execute_scheduled_job env run_task job by t token in
      let (y, ey, er) = bind-eq-ok run _ c {b = QueuedResult.executed x} h in
      let done = execute_scheduled_job-Executed env run_task job by t token c ey in
      let same : x ≡ y = ground arith in
      record {
        of_job = ap (λ (z : ScheduledExecution). z.schedule_id) same ∙ done.of_job;
        error = done.error;
        later = done.later;
        computed = done.computed;
        stored = ground (arith, done.stored);
      }

  -- a delivery that ran was due, and ran as `run_delivery` says
  deliver-ran :
      (job : ScheduledJob) (at : Instant) (by : String) (t : Instant) (c : Company)
      {x : ScheduledExecution}
      → (deliver env run_task job at by t c).0 ≡ ok (QueuedResult.executed x)
      → (is_active job.status ≡ true)
        × (job.next_run_at ≡ at)
        × (at ≤ t)
        × (deliver env run_task job at by t c ≡ run_delivery env run_task job at by t c)
  unfolding deliver
  deliver-ran job at by t c h = (ground arith, ground arith, ground arith, ground arith)

  -- A schedule that an execution leaves does not match a delivery of that time or an earlier one.
  moved_on :
      (job : ScheduledJob) (t at : Instant) (error : Option String) {later : ScheduledJob}
      → IsWithin job
      → is_active job.status ≡ true
      → at ≤ t
      → after_attempt (counted job t error) t error ≡ ok later
      → (not (is_active later.status) || not (later.next_run_at =ℕ at)) ≡ true
  moved_on job t at error {later} w active before e =
      let attempted : Attempted job t error (ok later) =
        subst (λ r. Attempted job t error r) e (after_attempt-Attempted job t error w active) in
      ground (arith, attempted.1)

  -- A delivery of the queue executes at most once. When the schedules are stored under their
  -- identifiers and are within their limits, and a delivery has executed its schedule, then
  -- delivering the same message again, at whatever time, is skipped because the schedule no longer
  -- matches it.
  pub execute_queued_schedule_once :
      (id expected by : String) (t t' : Instant) (c : Company) {x : ScheduledExecution}
      → IsKeyed (λ (j : ScheduledJob). j.schedule_id) c.jobs
      → All IsWithin (values c.jobs)
      → (execute_queued_schedule env run_task id expected by (some (DateTime.aware t)) c).0
        ≡ ok (QueuedResult.executed x)
      → (execute_queued_schedule env run_task id expected by
          (some (DateTime.aware t'))
          (execute_queued_schedule env run_task id expected by (some (DateTime.aware t)) c).1).0
        ≡ ok (QueuedResult.skipped "schedule state no longer matches the queued delivery")
  execute_queued_schedule_once id expected by t t' c {x} keyed within h =
      let first = execute_queued_schedule-Delivered id expected by t c h in
      let job = first.job in
      let (active, now_at, due, ran) =
        deliver-ran job first.at by t c {x = x} (sym (ap (λ r. r.0) first.tested) ∙ h) in
      let done =
        run_delivery-Executed job first.at by t c {x = x}
          (sym (ap (λ r. r.0) ran) ∙ sym (ap (λ r. r.0) first.tested) ∙ h) in
      let own : job.schedule_id ≡ id =
        lookup-IsKeyed (λ (j : ScheduledJob). j.schedule_id) id c.jobs keyed first.found in
      let moved =
        moved_on job t first.at done.error (All-lookup IsWithin id c.jobs within first.found) active
          due done.computed in
      execute_queued_schedule-skips id expected by t' first.at _ done.later first.durable
        first.by_root first.at_expected (rw first.tested (rw ran (rw⁻¹ own done.stored))) moved

-- ===== src/Service/Schedules/Reachable.antt =====
-- Schedules after any sequence of operations (backend/app/services/company.py).
use bug_free_enigma.Base.{ℕ, String, Option, ◌≡◌}
use bug_free_enigma.Core.Enums.{ScheduleAction}
use bug_free_enigma.Core.Time.{DateTime}
use bug_free_enigma.Core.Json.{Fields}
use bug_free_enigma.Service.State.{Env, Company}
use bug_free_enigma.Service.Schedules.Control.{
  create_scheduled_job, pause_scheduled_job, resume_scheduled_job, cancel_scheduled_job,
}
use bug_free_enigma.Service.Schedules.Running.{TaskRunner}
use bug_free_enigma.Service.Schedules.Ticks.{tick_scheduler, execute_queued_schedule}
use bug_free_enigma.Service.Schedules.Invariant.{AllWithin, KeepsJobs}
use bug_free_enigma.Service.Schedules.Operations.{
  Keeps-create_scheduled_job, Keeps-pause_scheduled_job, Keeps-resume_scheduled_job,
  Keeps-cancel_scheduled_job,
}
use bug_free_enigma.Service.Schedules.Ticking.{Keeps-tick_scheduler, Keeps-execute_queued_schedule}

module _ (env : Env) (run_task : TaskRunner) where
  -- One call of the service that concerns schedules, whether it raises or not; or any other call,
  -- which leaves the schedules as they are.
  pub data Step (c : Company) : Company → Type 0 where
    created :
        (name : String) (action : ScheduleAction) (payload : Fields) (by : String) (at : DateTime)
        (interval max : Option ℕ)
        → Step c (create_scheduled_job env name action payload by at interval max c).1
    paused : (id by : String) → Step c (pause_scheduled_job env id by c).1
    resumed : (id by : String) → Step c (resume_scheduled_job env id by c).1
    cancelled : (id by : String) → Step c (cancel_scheduled_job env id by c).1
    ticked :
        (by : String) (now : Option DateTime) (limit : ℕ)
        → Step c (tick_scheduler env run_task by now limit c).1
    delivered :
        (id expected by : String) (now : Option DateTime)
        → Step c (execute_queued_schedule env run_task id expected by now c).1
    elsewhere : (d : Company) → d.jobs ≡ c.jobs → Step c d

  pub data Reach (c : Company) : Company → Type 0 where
    here : Reach c c
    next : {d e : Company} → Reach c d → Step d e → Reach c e

  module _ (keeps : (i : String) → KeepsJobs (run_task i)) where
    Step-AllWithin : {c d : Company} → Step c d → AllWithin c → AllWithin d
    Step-AllWithin {c} (created name action payload by at interval max) h =
        ((Keeps-create_scheduled_job env name action payload by at interval max).kept c h).0
    Step-AllWithin {c} (paused id by) h = ((Keeps-pause_scheduled_job env id by).kept c h).0
    Step-AllWithin {c} (resumed id by) h = ((Keeps-resume_scheduled_job env id by).kept c h).0
    Step-AllWithin {c} (cancelled id by) h = ((Keeps-cancel_scheduled_job env id by).kept c h).0
    Step-AllWithin {c} (ticked by now limit) h =
        ((Keeps-tick_scheduler env run_task keeps by now limit).kept c h).0
    Step-AllWithin {c} (delivered id expected by now) h =
        ((Keeps-execute_queued_schedule env run_task keeps id expected by now).kept c h).0
    Step-AllWithin (elsewhere d e) h = rw e h

    -- As long as running a task leaves the schedules alone, every state that operations reach from
    -- one whose schedules are within their limits has its schedules within them, on every way out,
    -- errors included: a schedule is attempted at most `max_runs` times and fewer while it is active
    -- or paused, a one-time schedule at most once, and a recurring one has an interval of at least
    -- 60 seconds.
    pub Reach-AllWithin : {c d : Company} → AllWithin c → Reach c d → AllWithin d
    Reach-AllWithin h here = h
    Reach-AllWithin h (next r s) = Step-AllWithin s (Reach-AllWithin h r)

-- ===== src/Service/Schedules/Exactness.antt =====
-- What a tick runs, and how often a delivery of the queue runs (backend/app/services/company.py).
use bug_free_enigma.Base.{
  ℕ, zero, suc, ◌≤◌, String, true, some, List, [], ◌∷◌, map, length, ◌≡◌, refl, arith, ok, eq_iff,
  All,
}
use bug_free_enigma.Base.Dict.{values}
use bug_free_enigma.Core.Time.{Instant, DateTime, aware_utc}
use bug_free_enigma.Core.Models.Schedule.{ScheduledJob, ScheduledExecution}
use bug_free_enigma.Service.State.{Env, Company}
use bug_free_enigma.Service.Actions.{bind-eq-ok, new_id, utc_now, ◌>>=◌}
use bug_free_enigma.Service.Records.{log_event}
use bug_free_enigma.Service.Schedules.Running.{TaskRunner}
use bug_free_enigma.Service.Schedules.Ticks.{
  is_due, due_jobs, take, time_or_now, list_due_scheduled_jobs, execute_all, record_tick, run_tick,
  tick_scheduler,
}
use bug_free_enigma.Service.Schedules.Due.{due_jobs-All}
use bug_free_enigma.Service.Schedules.Listing.{InOrder, InOrder-due_jobs}
use bug_free_enigma.Service.Schedules.Executed.{execute_all-schedule_ids}

length-take {ℓ} : {A : Type ℓ} (n : ℕ) (xs : List A) → length (take n xs) ≤ n
length-take zero xs = omega arith
length-take (suc n) [] = omega arith
length-take (suc n) (x ∷ xs) = omega (arith, length-take n xs)

All-trivial : (js : List ScheduledJob) → All (λ (_ : ScheduledJob). Unit {0}) js
All-trivial [] = tt
All-trivial (j ∷ js) = (tt, All-trivial js)

drop_trivial :
    (t : Instant) (js : List ScheduledJob)
    → All (λ (j : ScheduledJob). Unit {0} × (is_due t j ≡ true)) js
    → All (λ (j : ScheduledJob). is_due t j ≡ true) js
drop_trivial t [] h = tt
drop_trivial t (j ∷ js) h = (h.0.1, drop_trivial t js h.1)

record_tick-returns :
    (env : Env) (by : String) (t : Instant) (xs : List ScheduledExecution) (c : Company)
    → (record_tick env by t xs c).0 ≡ ok xs
unfolding record_tick log_event new_id utc_now
record_tick-returns env by t xs c = refl

module _ (env : Env) (run_task : TaskRunner) where
  list_due-eq-ok :
      (t : Instant) (limit : ℕ) (c : Company) {jobs : List ScheduledJob}
      → (list_due_scheduled_jobs env (some (DateTime.aware t)) limit c).0 ≡ ok jobs
      → (jobs ≡ due_jobs t limit c)
        × ((list_due_scheduled_jobs env (some (DateTime.aware t)) limit c).1 ≡ c)
  unfolding list_due_scheduled_jobs time_or_now aware_utc
  list_due-eq-ok t limit c h = (ground arith, ground arith)

  run_tick-schedule_ids :
      (by : String) (t : Instant) (limit : ℕ) (c : Company) {xs : List ScheduledExecution}
      → (run_tick env run_task by limit t c).0 ≡ ok xs
      → map (λ (x : ScheduledExecution). x.schedule_id) xs
        ≡ map (λ (j : ScheduledJob). j.schedule_id) (due_jobs t limit c)
  unfolding run_tick
  run_tick-schedule_ids by t limit c {xs} h =
      let (jobs, ej, er) =
        bind-eq-ok (list_due_scheduled_jobs env (some (DateTime.aware t)) limit)
          (λ jobs. execute_all env run_task jobs by t >>= record_tick env by t) c {b = xs} h in
      let d = (list_due_scheduled_jobs env (some (DateTime.aware t)) limit c).1 in
      let (ys, ey, et) =
        bind-eq-ok (execute_all env run_task jobs by t) (record_tick env by t) d {b = xs} er in
      let same = record_tick-returns env by t ys (execute_all env run_task jobs by t d).1 in
      let ids = execute_all-schedule_ids env run_task jobs by t d ey in
      let listed = (list_due-eq-ok t limit c ej).0 in
      let xs_ys : xs ≡ ys = ground arith in rw xs_ys (rw⁻¹ listed ids)

  -- A tick that goes through is the Human Root's, and it executed the listed jobs and no other: the
  -- executions it returns are those of the due jobs, one for one and in their order. Every listed
  -- job is active and its time has come, none comes before one that was due earlier, and there are at
  -- most `limit` of them.
  pub tick_scheduler_exact :
      (by : String) (t : Instant) (limit : ℕ) (c : Company) {xs : List ScheduledExecution}
      → (tick_scheduler env run_task by (some (DateTime.aware t)) limit c).0 ≡ ok xs
      → (by ≡ "human_root")
        × (map (λ (x : ScheduledExecution). x.schedule_id) xs
            ≡ map (λ (j : ScheduledJob). j.schedule_id) (due_jobs t limit c))
        × All (λ (j : ScheduledJob). is_due t j ≡ true) (due_jobs t limit c)
        × InOrder (due_jobs t limit c)
        × (length (due_jobs t limit c) ≤ limit)
  unfolding tick_scheduler time_or_now aware_utc
  tick_scheduler_exact by t limit c {xs} h = (
    (eq_iff by "human_root").0 (ground arith),
    run_tick-schedule_ids by t limit c {xs = xs} (ground arith),
    drop_trivial t _ (due_jobs-All (λ _. Unit {0}) t limit c (All-trivial (values c.jobs))),
    InOrder-due_jobs t limit c,
    length-take limit _,
  )

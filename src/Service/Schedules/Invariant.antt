-- ===== src/Service/Schedules/Invariant.antt =====
-- The limits of all stored schedules, and the methods that only read or write a schedule
-- (backend/app/services/company.py).
use bug_free_enigma.Base.{
  String, Bool, true, false, Option, none, some, ◌≡◌, refl, ◌∙◌, Outcome, ok, err, key_error,
  if◌then◌else◌, All,
}
use bug_free_enigma.Base.Dict.{Dict, lookup, get, values, All-overwrite, All-put, All-lookup}
use bug_free_enigma.Core.Time.{Instant}
use bug_free_enigma.Core.Models.Schedule.{ScheduledJob}
use bug_free_enigma.Service.State.{Company}
use bug_free_enigma.Service.Actions.{Action, continue, ◌>>=◌}
use bug_free_enigma.Service.Actions.Hoare.{After, Keeps, Keeps-asks}
use bug_free_enigma.Service.Schedules.Control.{is_active, store_job, find_job}
use bug_free_enigma.Service.Schedules.Running.{counted, after_attempt, settle}
use bug_free_enigma.Service.Schedules.Ticks.{is_due}
use bug_free_enigma.Service.Schedules.Limits.{IsWithin, Attempted, after_attempt-Attempted}

abbrev pub AllWithin : Company → Type 0
AllWithin c = All IsWithin (values c.jobs)

-- A method that leaves the schedules as they are.
abbrev pub KeepsJobs : {A : Type 0} → Action A → Type 0
KeepsJobs m = (c : Company) → (m c).1.jobs ≡ c.jobs

pub KeepsJobs-bind :
    {A B : Type 0} (m : Action A) (f : A → Action B)
    → KeepsJobs m
    → ((a : A) → KeepsJobs (f a))
    → KeepsJobs (m >>= f)
KeepsJobs-bind {A} {B} m f hm hf c = rest (m c).0 (m c).1 (hm c)
  where
    rest : (r : Outcome A) (d : Company) → d.jobs ≡ c.jobs → (continue r f d).1.jobs ≡ c.jobs
    rest (ok a) d e = hf a d ∙ e
    rest (err x) d e = e

pub KeepsJobs-if :
    {A : Type 0} (b : Bool) (m n : Action A)
    → KeepsJobs m
    → KeepsJobs n
    → KeepsJobs (if b then m else n)
KeepsJobs-if true m n p q = p
KeepsJobs-if false m n p q = q

After-trivial : {A : Type 0} (r : Outcome A) → After (λ (_ : A). Unit {0}) r
After-trivial (ok a) = tt
After-trivial (err e) = tt

pub Keeps-KeepsJobs : {A : Type 0} (m : Action A) → KeepsJobs m → Keeps AllWithin m (λ _. Unit {0})
Keeps-KeepsJobs m h = record { kept = λ c i. (rw (h c) i, After-trivial (m c).0) }

pub Keeps-store_job :
    (job : ScheduledJob) → IsWithin job → Keeps AllWithin (store_job job) (λ _. Unit {0})
Keeps-store_job job w = record {
  kept = λ c i. (All-put IsWithin job.schedule_id job c.jobs w i, tt);
}

get-IsWithin :
    (i : String) (d : Dict ScheduledJob) → All IsWithin (values d) → After IsWithin (get i d)
get-IsWithin i d h = found (lookup i d) (λ job e. All-lookup IsWithin i d h e)
  where
    found :
        (o : Option ScheduledJob)
        → ((job : ScheduledJob) → o ≡ some job → IsWithin job)
        → After IsWithin (elim o [ none ↦ err (key_error i) | some job ↦ ok job ])
    found none w = tt
    found (some job) w = w job refl

pub Keeps-find_job : (i : String) → Keeps AllWithin (find_job i) IsWithin
Keeps-find_job i = Keeps-asks AllWithin (λ c. get i c.jobs) (λ c. get-IsWithin i c.jobs)

-- What `settle` leaves for an active schedule within its limits.
pub Keeps-settle :
    (job : ScheduledJob) (now : Instant) (error : Option String)
    → IsWithin job
    → is_active job.status ≡ true
    → Keeps AllWithin
        (settle job now error)
        (λ job'. IsWithin job' × (is_due now job' ≡ false) × (job'.schedule_id ≡ job.schedule_id))
unfolding settle
Keeps-settle job now error w active = record {
  kept = λ c i.
      settled c i (after_attempt (counted job now error) now error) refl
        (after_attempt-Attempted job now error w active);
}
  where
    settled :
        (c : Company)
        → AllWithin c
        → (r : Outcome ScheduledJob) → after_attempt (counted job now error) now error ≡ r
        → Attempted job now error r
        → AllWithin (settle job now error c).1
          × After
              (λ (job' : ScheduledJob).
                IsWithin job' × (is_due now job' ≡ false) × (job'.schedule_id ≡ job.schedule_id))
              (settle job now error c).0
    settled c i (ok job') e h = rw e (
      All-overwrite IsWithin job.schedule_id job'.schedule_id (counted job now error) job' c.jobs
          h.2 h.0 i,
      h,
    )
    settled c i (err x) e h =
        rw e (All-put IsWithin job.schedule_id (counted job now error) c.jobs h i, tt)

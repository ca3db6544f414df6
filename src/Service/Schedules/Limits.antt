-- ===== src/Service/Schedules/Limits.antt =====
-- What an attempt does to the counters, the status and the next time of a schedule
-- (`_execute_scheduled_job` of backend/app/services/company.py).
use bug_free_enigma.Base.{
  ℕ, ◌+◌, ◌*◌, ◌≤◌, ◌<◌, String, true, false, Option, none, some, ◌≡◌, ◌⊎◌, inl, inr, arith,
  Outcome, ok, err, refl, Bool-cases, Option-cases, Outcome-cases, ◌||◌,
}
use bug_free_enigma.Core.Time.{Instant, add_seconds}
use bug_free_enigma.Core.Models.Schedule.{ScheduledJob}
use bug_free_enigma.Service.Schedules.Control.{is_active, is_paused}
use bug_free_enigma.Service.Schedules.Running.{
  counted, reached_limit, ended, advanced, after_addition, after_attempt,
}
use bug_free_enigma.Service.Schedules.Ticks.{is_due}

-- What holds of every schedule: the attempts stay within `max_runs`, and below it while the
-- schedule can still run; a recurring schedule has at least a minute between two attempts; a
-- one-time schedule has not been tried while it can still run, and is tried once at most.
pub record IsWithin (job : ScheduledJob) : Type 0 where
  pub attempts : (n : ℕ) → job.max_runs ≡ some n → job.run_count ≤ n
  pub left :
      (n : ℕ)
      → job.max_runs ≡ some n
      → (is_active job.status || is_paused job.status) ≡ true
      → job.run_count < n
  pub spaced : (s : ℕ) → job.interval_seconds ≡ some s → 60 ≤ s
  pub single : job.interval_seconds ≡ none → job.run_count ≤ 1
  pub untried :
      job.interval_seconds ≡ none
      → (is_active job.status || is_paused job.status) ≡ true
      → job.run_count ≡ 0

add_seconds-later : (now s : ℕ) {t : Instant} → add_seconds now s ≡ ok t → t ≡ now + s * 1000000
unfolding add_seconds
add_seconds-later now s h = ground arith

ended-IsWithin :
    (job : ScheduledJob) (now : Instant) (error : Option String)
    → IsWithin job
    → is_active job.status ≡ true
    → IsWithin (ended (counted job now error) now error)
ended-IsWithin job now error w active = record {
  attempts = λ n e. ground (arith, w.left n e (ground arith));
  left = λ n e o. absurd (ground (arith, Option-cases error));
  spaced = w.spaced;
  single = λ e. ground (arith, w.untried e (ground arith));
  untried = λ e o. absurd (ground (arith, Option-cases error));
}

-- a schedule that goes on
going_on :
    (job : ScheduledJob) (now next_run_at : Instant) (error : Option String) (s : ℕ)
    → IsWithin job
    → is_active job.status ≡ true
    → job.interval_seconds ≡ some s
    → reached_limit (counted job now error) ≡ false
    → IsWithin (advanced (counted job now error) now next_run_at)
going_on job now next_run_at error s w active e below = record {
  attempts = λ n m. ground (arith, w.left n m (ground arith));
  left = λ n m o. ground arith;
  spaced = w.spaced;
  single = λ once. absurd (ground arith);
  untried = λ once o. absurd (ground arith);
}

counted-IsWithin :
    (job : ScheduledJob) (now : Instant) (error : Option String) (s : ℕ)
    → IsWithin job
    → is_active job.status ≡ true
    → job.interval_seconds ≡ some s
    → reached_limit (counted job now error) ≡ false
    → IsWithin (counted job now error)
counted-IsWithin job now error s w active e below = record {
  attempts = λ n m. ground (arith, w.left n m (ground arith));
  left = λ n m o. ground arith;
  spaced = w.spaced;
  single = λ once. absurd (ground arith);
  untried = λ once o. absurd (ground arith);
}

-- What an attempt of an active schedule leaves. When the next time is out of range, the schedule
-- stays as it was counted.
abbrev pub Attempted : ScheduledJob → Instant → Option String → Outcome ScheduledJob → Type 0
Attempted job now error (ok job') =
    IsWithin job' × (is_due now job' ≡ false) × (job'.schedule_id ≡ job.schedule_id)
Attempted job now error (err e) = IsWithin (counted job now error)

advanced-not_due :
    (job : ScheduledJob) (now t s : ℕ) (error : Option String)
    → IsWithin job
    → job.interval_seconds ≡ some s
    → add_seconds now s ≡ ok t
    → is_due now (advanced (counted job now error) now t) ≡ false
advanced-not_due job now t s error w e h = ground (arith, w.spaced s e, add_seconds-later now s h)

-- the three ways out of `after_attempt`
at_end :
    (job : ScheduledJob) (now : Instant) (error : Option String)
    → (job.interval_seconds ≡ none) ⊎ (reached_limit job ≡ true)
    → after_attempt job now error ≡ ok (ended job now error)
unfolding after_attempt
at_end job now error h = ground (arith, Option-cases job.interval_seconds)

at_next :
    (job : ScheduledJob) (now s : ℕ) (error : Option String)
    → job.interval_seconds ≡ some s
    → reached_limit job ≡ false
    → after_attempt job now error ≡ after_addition job now (add_seconds now s)
unfolding after_attempt
at_next job now s error e below = ground arith

pub after_attempt-Attempted :
    (job : ScheduledJob) (now : Instant) (error : Option String)
    → IsWithin job
    → is_active job.status ≡ true
    → Attempted job now error (after_attempt (counted job now error) now error)
after_attempt-Attempted job now error w active =
    let counts = counted job now error in
    let over : (job.interval_seconds ≡ none) ⊎ (reached_limit counts ≡ true)
        → Attempted job now error (after_attempt counts now error) =
      λ h.
        rw (at_end counts now error h)
          (ended-IsWithin job now error w active, ground (arith, Option-cases error), refl) in
    elim (Option-cases job.interval_seconds) [
      | inl once ↦ over (inl once)
      | inr (s, e) ↦ elim (Bool-cases (reached_limit counts)) [
        | inl reached ↦ over (inr reached)
        | inr below ↦ elim (Outcome-cases (add_seconds now s)) [
          | inl (t, et) ↦ rw (at_next counts now s error e below) (
              rw et (
                going_on job now t error s w active e below,
                advanced-not_due job now t s error w e et,
                refl,
              ))
          | inr (x, ex) ↦
              rw (at_next counts now s error e below)
                (rw ex (counted-IsWithin job now error s w active e below))
        ]
      ]
    ]

-- ===== src/Service/Schedules/Due.antt =====
-- What `list_due_scheduled_jobs` of backend/app/services/company.py lists.
use bug_free_enigma.Base.{ℕ, zero, suc, true, List, [], ◌∷◌, ◌≡◌, inl, inr, filter, All, Bool-cases}
use bug_free_enigma.Base.Dict.{values}
use bug_free_enigma.Core.Time.{Instant}
use bug_free_enigma.Core.Models.Schedule.{ScheduledJob}
use bug_free_enigma.Service.State.{Company}
use bug_free_enigma.Service.Schedules.Ticks.{is_due, job_le, insert_job, sort_jobs, take, due_jobs}

module _ {κ} (P : ScheduledJob → Type κ) where
  pub All-insert_job :
      (j : ScheduledJob) (js : List ScheduledJob) → P j → All P js → All P (insert_job j js)
  All-insert_job j [] p h = (p, tt)
  All-insert_job j (k ∷ ks) p h = elim (Bool-cases (job_le j k)) [
    | inl before ↦ rw before (p, h)
    | inr after ↦ rw after (h.0, All-insert_job j ks p h.1)
  ]

  All-sort_jobs : (js : List ScheduledJob) → All P js → All P (sort_jobs js)
  unfolding sort_jobs
  All-sort_jobs [] h = tt
  All-sort_jobs (j ∷ js) h = All-insert_job j (sort_jobs js) h.0 (All-sort_jobs js h.1)

  pub All-take : (n : ℕ) (js : List ScheduledJob) → All P js → All P (take n js)
  All-take zero js h = tt
  All-take (suc n) [] h = tt
  All-take (suc n) (j ∷ js) h = (h.0, All-take n js h.1)

  All-filter :
      (t : Instant) (js : List ScheduledJob)
      → All P js
      → All (λ (j : ScheduledJob). P j × (is_due t j ≡ true)) (filter (is_due t) js)
  All-filter t [] h = tt
  All-filter t (j ∷ js) h = elim (Bool-cases (is_due t j)) [
    | inl due ↦ rw due ((h.0, due), All-filter t js h.1)
    | inr later ↦ rw later (All-filter t js h.1)
  ]

-- Every job of the list is due, and what holds of the stored jobs holds of it.
pub due_jobs-All {κ} :
    (P : ScheduledJob → Type κ) (t : Instant) (limit : ℕ) (c : Company)
    → All P (values c.jobs)
    → All (λ (j : ScheduledJob). P j × (is_due t j ≡ true)) (due_jobs t limit c)
due_jobs-All P t limit c h =
    let Q : ScheduledJob → Type κ = λ j. P j × (is_due t j ≡ true) in
    All-take Q limit (sort_jobs (filter (is_due t) (values c.jobs)))
      (All-sort_jobs Q (filter (is_due t) (values c.jobs)) (All-filter P t (values c.jobs) h))

-- ===== src/Service/Schedules/Listing.antt =====
-- The order of the due jobs, and which of them are listed (`list_due_scheduled_jobs` of
-- backend/app/services/company.py).
use bug_free_enigma.Base.{
  ℕ, zero, suc, ◌≤◌, true, false, List, [], ◌∷◌, ◌≡◌, refl, ◌⊎◌, inl, inr, arith, filter, length,
  All, Bool-cases,
}
use bug_free_enigma.Base.Dict.{values}
use bug_free_enigma.Core.Time.{Instant}
use bug_free_enigma.Core.Models.Schedule.{ScheduledJob}
use bug_free_enigma.Service.State.{Company}
use bug_free_enigma.Service.Schedules.Ticks.{is_due, job_le, insert_job, sort_jobs, take, due_jobs}
use bug_free_enigma.Service.Schedules.Due.{All-insert_job, All-take}

-- The job is in the list.
abbrev pub Has : ScheduledJob → List ScheduledJob → Type 0
Has j [] = ⊥
Has j (k ∷ ks) = (k ≡ j) ⊎ Has j ks

-- No job of the list is due before an earlier one.
abbrev pub InOrder : List ScheduledJob → Type 0
InOrder [] = Unit {0}
InOrder (k ∷ ks) = All (λ (j : ScheduledJob). k.next_run_at ≤ j.next_run_at) ks × InOrder ks

Has-filter :
    (t : Instant) (j : ScheduledJob) (js : List ScheduledJob)
    → Has j js
    → is_due t j ≡ true
    → Has j (filter (is_due t) js)
Has-filter t j [] h due = elim h [ ]
Has-filter t j (k ∷ ks) (inl same) due = rw same (rw due (inl refl))
Has-filter t j (k ∷ ks) (inr later) due = elim (Bool-cases (is_due t k)) [
  | inl due_too ↦ rw due_too (inr (Has-filter t j ks later due))
  | inr idle ↦ rw idle (Has-filter t j ks later due)
]

Has-insert_job :
    (j k : ScheduledJob) (ks : List ScheduledJob) → (k ≡ j) ⊎ Has j ks → Has j (insert_job k ks)
Has-insert_job j k [] h = h
Has-insert_job j k (x ∷ xs) h = elim (Bool-cases (job_le k x)) [
  | inl before ↦ rw before h
  | inr after ↦ rw after (elim h [
    | inl same ↦ inr (Has-insert_job j k xs (inl same))
    | inr there ↦ elim there [
      | inl first ↦ inl first
      | inr rest ↦ inr (Has-insert_job j k xs (inr rest))
    ]
  ])
]

Has-sort_jobs : (j : ScheduledJob) (js : List ScheduledJob) → Has j js → Has j (sort_jobs js)
unfolding sort_jobs
Has-sort_jobs j [] h = elim h [ ]
Has-sort_jobs j (k ∷ ks) (inl same) = Has-insert_job j k (sort_jobs ks) (inl same)
Has-sort_jobs j (k ∷ ks) (inr later) =
    Has-insert_job j k (sort_jobs ks) (inr (Has-sort_jobs j ks later))

Has-take :
    (j : ScheduledJob) (n : ℕ) (js : List ScheduledJob)
    → Has j js
    → Has j (take n js) ⊎ (length (take n js) ≡ n)
Has-take j zero js h = inr refl
Has-take j (suc n) [] h = elim h [ ]
Has-take j (suc n) (k ∷ ks) (inl same) = inl (inl same)
Has-take j (suc n) (k ∷ ks) (inr later) = elim (Has-take j n ks later) [
  | inl there ↦ inl (inr there)
  | inr full ↦ inr (omega (arith, full))
]

All-later :
    (a b : ℕ) (js : List ScheduledJob)
    → a ≤ b
    → All (λ (j : ScheduledJob). b ≤ j.next_run_at) js
    → All (λ (j : ScheduledJob). a ≤ j.next_run_at) js
All-later a b [] le h = tt
All-later a b (j ∷ js) le h = (ground (arith, h.0), All-later a b js le h.1)

job_le-times : (j k : ScheduledJob) → job_le j k ≡ true → j.next_run_at ≤ k.next_run_at
job_le-times j k h = ground arith

not-job_le-times : (j k : ScheduledJob) → job_le j k ≡ false → k.next_run_at ≤ j.next_run_at
not-job_le-times j k h = ground arith

InOrder-insert_job :
    (j : ScheduledJob) (ks : List ScheduledJob) → InOrder ks → InOrder (insert_job j ks)
InOrder-insert_job j [] h = (tt, tt)
InOrder-insert_job j (k ∷ ks) h = elim (Bool-cases (job_le j k)) [
  | inl before ↦
      let le = job_le-times j k before in
      rw before ((le, All-later j.next_run_at k.next_run_at ks le h.0), h)
  | inr after ↦ rw after (
    All-insert_job (λ (x : ScheduledJob). k.next_run_at ≤ x.next_run_at) j ks
        (not-job_le-times j k after) h.0,
    InOrder-insert_job j ks h.1,
  )
]

InOrder-sort_jobs : (js : List ScheduledJob) → InOrder (sort_jobs js)
unfolding sort_jobs
InOrder-sort_jobs [] = tt
InOrder-sort_jobs (j ∷ js) = InOrder-insert_job j (sort_jobs js) (InOrder-sort_jobs js)

InOrder-take : (n : ℕ) (js : List ScheduledJob) → InOrder js → InOrder (take n js)
InOrder-take zero js h = tt
InOrder-take (suc n) [] h = tt
InOrder-take (suc n) (j ∷ js) h = (All-take _ n js h.0, InOrder-take n js h.1)

pub InOrder-due_jobs : (t : Instant) (limit : ℕ) (c : Company) → InOrder (due_jobs t limit c)
InOrder-due_jobs t limit c =
    InOrder-take limit _ (InOrder-sort_jobs (filter (is_due t) (values c.jobs)))

-- A stored job that is active and whose time has come is among the listed jobs, unless the list has
-- reached its limit.
pub Has-due_jobs :
    (t : Instant) (limit : ℕ) (c : Company) (j : ScheduledJob)
    → Has j (values c.jobs)
    → is_due t j ≡ true
    → Has j (due_jobs t limit c) ⊎ (length (due_jobs t limit c) ≡ limit)
Has-due_jobs t limit c j stored due =
    let listed = filter (is_due t) (values c.jobs) in
    Has-take j limit (sort_jobs listed)
      (Has-sort_jobs j listed (Has-filter t j (values c.jobs) stored due))

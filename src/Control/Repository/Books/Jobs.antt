-- ===== src/Control/Repository/Books/Jobs.antt =====
-- The books under the calls that write a job.
use mathlib.Core.Path.{◌∙◌}
use astrum_weaver.Prelude.{
  ℕ, ◌+◌, ◌≤◌, ◌<◌, String, ◌≡◌, refl, sym, subst, Bool, true, false, Option, none, some, arith,
  Bool-cases, inl, inr,
}
use astrum_weaver.Dict.{get, put}
use astrum_weaver.Value.{Mapping}
use astrum_weaver.Execution.{JobResult}
use astrum_weaver.Control.Models.{JobRecord, JobSubmission, running, is_running, offline}
use astrum_weaver.Control.Repository.State.{Repository, release_worker_capacity, lease_time}
use astrum_weaver.Control.Repository.Jobs.{
  submit_job, enqueue, claim_next_job, complete_job, fail_job, may_retry, cancel_job,
  freed_by_cancel,
}
use astrum_weaver.Control.Repository.Jobs.Updates.{
  ErrorPayload, claimed, completed, failed_with, cancelled_at, new_job,
}
use astrum_weaver.Control.Repository.Cases.{
  claim_next_job_cases, complete_job_cases, fail_job_cases, cancel_job_cases, submit_job_cases,
}
use astrum_weaver.Control.Repository.Lifecycle.{
  IsJob, Fits, is_given, new_job-IsJob, claimed-IsJob, completed-IsJob, failed_with-IsJob,
  cancelled_at-IsJob, is_running-eq,
}
use astrum_weaver.Control.Repository.Lease.{assert_running-holds}
use astrum_weaver.Control.Repository.Accounting.{
  IsBooked, Account-of, replaced-IsBooked, settled-IsBooked, claimed-IsBooked, enqueued-IsBooked,
  with_worker-IsBooked, not-held,
}
use astrum_weaver.Control.Repository.Selection.{choice, is_eligible-queued}
use astrum_weaver.Control.Repository.Books.Workers.{Booked, IsJob-at}

pub may_retry-room :
    (retryable : Bool) (j : JobRecord) → may_retry retryable j ≡ true → j.attempts < j.max_attempts
unfolding may_retry
may_retry-room retryable j h = ground (arith, h)

not_running-failed_with :
    (j : JobRecord) (error : Mapping) (retry : Bool) (now : ℕ)
    → is_running (failed_with j error retry now).status ≡ false
unfolding failed_with
not_running-failed_with j error true now = refl
not_running-failed_with j error false now = refl

given : {A : Type 0} (o : Option A) → is_given o ≡ true → (a : A) × (o ≡ some a)
given none h = absurd (cc)
given (some a) h = (a, refl)

module _ (s : Repository) (b : IsBooked s) where
  pub complete-Booked :
      (key : String) (result : JobResult) (id token : String) (now : ℕ)
      → Booked (complete_job key result id token now s)
  unfolding completed
  complete-Booked key result id token now =
      complete_job_cases Booked key result id token now s (λ e. b)
        λ j found runs.
          let held = assert_running-holds j id token now runs in
          settled-IsBooked s b key j (completed j result now) found id held.runs held.assigned
            (completed-IsJob s.sequence key j result now held.runs (IsJob-at s b key j found)) refl

  pub fail-Booked :
      (key : String) (error : ErrorPayload) (retryable : Bool) (id token : String) (now : ℕ)
      → Booked (fail_job key error retryable id token now s)
  fail-Booked key error retryable id token now =
      fail_job_cases Booked key error retryable id token now s (λ e. b)
        λ j found runs.
          let held = assert_running-holds j id token now runs in
          settled-IsBooked s b key j _ found id held.runs held.assigned
            (failed_with-IsJob s.sequence key j _ (may_retry retryable j) now held.runs
              (may_retry-room retryable j) (IsJob-at s b key j found))
            (not_running-failed_with j _ (may_retry retryable j) now)

  -- A running job is settled by whoever it is assigned to.
  pub released-IsBooked :
      (key : String) (j j' : JobRecord)
      → get key s.jobs ≡ some j
      → j.status ≡ running
      → IsJob s.sequence key j'
      → is_running j'.status ≡ false
      → IsBooked (record s {
        jobs = put key j' s.jobs;
        workers = release_worker_capacity j.assigned_worker_id s.workers;
      })
  released-IsBooked key j j' found r ok' idle' =
      let f = subst (λ st. Fits st j) r (IsJob-at s b key j found).fits in
      let (id, a) = given j.assigned_worker_id f.0.worker in
      rw a (settled-IsBooked s b key j j' found id r a ok' idle')

  pub cancel-Booked : (key : String) (now : ℕ) → Booked (cancel_job key now s)
  unfolding freed_by_cancel cancelled_at
  cancel-Booked key now =
      cancel_job_cases Booked key now s (λ e. b) (λ j found ended. b)
        λ j found open'.
          let ok' = cancelled_at-IsJob s.sequence key j now (IsJob-at s b key j found) in
          elim (Bool-cases (is_running j.status)) [
            | inl e ↦
                rw (e, freed_by_cancel)
                  (released-IsBooked key j (cancelled_at j now) found (is_running-eq j.status e) ok'
                    refl)
            | inr e ↦
                rw (e, freed_by_cancel)
                  (replaced-IsBooked s b key j (cancelled_at j now) found ok'
                    (λ k. not-held (cancelled_at j now) refl k ∙ sym (not-held j e k)))
          ]

  pub claim-Booked : (id token : String) (now : ℕ) → Booked (claim_next_job id token now s)
  unfolding claimed
  claim-Booked id token now =
      claim_next_job_cases Booked id token now s (λ e. b)
        (λ w found.
          with_worker-IsBooked s b id (record w { state = offline }) (Account-of s b id w found))
        b
        λ w found on room j rest e.
          let c = choice s w.spec now j rest b e in
          let q = is_eligible-queued w.spec now j c.fit in
          claimed-IsBooked s b j.job_id j (claimed j id token now (now + lease_time s)) id w
            c.stored (rw q refl) found room refl refl
            (claimed-IsJob s.sequence j.job_id j id token now _ q
              (IsJob-at s b j.job_id j c.stored))

  pub submit-Booked :
      (submission : JobSubmission) (key : String) (now : ℕ)
      → 1 ≤ submission.max_attempts
      → get key s.jobs ≡ none
      → Booked (submit_job submission key now s)
  unfolding enqueue new_job
  submit-Booked submission key now one new =
      submit_job_cases Booked submission key now s (λ existing e. b)
        λ fresh.
          enqueued-IsBooked s b key _ _ new refl (new_job-IsJob submission key s.sequence now one)

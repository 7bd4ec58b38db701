-- ===== src/Control/Repository/Settling.antt =====
-- Completion and failure: who may settle a job, and to what.
pub mod Outcome
use mathlib.Core.Option
use astrum_weaver.Prelude.{
  ℕ, String, ◌≡◌, refl, sym, ap, ◌∙◌, subst, ◌⊎◌, inl, inr, Bool, false, some, ◌&&◌, ltb,
  Bool-cases, Option-cases,
}
use astrum_weaver.Dict.{get}
use astrum_weaver.Execution.{JobResult}
use astrum_weaver.Control.Models.{JobRecord}
use astrum_weaver.Control.Repository.State.{Repository}
use astrum_weaver.Control.Repository.Jobs.{
  held_job, complete_job, fail_job, may_retry, recover_expired_jobs, is_expired,
}
use astrum_weaver.Control.Repository.Jobs.Updates.{
  ErrorPayload, failure_payload, completed, failed_with, recovered,
}
use astrum_weaver.Control.Repository.Cases.{settled, get_job-eq, complete_job_cases, fail_job_cases}
use astrum_weaver.Control.Repository.Settling.Outcome.{
  Stores, Succeeds, Fails, settled-Stores, completed-Succeeds, failed_with-Fails,
}
use astrum_weaver.Control.Repository.Lease.{HoldsLease, assert_running_iff, assert_running-holds}
use astrum_weaver.Control.Repository.Accounting.{IsBooked}
use astrum_weaver.Control.Repository.Books.{recovered-idle}
use astrum_weaver.Control.Repository.Sweeps.{swept, recover_expired_jobs-get}
use astrum_weaver.Result.{Error, Result, ok, err}

module _ (s : Repository) (key id token : String) (now : ℕ) (j : JobRecord)
    (found : get key s.jobs ≡ some j) where
  holder-held_job : HoldsLease j id token now → held_job s key id token now ≡ ok j
  unfolding held_job
  holder-held_job h = rw (get_job-eq s key found) (rw ((assert_running_iff j id token now).1 h))

  pub holder_complete :
      (result : JobResult)
      → HoldsLease j id token now
      → complete_job key result id token now s
        ≡ (ok (completed j result now), settled key (completed j result now) id s)
  unfolding complete_job
  holder_complete result h = rw (holder-held_job h)

  pub holder-fail :
      (error : ErrorPayload) (retryable : Bool)
      → HoldsLease j id token now
      → let retry = retryable && ltb j.attempts j.max_attempts in
        let j' = failed_with j (failure_payload error retry) retry now in
        fail_job key error retryable id token now s ≡ (ok j', settled key j' id s)
  unfolding fail_job
  holder-fail error retryable h = rw (holder-held_job h)

not_refused :
    {e : Error} {a : JobRecord} {s t : Repository} {x y : Result JobRecord × Repository}
    → x ≡ (err e, s)
    → y ≡ (ok a, t)
    → x ≡ y
    → ⊥
not_refused h k same = cc (ap (λ (r : Result JobRecord × Repository). r.0) (sym h ∙ (same ∙ k)))

-- A completion either raises, changes nothing, and its caller holds no live lease of the job; or its
-- caller holds the live lease of the stored job, which then has succeeded with the result, is held by
-- no one and is stored, while one slot of the worker is free again and all else is as before.
pub complete_job-outcome :
    (s : Repository) (key : String) (result : JobResult) (id token : String) (now : ℕ)
    → let (r, s') = complete_job key result id token now s in
      ((e : Error) × (r ≡ err e)
        × (s' ≡ s)
        × ((j : JobRecord) → get key s.jobs ≡ some j → HoldsLease j id token now → ⊥))
      ⊎ ((j : JobRecord) × (j' : JobRecord) × (get key s.jobs ≡ some j)
          × HoldsLease j id token now
          × (r ≡ ok j')
          × Succeeds j result now j'
          × Stores s s' key id j')
complete_job-outcome s key result id token now =
    complete_job_cases
      (λ r.
        complete_job key result id token now s ≡ r
        → ((e : Error) × (r.0 ≡ err e)
            × (r.1 ≡ s)
            × ((j : JobRecord) → get key s.jobs ≡ some j → HoldsLease j id token now → ⊥))
          ⊎ ((j : JobRecord) × (j' : JobRecord) × (get key s.jobs ≡ some j)
              × HoldsLease j id token now
              × (r.0 ≡ ok j')
              × Succeeds j result now j'
              × Stores s r.1 key id j'))
      key result id token now s
      (λ e same. inl (
        e,
        refl,
        refl,
        λ j found h. not_refused same (holder_complete s key id token now j found result h) refl,
      ))
      (λ j found runs same. inr (
        j,
        completed j result now,
        found,
        assert_running-holds j id token now runs,
        refl,
        completed-Succeeds j result now,
        settled-Stores s key id (completed j result now),
      ))
      refl

-- A failure either raises, changes nothing, and its caller holds no live lease of the job; or its caller
-- holds the live lease of the stored job, which is held by no one then: it is queued again and available
-- at once if the failure is retryable and an attempt is left, and failed otherwise, and its error says
-- which. That job is stored, one slot of the worker is free again, and all else is as before.
pub fail_job-outcome :
    (s : Repository) (key : String) (error : ErrorPayload) (retryable : Bool) (id token : String)
    (now : ℕ)
    → let (r, s') = fail_job key error retryable id token now s in
      ((e : Error) × (r ≡ err e)
        × (s' ≡ s)
        × ((j : JobRecord) → get key s.jobs ≡ some j → HoldsLease j id token now → ⊥))
      ⊎ ((j : JobRecord) × (j' : JobRecord) × (get key s.jobs ≡ some j)
          × HoldsLease j id token now
          × (r ≡ ok j')
          × Fails j retryable now j'
          × Stores s s' key id j')
unfolding may_retry
fail_job-outcome s key error retryable id token now =
    fail_job_cases
      (λ r.
        fail_job key error retryable id token now s ≡ r
        → ((e : Error) × (r.0 ≡ err e)
            × (r.1 ≡ s)
            × ((j : JobRecord) → get key s.jobs ≡ some j → HoldsLease j id token now → ⊥))
          ⊎ ((j : JobRecord) × (j' : JobRecord) × (get key s.jobs ≡ some j)
              × HoldsLease j id token now
              × (r.0 ≡ ok j')
              × Fails j retryable now j'
              × Stores s r.1 key id j'))
      key error retryable id token now s
      (λ e same. inl (
        e,
        refl,
        refl,
        λ j found h.
            not_refused same (holder-fail s key id token now j found error retryable h) refl,
      ))
      (λ j found runs same. inr (
        j,
        _,
        found,
        assert_running-holds j id token now runs,
        refl,
        failed_with-Fails j error now retryable,
        settled-Stores s key id _,
      ))
      refl

recovered-not-expired : (j : JobRecord) (now : ℕ) → is_expired now (recovered j now) ≡ false
unfolding is_expired
recovered-not-expired j now = rw (recovered-idle j now)

swept-clean : (now : ℕ) (j : JobRecord) → is_expired now (swept now j) ≡ false
swept-clean now j = elim (Bool-cases (is_expired now j)) [
  | inl e ↦ rw e (recovered-not-expired j now)
  | inr e ↦ rw e e
]

-- After recovery no stored job is running with a lease that has run out.
pub recover_expired_jobs-clean :
    (now : ℕ) (s : Repository) (key : String) (j : JobRecord)
    → IsBooked s
    → get key (recover_expired_jobs now s).1.jobs ≡ some j
    → is_expired now j ≡ false
recover_expired_jobs-clean now s key j b found =
    let e = sym (recover_expired_jobs-get now s key b) ∙ found in
    elim (Option-cases (get key s.jobs)) [
      | inl o ↦ absurd (cc (ap (Option.map (swept now)) (sym o) ∙ e))
      | inr (i, o) ↦
          let same : swept now i ≡ j = cc (ap (Option.map (swept now)) (sym o) ∙ e) in
          subst (λ x. is_expired now x ≡ false) same (swept-clean now i)
    ]

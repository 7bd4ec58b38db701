-- ===== src/Control/Repository/Idempotency.antt =====
-- Idempotency keys: a key names one job for ever, and a submission that repeats a key makes no job.
pub mod Keys
use astrum_weaver.Prelude.{
  ℕ, ◌<◌, String, ◌≡◌, ◌≢◌, sym, subst, Bool, true, false, Option, none, some, List, arith, ◌==◌,
  if◌then◌else◌, ltb, not, ◌||◌, ltb_ℤ, ◌&&◌, nat_eq, nat_eq_iff,
}
use astrum_weaver.Dict.{get}
use astrum_weaver.Dict.Laws.{get-put_self}
use astrum_weaver.Value.{Mapping, mapping_eq}
use astrum_weaver.Contracts.Equality.{requirements_eq}
use astrum_weaver.Control.Repository.Cases.{settled}
use astrum_weaver.Control.Models.{JobRecord, JobSubmission}
use astrum_weaver.Control.Repository.State.{Repository}
use astrum_weaver.Control.Repository.Jobs.{
  submit_job, submission_matches, key_of, fail_job, available_matches,
}
use astrum_weaver.Control.Repository.Jobs.Updates.{ErrorPayload, failure_payload, failed_with}
use astrum_weaver.Control.Repository.Lease.{HoldsLease}
use astrum_weaver.Control.Repository.Settling.{holder-fail}
use astrum_weaver.Control.Repository.Accounting.{IsBooked}
use astrum_weaver.Control.Repository.Books.{step-IsBooked}
use astrum_weaver.Control.Repository.Calls.{Call, submit, step, run, IsValidCall, IsValidHistory}
use astrum_weaver.Control.Repository.History.{run-Survives}
use astrum_weaver.Result.{ok, err, conflict, idempotency_reused}
use astrum_weaver.Control.Repository.Idempotency.Keys.{run-Remembers, missing, repeated, submit-new}

-- After a submission under a new key, whatever calls follow, a submission that repeats the key makes
-- no job: it returns the first one as it then stands, or raises a conflict if the requests differ.
pub resubmit :
    (s : Repository) (key job_id id : String) (first again : JobSubmission) (now later : ℕ)
    (cs : List Call)
    → IsBooked s
    → IsValidCall s (submit first job_id now)
    → key_of first ≡ some key
    → key_of again ≡ some key
    → get key s.idempotency ≡ none
    → let s' = step s (submit first job_id now) in
      IsValidHistory s' cs
      → (j : JobRecord) × (get job_id (run s' cs).jobs ≡ some j)
        × (submit_job again id later (run s' cs) ≡ (
          (if submission_matches j again then ok j else err (conflict idempotency_reused)),
          run s' cs,
        ))
resubmit s key job_id id first again now later cs b v k₁ k₂ new vs =
    let (known, found) =
      submit-new s key job_id first now (missing s key (key_of first) k₁ new) k₁ in
    let s' = step s (submit first job_id now) in
    let survives =
      run-Survives s' cs job_id _ (step-IsBooked s (submit first job_id now) v b) vs found in
    (
      survives.now_as,
      survives.found,
      repeated (run s' cs) key job_id survives.now_as again id later
          (run-Remembers key job_id s' cs known) survives.found k₂,
    )

last_false : (a b c d e f : Bool) → f ≡ false → (a && b && c && d && e && f) ≡ false
last_false a b c d e f h = ground (arith, h)

available-differs :
    (j : JobRecord) (o : Option ℕ) (t : ℕ)
    → o ≡ some t
    → t ≢ j.available_at
    → available_matches j o ≡ false
unfolding available_matches
available-differs j o t e differs = rw e (ground (arith, nat_eq_iff j.available_at t, differs))

matches-available :
    (j : JobRecord) (submission : JobSubmission)
    → available_matches j submission.available_at ≡ false
    → submission_matches j submission ≡ false
unfolding submission_matches
matches-available j submission h =
    last_false (j.capability == submission.capability) (mapping_eq j.payload submission.payload)
      (requirements_eq j.requirements submission.requirements)
      (not (ltb_ℤ j.priority submission.priority || ltb_ℤ submission.priority j.priority))
      (nat_eq j.max_attempts submission.max_attempts) (available_matches j submission.available_at)
      h

-- A requeued job is available at the time of its failure.
requeued-mismatch :
    (j : JobRecord) (submission : JobSubmission) (error : Mapping) (now t : ℕ)
    → submission.available_at ≡ some t
    → t ≢ now
    → submission_matches (failed_with j error true now) submission ≡ false
unfolding failed_with
requeued-mismatch j submission error now t at differs =
    let j' = failed_with j error true now in
    matches-available j' submission (available-differs j' submission.available_at t at differs)

-- Once the holder of a job has failed it and the job is queued again, the submission that created the
-- job, repeated with its key, no longer returns the job if it asked for a time other than the failure's:
-- it raises a conflict and changes nothing.
pub requeued-conflict :
    (s : Repository) (key job_id id token : String) (j : JobRecord) (submission : JobSubmission)
    (error : ErrorPayload) (now t later : ℕ) (new_id : String)
    → get key s.idempotency ≡ some job_id
    → get job_id s.jobs ≡ some j
    → key_of submission ≡ some key
    → HoldsLease j id token now
    → j.attempts < j.max_attempts
    → submission.available_at ≡ some t
    → t ≢ now
    → let s' = (fail_job job_id error true id token now s).1 in
      submit_job submission new_id later s' ≡ (err (conflict idempotency_reused), s')
requeued-conflict s key job_id id token j submission error now t later new_id known found named
      lease left at differs =
    let after : Bool → JobRecord = λ retry. failed_with j (failure_payload error retry) retry now in
    let retry : (true && ltb j.attempts j.max_attempts) ≡ true = ground (arith, left) in
    let failed_to : fail_job job_id error true id token now s
        ≡ (ok (after true), settled job_id (after true) id s) =
      subst
        (λ b.
          fail_job job_id error true id token now s ≡ (ok (after b), settled job_id (after b) id s))
        retry (holder-fail s job_id id token now j found error true lease) in
    let s' = settled job_id (after true) id s in
    subst (λ x. submit_job submission new_id later x.1 ≡ (err (conflict idempotency_reused), x.1))
      (sym failed_to)
      (subst
        (λ b.
          submit_job submission new_id later s'
          ≡ ((if b then ok (after true) else err (conflict idempotency_reused)), s'))
        (requeued-mismatch j submission (failure_payload error true) now t at differs)
        (repeated s' key job_id (after true) submission new_id later known
          (get-put_self job_id (after true) s.jobs) named))

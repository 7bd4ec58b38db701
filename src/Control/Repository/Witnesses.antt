-- ===== src/Control/Repository/Witnesses.antt =====
-- The theorems on the repository, at the history of the examples.
use mathlib.Core.Option
use astrum_weaver.Prelude.{
  ◌-◌, ◌≡◌, refl, ◌↔◌, ◌⊎◌, true, some, [], ◌∷◌, arith, map, select, All, false, if◌then◌else◌,
}
use astrum_weaver.Dict.{get, values}
use astrum_weaver.Control.Models.{JobRecord}
use astrum_weaver.Control.Repository.State.{assert_running, worker_ttl}
use astrum_weaver.Control.Repository.Workers.{expire_stale_workers}
use astrum_weaver.Control.Repository.Jobs.{
  is_expired, complete_job, fail_job, recover_expired_jobs, submission_matches, submit_job,
}
use astrum_weaver.Control.Repository.Jobs.Updates.{message}
use astrum_weaver.Control.Repository.Lease.{HoldsLease, assert_running_iff}
use astrum_weaver.Control.Repository.Claims.{ClaimOutcome, claim_next_job-outcome}
use astrum_weaver.Control.Repository.Calls.{
  submit, complete, cancel, recover_jobs, expire_workers, step, run,
}
use astrum_weaver.Control.Repository.Accounting.{IsBooked}
use astrum_weaver.Control.Repository.Books.{run-IsBooked, new-IsBooked}
use astrum_weaver.Control.Repository.Ownership.Apart.{IsExclusive}
use astrum_weaver.Control.Repository.Safety.{run-IsExclusive}
use astrum_weaver.Control.Repository.Settling.{
  complete_job-outcome, fail_job-outcome, recover_expired_jobs-clean,
}
use astrum_weaver.Control.Repository.Settling.Outcome.{Stores, Succeeds, Fails}
use astrum_weaver.Control.Repository.Sweeps.{
  swept, aged, recover_expired_jobs-get, recover_expired_jobs-returns, expire_stale_workers-get,
}
use astrum_weaver.Control.Repository.Evolution.{Evolved, step-Evolved}
use astrum_weaver.Control.Repository.History.{run-terminal, Survives, run-Survives}
use astrum_weaver.Control.Repository.Idempotency.{resubmit, requeued-conflict}
use astrum_weaver.Control.Repository.Atomicity.{step-raised}
use astrum_weaver.Result.{Error, ok, err, conflict, assigned_elsewhere, idempotency_reused}
use astrum_weaver.Control.Repository.Examples.{
  fresh, fresh-IsNew, encode, queued_state, queued_state-IsBooked, claimed_state,
  claimed_state-IsBooked, claimed_history, claimed_history-IsValid, worker_one, worker_one-IsReady,
  running_job, running_job-found, running_job-held, running_job-retries, encoded, done_state,
  done_state-IsBooked, done_job, done_job-found, done_job-ended, order-known, fresh-submission,
  fresh-order, other_worker-refused, swept_job-found,
}

run-IsBooked_example : IsBooked claimed_state
run-IsBooked_example = run-IsBooked fresh claimed_history fresh-IsNew claimed_history-IsValid

run-IsExclusive_example : IsExclusive claimed_state.workers
run-IsExclusive_example = run-IsExclusive fresh claimed_history fresh-IsNew claimed_history-IsValid

assert_running_iff_example :
    (assert_running running_job "w1" "token-1" 4000000 ≡ ok tt)
    ↔ HoldsLease running_job "w1" "token-1" 4000000
assert_running_iff_example = assert_running_iff running_job "w1" "token-1" 4000000

claim_next_job-outcome_example : ClaimOutcome queued_state "w1" "token-1" 3000000 worker_one
claim_next_job-outcome_example =
    claim_next_job-outcome queued_state "w1" "token-1" 3000000 worker_one queued_state-IsBooked
      worker_one-IsReady

step-Evolved_example :
    Evolved "job-1" running_job (step claimed_state (cancel "job-1" 5000000)).jobs
step-Evolved_example =
    step-Evolved claimed_state claimed_state-IsBooked "job-1" running_job running_job-found
      (cancel "job-1" 5000000) tt

run-terminal_example :
    get "job-1" (run done_state (cancel "job-1" 5000000 ∷ [])).jobs ≡ some done_job
run-terminal_example =
    run-terminal done_state (cancel "job-1" 5000000 ∷ []) "job-1" done_job done_state-IsBooked
      (tt, tt) done_job-found done_job-ended

run-Survives_example :
    Survives "job-1" running_job (run claimed_state (recover_jobs 400000000 ∷ []))
run-Survives_example =
    run-Survives claimed_state (recover_jobs 400000000 ∷ []) "job-1" running_job
      claimed_state-IsBooked (tt, tt) running_job-found

recover_expired_jobs-get_example :
    get "job-1" (recover_expired_jobs 400000000 claimed_state).1.jobs
    ≡ Option.map (swept 400000000) (get "job-1" claimed_state.jobs)
recover_expired_jobs-get_example =
    recover_expired_jobs-get 400000000 claimed_state "job-1" claimed_state-IsBooked

expire_stale_workers-get_example :
    get "w1" (expire_stale_workers 400000000 claimed_state).1.workers
    ≡ Option.map (aged (400000000 - worker_ttl claimed_state)) (get "w1" claimed_state.workers)
expire_stale_workers-get_example =
    expire_stale_workers-get 400000000 claimed_state "w1" claimed_state-IsBooked

recover_expired_jobs-returns_example :
    let (jobs, s') = recover_expired_jobs 400000000 claimed_state in
    (map (λ j. j.job_id) jobs
      ≡ map (λ j. j.job_id) (select (is_expired 400000000) (values claimed_state.jobs)))
    × All (λ j. get j.job_id s'.jobs ≡ some j) jobs
recover_expired_jobs-returns_example =
    recover_expired_jobs-returns 400000000 claimed_state claimed_state-IsBooked

recover_expired_jobs-clean_example : is_expired 400000000 (swept 400000000 running_job) ≡ false
recover_expired_jobs-clean_example =
    recover_expired_jobs-clean 400000000 claimed_state "job-1" (swept 400000000 running_job)
      claimed_state-IsBooked swept_job-found

complete_job-outcome_example :
    let (r, s') = complete_job "job-1" encoded "w1" "token-1" 4000000 claimed_state in
    ((e : Error) × (r ≡ err e)
      × (s' ≡ claimed_state)
      × ((j : JobRecord)
          → get "job-1" claimed_state.jobs ≡ some j
          → HoldsLease j "w1" "token-1" 4000000
          → ⊥))
    ⊎ ((j : JobRecord) × (j' : JobRecord) × (get "job-1" claimed_state.jobs ≡ some j)
        × HoldsLease j "w1" "token-1" 4000000
        × (r ≡ ok j')
        × Succeeds j encoded 4000000 j'
        × Stores claimed_state s' "job-1" "w1" j')
complete_job-outcome_example =
    complete_job-outcome claimed_state "job-1" encoded "w1" "token-1" 4000000

fail_job-outcome_example :
    let (r, s') = fail_job "job-1" (message "no input") true "w1" "token-1" 4000000 claimed_state in
    ((e : Error) × (r ≡ err e)
      × (s' ≡ claimed_state)
      × ((j : JobRecord)
          → get "job-1" claimed_state.jobs ≡ some j
          → HoldsLease j "w1" "token-1" 4000000
          → ⊥))
    ⊎ ((j : JobRecord) × (j' : JobRecord) × (get "job-1" claimed_state.jobs ≡ some j)
        × HoldsLease j "w1" "token-1" 4000000
        × (r ≡ ok j')
        × Fails j true 4000000 j'
        × Stores claimed_state s' "job-1" "w1" j')
fail_job-outcome_example =
    fail_job-outcome claimed_state "job-1" (message "no input") true "w1" "token-1" 4000000

resubmit_example :
    let s' = step fresh (submit encode "job-1" 2000000) in
    let later = run s' (expire_workers 3000000 ∷ []) in
    (j : JobRecord) × (get "job-1" later.jobs ≡ some j)
    × (submit_job encode "job-2" 4000000 later ≡ (
      (if submission_matches j encode then ok j else err (conflict idempotency_reused)),
      later,
    ))
resubmit_example =
    resubmit fresh "order-1" "job-1" "job-2" encode encode 2000000 4000000
      (expire_workers 3000000 ∷ []) (new-IsBooked fresh fresh-IsNew) fresh-submission refl refl
      fresh-order (tt, tt)

requeued-conflict_example :
    let s' = (fail_job "job-1" (message "no input") true "w1" "token-1" 4000000 claimed_state).1 in
    submit_job encode "job-2" 5000000 s' ≡ (err (conflict idempotency_reused), s')
requeued-conflict_example =
    requeued-conflict claimed_state "order-1" "job-1" "w1" "token-1" running_job encode
      (message "no input") 4000000 1500000 5000000 "job-2" order-known running_job-found refl
      running_job-held running_job-retries refl (λ h. omega (arith, h))

step-raised_example :
    step claimed_state (complete "job-1" encoded "w2" "token-1" 4000000) ≡ claimed_state
step-raised_example =
    step-raised claimed_state (complete "job-1" encoded "w2" "token-1" 4000000)
      (conflict assigned_elsewhere) other_worker-refused

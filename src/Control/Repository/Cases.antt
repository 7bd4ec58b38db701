-- ===== src/Control/Repository/Cases.antt =====
-- How each method of the repository can end: a rule for every method, with what its checks found.
use astrum_weaver.Prelude.{
  ℕ, ◌-◌, ◌+◌, ◌<◌, String, ◌≡◌, refl, subst, Bool, true, false, not, Option, none, some, List, [],
  ◌∷◌, ltb, leb, arith, Option-cases, inl, inr,
}
use astrum_weaver.Dict.{Dict, get, put}
use astrum_weaver.Execution.{JobResult}
use astrum_weaver.Control.Models.{
  WorkerRegistration, WorkerHeartbeat, WorkerRecord, WorkerState, offline, JobRecord, JobSubmission,
  is_online, is_terminal,
}
use astrum_weaver.Control.Repository.State.{
  Repository, worker_ttl, lease_time, get_worker, get_job, assert_running,
  assert_gpu_ownership_available, release_worker_capacity,
}
use astrum_weaver.Control.Repository.Workers.{
  with_worker, check_existing, registered, register_worker, check_ownership, set_worker_state,
  beaten, heartbeat_checks, heartbeat_worker,
}
use astrum_weaver.Control.Repository.Jobs.{
  with_job, held_job, claim_first, claim_next_job, eligible, sort_eligible, complete_job, fail_job,
  may_retry, cancel_job, freed_by_cancel, submit_job, existing_job, resubmitted, enqueue, key_of,
}
use astrum_weaver.Control.Repository.Jobs.Updates.{
  ErrorPayload, failure_payload, claimed, completed, failed_with, cancelled_at,
}
use astrum_weaver.Result.{Error, Result, ok, err, >>=-eq-ok, checked_cases, if_cases}

get_worker-ok :
    (s : Repository) (id : String) {w : WorkerRecord}
    → get_worker s id ≡ ok w
    → get id s.workers ≡ some w
unfolding get_worker
get_worker-ok s id h = ground (arith, h)

pub get_worker-eq :
    (s : Repository) (id : String) {w : WorkerRecord}
    → get id s.workers ≡ some w
    → get_worker s id ≡ ok w
unfolding get_worker
get_worker-eq s id h = ground (arith, h)

pub get_job-eq :
    (s : Repository) (id : String) {j : JobRecord} → get id s.jobs ≡ some j → get_job s id ≡ ok j
unfolding get_job
get_job-eq s id h = ground (arith, h)

pub get_job-ok :
    (s : Repository) (id : String) {j : JobRecord} → get_job s id ≡ ok j → get id s.jobs ≡ some j
unfolding get_job
get_job-ok s id h = ground (arith, h)

pub register_worker_cases {ℓ} :
    (P : Result WorkerRecord × Repository → Type ℓ) (registration : WorkerRegistration) (now : ℕ)
    (s : Repository)
    → ((e : Error) → P (err e, s))
    → (let id = registration.spec.worker_id in
        check_existing registration (get id s.workers) ≡ ok tt
        → assert_gpu_ownership_available s registration id ≡ ok tt
        → P (ok (registered registration now s), with_worker id (registered registration now s) s))
    → P (register_worker registration now s)
unfolding register_worker
register_worker_cases P registration now s refused passed =
    checked_cases P s _ _ refused (λ a h. passed (ground (arith, h)) (ground (arith, h)))

pub set_worker_state_cases {ℓ} :
    (P : Result WorkerRecord × Repository → Type ℓ) (id : String) (state : WorkerState) (now : ℕ)
    (s : Repository)
    → ((e : Error) → P (err e, s))
    → ((w : WorkerRecord)
        → get id s.workers ≡ some w
        → check_ownership s id w state ≡ ok tt
        → let updated = record w { state = state; last_seen_at = now } in
          P (ok updated, with_worker id updated s))
    → P (set_worker_state id state now s)
unfolding set_worker_state
set_worker_state_cases P id state now s refused passed =
    checked_cases P s (get_worker s id) _ refused λ w found.
      checked_cases P s (check_ownership s id w state) _ refused
        λ _ free. passed w (get_worker-ok s id found) free

pub heartbeat_worker_cases {ℓ} :
    (P : Result WorkerRecord × Repository → Type ℓ) (id : String) (heartbeat : WorkerHeartbeat)
    (now : ℕ) (s : Repository)
    → ((e : Error) → P (err e, s))
    → ((w : WorkerRecord) (jobs : Dict JobRecord)
        → get id s.workers ≡ some w
        → heartbeat_checks s id heartbeat now w ≡ ok jobs
        → let s' = record s { jobs = jobs } in
          let updated = beaten id heartbeat now s' w in P (ok updated, with_worker id updated s'))
    → P (heartbeat_worker id heartbeat now s)
unfolding heartbeat_worker
heartbeat_worker_cases P id heartbeat now s refused passed =
    checked_cases P s (get_worker s id) _ refused λ w found.
      checked_cases P s (heartbeat_checks s id heartbeat now w) _ refused
        λ jobs h. passed w jobs (get_worker-ok s id found) h

claim_first_cases {ℓ} :
    (P : Result (Option JobRecord) × Repository → Type ℓ) (id token : String) (now : ℕ)
    (s : Repository) (w : WorkerRecord) (jobs : List JobRecord)
    → P (ok none, s)
    → ((selected : JobRecord) (rest : List JobRecord)
        → jobs ≡ selected ∷ rest
        → let job = claimed selected id token now (now + lease_time s) in
          P (
            ok (some job),
            with_worker id
                (record w { active_jobs = w.active_jobs + 1 })
                (with_job job.job_id job s),
          ))
    → P (claim_first id token now w jobs s)
unfolding claim_first
claim_first_cases P id token now s w [] idle taken = idle
claim_first_cases P id token now s w (selected ∷ rest) idle taken = taken selected rest refl

pub claim_next_job_cases {ℓ} :
    (P : Result (Option JobRecord) × Repository → Type ℓ) (id token : String) (now : ℕ)
    (s : Repository)
    → ((e : Error) → P (err e, s))
    → ((w : WorkerRecord)
        → get id s.workers ≡ some w
        → P (ok none, with_worker id (record w { state = offline }) s))
    → P (ok none, s)
    → ((w : WorkerRecord)
        → get id s.workers ≡ some w
        → is_online w.state ≡ true
        → w.active_jobs < w.max_concurrency
        → (selected : JobRecord) (rest : List JobRecord)
        → sort_eligible (eligible s w.spec now) ≡ selected ∷ rest
        → let job = claimed selected id token now (now + lease_time s) in
          P (
            ok (some job),
            with_worker id
                (record w { active_jobs = w.active_jobs + 1 })
                (with_job job.job_id job s),
          ))
    → P (claim_next_job id token now s)
unfolding claim_next_job
claim_next_job_cases P id token now s refused stale idle taken =
    checked_cases P s (get_worker s id) _ refused λ w found.
      let found' = get_worker-ok s id found in
      if_cases P (ltb (worker_ttl s) (now - w.last_seen_at)) (λ _. stale w found')
        λ _.
          if_cases P (not (is_online w.state)) (λ _. idle)
            λ on.
              if_cases P (leb w.max_concurrency w.active_jobs) (λ _. idle)
                λ room.
                  claim_first_cases P id token now s w (sort_eligible (eligible s w.spec now)) idle
                    (taken w found' (ground (arith, on)) (ground (arith, room)))

pub held_job-ok :
    (s : Repository) (job_id id token : String) (now : ℕ) {job : JobRecord}
    → held_job s job_id id token now ≡ ok job
    → (get job_id s.jobs ≡ some job) × (assert_running job id token now ≡ ok tt)
unfolding held_job
held_job-ok s job_id id token now {job} h =
    let (j, found, rest) = >>=-eq-ok (get_job s job_id) _ h in
    let (_, runs, same) = >>=-eq-ok (assert_running j id token now) _ rest in
    let e : j ≡ job = cc same in
    (get_job-ok s job_id (subst (λ x. get_job s job_id ≡ ok x) e found), rw (← e) runs)

-- A call that settles a held job frees one slot of its worker.
abbrev pub settled : String → JobRecord → String → Repository → Repository
settled job_id j id s = record s {
  jobs = put job_id j s.jobs;
  workers = release_worker_capacity (some id) s.workers;
}

pub complete_job_cases {ℓ} :
    (P : Result JobRecord × Repository → Type ℓ) (job_id : String) (result : JobResult)
    (id token : String) (now : ℕ) (s : Repository)
    → ((e : Error) → P (err e, s))
    → ((job : JobRecord)
        → get job_id s.jobs ≡ some job
        → assert_running job id token now ≡ ok tt
        → let j = completed job result now in P (ok j, settled job_id j id s))
    → P (complete_job job_id result id token now s)
unfolding complete_job
complete_job_cases P job_id result id token now s refused done =
    checked_cases P s (held_job s job_id id token now) _ refused
      λ job h. let held = held_job-ok s job_id id token now h in done job held.0 held.1

pub fail_job_cases {ℓ} :
    (P : Result JobRecord × Repository → Type ℓ) (job_id : String) (error : ErrorPayload)
    (retryable : Bool) (id token : String) (now : ℕ) (s : Repository)
    → ((e : Error) → P (err e, s))
    → ((job : JobRecord)
        → get job_id s.jobs ≡ some job
        → assert_running job id token now ≡ ok tt
        → let retry = may_retry retryable job in
          let j = failed_with job (failure_payload error retry) retry now in
          P (ok j, settled job_id j id s))
    → P (fail_job job_id error retryable id token now s)
unfolding fail_job
fail_job_cases P job_id error retryable id token now s refused done =
    checked_cases P s (held_job s job_id id token now) _ refused
      λ job h. let held = held_job-ok s job_id id token now h in done job held.0 held.1

pub cancel_job_cases {ℓ} :
    (P : Result JobRecord × Repository → Type ℓ) (job_id : String) (now : ℕ) (s : Repository)
    → ((e : Error) → P (err e, s))
    → ((job : JobRecord)
        → get job_id s.jobs ≡ some job
        → is_terminal job.status ≡ true
        → P (ok job, s))
    → ((job : JobRecord)
        → get job_id s.jobs ≡ some job
        → is_terminal job.status ≡ false
        → let j = cancelled_at job now in
          P (
            ok j,
            record s { jobs = put job_id j s.jobs; workers = freed_by_cancel job s.workers },
          ))
    → P (cancel_job job_id now s)
unfolding cancel_job
cancel_job_cases P job_id now s refused ended stopped =
    checked_cases P s (get_job s job_id) _ refused λ job h.
      let found = get_job-ok s job_id h in
      if_cases P (is_terminal job.status) (ended job found) (stopped job found)

pub submit_job_cases {ℓ} :
    (P : Result JobRecord × Repository → Type ℓ) (submission : JobSubmission) (job_id : String)
    (now : ℕ) (s : Repository)
    → ((existing_id : String)
        → existing_job s (key_of submission) ≡ some existing_id
        → P (resubmitted s submission existing_id, s))
    → (existing_job s (key_of submission) ≡ none
        → let (job, s') = enqueue submission job_id now s in P (ok job, s'))
    → P (submit_job submission job_id now s)
unfolding submit_job enqueue
submit_job_cases P submission job_id now s known new =
    elim (Option-cases (existing_job s (key_of submission))) [
      | inl e ↦ rw (e, submit_job) (new e)
      | inr (existing_id, e) ↦ rw (e, submit_job) (known existing_id e)
    ]

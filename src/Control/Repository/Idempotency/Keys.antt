-- ===== src/Control/Repository/Idempotency/Keys.antt =====
-- A stored key is kept by every call, and what a submission under a stored or a new key does.
use astrum_weaver.Prelude.{
  ℕ, ◌+◌, String, ◌≡◌, sym, ap, subst, Option, none, some, List, [], ◌∷◌, arith, eq_iff, Bool-cases,
  inl, inr, if◌then◌else◌,
}
use astrum_weaver.Dict.{Dict, get}
use astrum_weaver.Dict.Laws.{get-put, get-put_self}
use astrum_weaver.Control.Models.{JobRecord, JobSubmission, WorkerRecord}
use astrum_weaver.Control.Repository.State.{Repository}
use astrum_weaver.Control.Repository.Workers.{expire, is_fresh, expire_stale_workers}
use astrum_weaver.Control.Repository.Jobs.{
  submit_job, enqueue, remember, existing_job, resubmitted, submission_matches, key_of, recover,
  is_expired, recover_expired_jobs,
}
use astrum_weaver.Control.Repository.Jobs.Updates.{new_job}
use astrum_weaver.Control.Repository.Cases.{
  register_worker_cases, set_worker_state_cases, heartbeat_worker_cases, claim_next_job_cases,
  complete_job_cases, fail_job_cases, cancel_job_cases, submit_job_cases,
}
use astrum_weaver.Control.Repository.Calls.{
  Call, register, set_state, heartbeat, expire_workers, submit, claim, complete, fail, cancel,
  recover_jobs, step, run,
}
use astrum_weaver.Result.{ok, err, conflict, idempotency_reused}

module _ (key job_id : String) where
  abbrev Remembers : Repository → Type 0
  Remembers s = get key s.idempotency ≡ some job_id

  recover-Remembers :
      (now : ℕ) (rest : Dict JobRecord) (s : Repository)
      → Remembers s
      → Remembers (recover now rest s).1
  unfolding recover
  recover-Remembers now [] s h = h
  recover-Remembers now ((k, j) ∷ rest) s h = elim (Bool-cases (is_expired now j)) [
    | inl e ↦ rw (e, recover) (recover-Remembers now rest _ h)
    | inr e ↦ rw (e, recover) (recover-Remembers now rest s h)
  ]

  expire-Remembers :
      (cutoff : ℕ) (rest : Dict WorkerRecord) (s : Repository)
      → Remembers s
      → Remembers (expire cutoff rest s).1
  unfolding expire
  expire-Remembers cutoff [] s h = h
  expire-Remembers cutoff ((k, w) ∷ rest) s h = elim (Bool-cases (is_fresh cutoff w)) [
    | inl e ↦ rw (e, expire) (expire-Remembers cutoff rest s h)
    | inr e ↦ rw (e, expire) (expire-Remembers cutoff rest _ h)
  ]

  remember-Remembers :
      (o : Option String) (id : String) (s : Repository)
      → existing_job s o ≡ none
      → Remembers s
      → get key (remember o id s.idempotency) ≡ some job_id
  unfolding remember existing_job
  remember-Remembers none id s e h = h
  remember-Remembers (some k) id s e h =
      ground (arith, get-put k key id s.idempotency, eq_iff k key, e, h)

  step-Remembers : (s : Repository) (c : Call) → Remembers s → Remembers (step s c)
  unfolding step expire_stale_workers recover_expired_jobs enqueue
  step-Remembers s (register registration now) h =
      register_worker_cases (λ r. Remembers r.1) registration now s (λ e. h) (λ _ _. h)
  step-Remembers s (set_state id state now) h =
      set_worker_state_cases (λ r. Remembers r.1) id state now s (λ e. h) (λ _ _ _. h)
  step-Remembers s (heartbeat id beat now) h =
      heartbeat_worker_cases (λ r. Remembers r.1) id beat now s (λ e. h) (λ _ _ _ _. h)
  step-Remembers s (expire_workers now) h = expire-Remembers _ s.workers s h
  step-Remembers s (submit submission id now) h =
      submit_job_cases (λ r. Remembers r.1) submission id now s (λ _ _. h)
        (λ e. remember-Remembers (key_of submission) id s e h)
  step-Remembers s (claim id token now) h =
      claim_next_job_cases (λ r. Remembers r.1) id token now s (λ e. h) (λ _ _. h) h
        (λ _ _ _ _ _ _ _. h)
  step-Remembers s (complete k result id token now) h =
      complete_job_cases (λ r. Remembers r.1) k result id token now s (λ e. h) (λ _ _ _. h)
  step-Remembers s (fail k error retryable id token now) h =
      fail_job_cases (λ r. Remembers r.1) k error retryable id token now s (λ e. h) (λ _ _ _. h)
  step-Remembers s (cancel k now) h =
      cancel_job_cases (λ r. Remembers r.1) k now s (λ e. h) (λ _ _ _. h) (λ _ _ _. h)
  step-Remembers s (recover_jobs now) h = recover-Remembers now s.jobs s h

  pub run-Remembers : (s : Repository) (cs : List Call) → Remembers s → Remembers (run s cs)
  unfolding run
  run-Remembers s [] h = h
  run-Remembers s (c ∷ cs) h = run-Remembers (step s c) cs (step-Remembers s c h)

existing :
    (s : Repository) (key job_id : String) (o : Option String)
    → get key s.idempotency ≡ some job_id
    → o ≡ some key
    → existing_job s o ≡ some job_id
unfolding existing_job
existing s key job_id o known e = rw e known

pub missing :
    (s : Repository) (key : String) (o : Option String)
    → o ≡ some key
    → get key s.idempotency ≡ none
    → existing_job s o ≡ none
unfolding existing_job
missing s key o e new = rw e new

compared :
    (s : Repository) (job_id : String) (j : JobRecord) (submission : JobSubmission)
    → get job_id s.jobs ≡ some j
    → resubmitted s submission job_id
      ≡ (if submission_matches j submission then ok j else err (conflict idempotency_reused))
unfolding resubmitted
compared s job_id j submission found = rw (found, resubmitted)

-- A submission whose key names a stored job changes nothing: it returns that job if the requests
-- match, and raises a conflict if they do not.
pub repeated :
    (s : Repository) (key job_id : String) (j : JobRecord) (submission : JobSubmission)
    (id : String) (now : ℕ)
    → get key s.idempotency ≡ some job_id
    → get job_id s.jobs ≡ some j
    → key_of submission ≡ some key
    → submit_job submission id now s
      ≡ ((if submission_matches j submission then ok j else err (conflict idempotency_reused)), s)
unfolding submit_job
repeated s key job_id j submission id now known found named =
    rw (existing s key job_id (key_of submission) known named, submit_job)
      (ap (λ r. (r, s)) (compared s job_id j submission found))

remember_self :
    (key job_id : String) (d : Dict String) → get key (remember (some key) job_id d) ≡ some job_id
unfolding remember
remember_self key job_id d = get-put_self key job_id d

-- A first submission under a key stores the new job and the key.
pub submit-new :
    (s : Repository) (key job_id : String) (submission : JobSubmission) (now : ℕ)
    → existing_job s (key_of submission) ≡ none
    → key_of submission ≡ some key
    → let s' = step s (submit submission job_id now) in
      (get key s'.idempotency ≡ some job_id)
      × (get job_id s'.jobs ≡ some (new_job submission job_id (s.sequence + 1) now))
unfolding step enqueue
submit-new s key job_id submission now new named =
    submit_job_cases
      (λ r.
        (get key r.1.idempotency ≡ some job_id)
        × (get job_id r.1.jobs ≡ some (new_job submission job_id (s.sequence + 1) now)))
      submission job_id now s (λ id e. absurd (cc (new, e)))
      (λ e. (
        subst (λ o. get key (remember o job_id s.idempotency) ≡ some job_id) (sym named)
            (remember_self key job_id s.idempotency),
        get-put_self job_id _ s.jobs,
      ))

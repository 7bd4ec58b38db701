-- ===== src/Control/Repository/Settling/Outcome.antt =====
-- What `complete_job` and `fail_job` promise, field by field: the settled job, and the repository that
-- stores it and has freed its worker's slot.
use astrum_weaver.Prelude.{
  ℕ, ◌-◌, ◌<◌, String, ◌≡◌, refl, Bool, true, false, none, some, ◌&&◌, ltb, ◌==◌, arith, Bool-cases,
  Option-cases, inl, inr, ltb→lt, and-eq-true,
}
use astrum_weaver.Dict.{get}
use astrum_weaver.Dict.Laws.{get-put, get-put_self}
use astrum_weaver.Value.{bool, Mapping}
use astrum_weaver.Execution.{JobResult}
use astrum_weaver.Control.Models.{JobRecord, WorkerRecord, queued, succeeded, failed}
use astrum_weaver.Control.Repository.State.{Repository, release_known, release_worker_capacity}
use astrum_weaver.Control.Repository.Jobs.Updates.{
  ErrorPayload, message, details, failure_payload, completed, failed_with,
}
use astrum_weaver.Control.Repository.Cases.{settled}

-- The job is stored, every other job and worker is as before, and one slot of the worker is free again.
pub record Stores (s s' : Repository) (key id : String) (j : JobRecord) : Type 0 where
  pub stored : get key s'.jobs ≡ some j
  pub others : (k : String) → (key == k) ≡ false → get k s'.jobs ≡ get k s.jobs
  pub freed :
      (w : WorkerRecord)
      → get id s.workers ≡ some w
      → get id s'.workers ≡ some (record w { active_jobs = w.active_jobs - 1 })
  pub bystanders : (k : String) → (id == k) ≡ false → get k s'.workers ≡ get k s.workers
  pub keys : s'.idempotency ≡ s.idempotency
  pub numbers : s'.sequence ≡ s.sequence

-- No worker holds the job.
pub record IsDetached (j : JobRecord) : Type 0 where
  pub no_worker : j.assigned_worker_id ≡ none
  pub no_token : j.lease_token ≡ none
  pub no_expiry : j.lease_expires_at ≡ none

-- The job has succeeded with the result.
pub record Succeeds (j : JobRecord) (result : JobResult) (now : ℕ) (j' : JobRecord) : Type 0 where
  pub same_job : j'.job_id ≡ j.job_id
  pub same_attempts : j'.attempts ≡ j.attempts
  pub done : j'.status ≡ succeeded
  pub stored_result : j'.result ≡ some result
  pub no_error : j'.error ≡ none
  pub detached : IsDetached j'
  pub finished : j'.finished_at ≡ some now

-- The job is in the queue from now on.
pub record IsRequeued (now : ℕ) (j : JobRecord) : Type 0 where
  pub waits : j.status ≡ queued
  pub not_started : j.started_at ≡ none
  pub not_finished : j.finished_at ≡ none
  pub available : j.available_at ≡ now

-- The job has failed for good.
pub record IsOver (now : ℕ) (j : JobRecord) : Type 0 where
  pub over : j.status ≡ failed
  pub finished : j.finished_at ≡ some now

-- The stored error says whether the job is tried again.
pub record Reports (retry : Bool) (j : JobRecord) : Type 0 where
  pub payload : Mapping
  pub error : j.error ≡ some payload
  pub flag : get "retryable" payload ≡ some (bool retry)

-- A failed attempt: the job is tried again if the failure is retryable and an attempt is left, and is
-- over otherwise.
pub record Fails (j : JobRecord) (retryable : Bool) (now : ℕ) (j' : JobRecord) : Type 0 where
  pub same_job : j'.job_id ≡ j.job_id
  pub same_attempts : j'.attempts ≡ j.attempts
  pub detached : IsDetached j'
  pub again : retryable ≡ true → j.attempts < j.max_attempts → IsRequeued now j' × Reports true j'
  pub spent :
      (retryable ≡ true → j.attempts < j.max_attempts → ⊥) → IsOver now j' × Reports false j'

module _ (s : Repository) (key id : String) (j : JobRecord) where
  released-hit :
      (w : WorkerRecord)
      → get id s.workers ≡ some w
      → get id (release_worker_capacity (some id) s.workers)
        ≡ some (record w { active_jobs = w.active_jobs - 1 })
  unfolding release_worker_capacity
  released-hit w found = rw found (get-put_self id _ s.workers)

  released-miss :
      (k : String)
      → (id == k) ≡ false
      → get k (release_worker_capacity (some id) s.workers) ≡ get k s.workers
  unfolding release_worker_capacity release_known
  released-miss k ne = elim (Option-cases (get id s.workers)) [
    | inl e ↦ rw (e, release_known) refl
    | inr (w, e) ↦
        rw (e, release_known)
          (ground
            (arith, get-put id k (record w { active_jobs = w.active_jobs - 1 }) s.workers, ne))
  ]

  pub settled-Stores : Stores s (settled key j id s) key id j
  settled-Stores = record {
    stored = get-put_self key j s.jobs;
    others = λ k ne. ground (arith, get-put key k j s.jobs, ne);
    freed = released-hit;
    bystanders = released-miss;
    keys = refl;
    numbers = refl;
  }

pub completed-Succeeds :
    (j : JobRecord) (result : JobResult) (now : ℕ) → Succeeds j result now (completed j result now)
unfolding completed
completed-Succeeds j result now = record {
  same_job = refl;
  same_attempts = refl;
  done = refl;
  stored_result = refl;
  no_error = refl;
  detached = record { no_worker = refl; no_token = refl; no_expiry = refl };
  finished = refl;
}

payload-flag :
    (error : ErrorPayload) (retry : Bool)
    → get "retryable" (failure_payload error retry) ≡ some (bool retry)
unfolding failure_payload get
payload-flag (message text) retry = refl
payload-flag (details fields) retry = get-put_self "retryable" (bool retry) fields

module _ (j : JobRecord) (error : ErrorPayload) (now : ℕ) where
  requeued : IsRequeued now (failed_with j (failure_payload error true) true now)
  unfolding failed_with
  requeued = record { waits = refl; not_started = refl; not_finished = refl; available = refl }

  ended : IsOver now (failed_with j (failure_payload error false) false now)
  unfolding failed_with
  ended = record { over = refl; finished = refl }

  reported : (retry : Bool) → Reports retry (failed_with j (failure_payload error retry) retry now)
  unfolding failed_with
  reported retry = record {
    payload = failure_payload error retry;
    error = refl;
    flag = payload-flag error retry;
  }

  no_retry :
      (retryable : Bool)
      → (retryable ≡ true → j.attempts < j.max_attempts → ⊥)
      → (retryable && ltb j.attempts j.max_attempts) ≡ false
  no_retry retryable h = elim (Bool-cases (retryable && ltb j.attempts j.max_attempts)) [
    | inl e ↦ let (r, left) = and-eq-true _ _ e in absurd (h r (ltb→lt _ _ left))
    | inr e ↦ e
  ]

  pub failed_with-Fails :
      (retryable : Bool)
      → let retry = retryable && ltb j.attempts j.max_attempts in
        Fails j retryable now (failed_with j (failure_payload error retry) retry now)
  unfolding failed_with
  failed_with-Fails retryable = record {
    same_job = refl;
    same_attempts = refl;
    detached = record { no_worker = refl; no_token = refl; no_expiry = refl };
    again = λ r left.
        let retry : (retryable && ltb j.attempts j.max_attempts) ≡ true = ground (arith, r, left) in
        rw retry (requeued, reported true);
    spent = λ none_left. rw (no_retry retryable none_left) (ended, reported false);
  }

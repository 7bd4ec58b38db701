-- ===== src/Control/Repository/Jobs.antt =====
-- The methods of the repository on jobs: submission, claim, completion, failure, cancellation and
-- the recovery of expired leases.
pub mod Updates
use astrum_weaver.Prelude.{
  ℕ, ◌-◌, ◌+◌, String, Bool, true, false, ◌&&◌, ◌||◌, not, Option, none, some, List, [], ◌∷◌, ltb,
  leb, nat_eq, if◌then◌else◌, ltb_ℤ, select, ◌==◌,
}
use astrum_weaver.Text.{is_blank}
use astrum_weaver.Dict.{Dict, get, put, values}
use astrum_weaver.Value.{mapping_eq}
use astrum_weaver.Contracts.{WorkerSpec}
use astrum_weaver.Contracts.Equality.{requirements_eq}
use astrum_weaver.Sets.{contains}
use astrum_weaver.Scheduling.{worker_matches}
use astrum_weaver.Execution.{JobResult}
use astrum_weaver.Control.Models.{
  JobSubmission, JobRecord, WorkerRecord, offline, is_queued, is_running, is_terminal, is_online,
}
use astrum_weaver.Control.Repository.State.{
  Repository, worker_ttl, lease_time, get_worker, get_job, assert_running, release_worker_capacity,
}
use astrum_weaver.Control.Repository.Workers.{with_worker}
use astrum_weaver.Result.{
  Result, ok, err, key_error, conflict, idempotency_reused, Method, checked, ◌>>=◌, ◌>>◌,
}
use Updates.{
  ErrorPayload, failure_payload, new_job, claimed, completed, failed_with, cancelled_at, recovered,
}

-- `self._jobs[job_id] = job`
abbrev pub with_job : String → JobRecord → Repository → Repository
with_job job_id j s = record s { jobs = put job_id j s.jobs }

unfoldable pub available_matches : JobRecord → Option ℕ → Bool
available_matches existing none = true
available_matches existing (some t) = nat_eq existing.available_at t

unfoldable pub submission_matches : JobRecord → JobSubmission → Bool
unfolding available_matches
submission_matches existing submission =
    existing.capability == submission.capability
    && mapping_eq existing.payload submission.payload
    && requirements_eq existing.requirements submission.requirements
    && not
        (ltb_ℤ existing.priority submission.priority || ltb_ℤ submission.priority existing.priority)
    && nat_eq existing.max_attempts submission.max_attempts
    && available_matches existing submission.available_at

-- `if submission.idempotency_key`
abbrev pub key_of : JobSubmission → Option String
key_of submission = elim submission.idempotency_key [
  | none ↦ none
  | some key ↦ if is_blank key then none else some key
]

-- The job that an earlier submission with this key created.
unfoldable pub existing_job : Repository → Option String → Option String
existing_job s none = none
existing_job s (some key) = get key s.idempotency

unfoldable pub remember : Option String → String → Dict String → Dict String
remember none job_id d = d
remember (some key) job_id d = put key job_id d

-- `submit_job` where no earlier submission has the key; `job_id` is the new identity.
unfoldable pub enqueue : JobSubmission → String → ℕ → Repository → JobRecord × Repository
unfolding remember
enqueue submission job_id now s =
    let job = new_job submission job_id (s.sequence + 1) now in
    (
      job,
      record s {
        jobs = put job_id job s.jobs;
        idempotency = remember (key_of submission) job_id s.idempotency;
        sequence = s.sequence + 1;
      },
    )

-- `self._jobs[existing_id]`, and the comparison with the new request
unfoldable pub resubmitted : Repository → JobSubmission → String → Result JobRecord
resubmitted s submission existing_id = elim (get existing_id s.jobs) [
  | none ↦ err (key_error existing_id)
  | some existing ↦
      if submission_matches existing submission
      then ok existing
      else err (conflict idempotency_reused)
]

unfoldable pub submit_job : JobSubmission → String → ℕ → Method Repository JobRecord
unfolding existing_job resubmitted enqueue
submit_job submission job_id now s = elim (existing_job s (key_of submission)) [
  | none ↦ let (job, s') = enqueue submission job_id now s in (ok job, s')
  | some existing_id ↦ (resubmitted s submission existing_id, s)
]

insert_by_sequence : JobRecord → List JobRecord → List JobRecord
insert_by_sequence j [] = j ∷ []
insert_by_sequence j (i ∷ is) =
    if ltb i.sequence j.sequence then i ∷ insert_by_sequence j is else j ∷ i ∷ is

sort_by_sequence : List JobRecord → List JobRecord
unfolding insert_by_sequence
sort_by_sequence [] = []
sort_by_sequence (j ∷ js) = insert_by_sequence j (sort_by_sequence js)

unfoldable pub list_jobs : Repository → List JobRecord
unfolding sort_by_sequence
list_jobs s = sort_by_sequence (values s.jobs)

-- The filter of `claim_next_job`.
unfoldable pub is_eligible : WorkerSpec → ℕ → JobRecord → Bool
is_eligible spec now job =
    is_queued job.status
    && leb job.available_at now
    && ltb job.attempts job.max_attempts
    && contains job.capability spec.capabilities
    && worker_matches spec job.requirements

unfoldable pub eligible : Repository → WorkerSpec → ℕ → List JobRecord
eligible s spec now = select (is_eligible spec now) (values s.jobs)

-- `(-a.priority, a.sequence) < (-b.priority, b.sequence)`
unfoldable pub comes_before : JobRecord → JobRecord → Bool
comes_before a b =
    ltb_ℤ b.priority a.priority || (not (ltb_ℤ a.priority b.priority) && ltb a.sequence b.sequence)

-- A stable sort: an earlier item stays before its equals.
unfoldable pub insert_eligible : JobRecord → List JobRecord → List JobRecord
unfolding comes_before
insert_eligible j [] = j ∷ []
insert_eligible j (i ∷ is) = if comes_before i j then i ∷ insert_eligible j is else j ∷ i ∷ is

unfoldable pub sort_eligible : List JobRecord → List JobRecord
unfolding insert_eligible
sort_eligible [] = []
sort_eligible (j ∷ js) = insert_eligible j (sort_eligible js)

-- Hand the first of the sorted jobs to the worker.
unfoldable pub claim_first :
    String → String → ℕ → WorkerRecord → List JobRecord → Method Repository (Option JobRecord)
claim_first worker_id token now w [] s = (ok none, s)
claim_first worker_id token now w (selected ∷ rest) s =
    let job = claimed selected worker_id token now (now + lease_time s) in
    (
      ok (some job),
      with_worker worker_id (record w { active_jobs = w.active_jobs + 1 })
          (with_job job.job_id job s),
    )

-- `claim_next_job`; `token` is the new lease token.
unfoldable pub claim_next_job : String → String → ℕ → Method Repository (Option JobRecord)
unfolding claim_first eligible sort_eligible
claim_next_job worker_id token now s = checked s (get_worker s worker_id) λ w.
    if ltb (worker_ttl s) (now - w.last_seen_at)
    then (ok none, with_worker worker_id (record w { state = offline }) s)
    else if not (is_online w.state)
    then (ok none, s)
    else if leb w.max_concurrency w.active_jobs
    then (ok none, s)
    else claim_first worker_id token now w (sort_eligible (eligible s w.spec now)) s

-- The job, if the caller holds its lease.
unfoldable pub held_job : Repository → String → String → String → ℕ → Result JobRecord
held_job s job_id worker_id token now = do
  job ← get_job s job_id
  assert_running job worker_id token now
  ok job

unfoldable pub complete_job : String → JobResult → String → String → ℕ → Method Repository JobRecord
complete_job job_id result worker_id token now s =
    checked s (held_job s job_id worker_id token now) λ job.
      let j = completed job result now in
      (
        ok j,
        record s {
          jobs = put job_id j s.jobs;
          workers = release_worker_capacity (some worker_id) s.workers;
        },
      )

-- `retryable and job.attempts < job.max_attempts`
unfoldable pub may_retry : Bool → JobRecord → Bool
may_retry retryable job = retryable && ltb job.attempts job.max_attempts

unfoldable pub fail_job :
    String → ErrorPayload → Bool → String → String → ℕ → Method Repository JobRecord
unfolding may_retry
fail_job job_id error retryable worker_id token now s =
    checked s (held_job s job_id worker_id token now) λ job.
      let retry = may_retry retryable job in
      let j = failed_with job (failure_payload error retry) retry now in
      (
        ok j,
        record s {
          jobs = put job_id j s.jobs;
          workers = release_worker_capacity (some worker_id) s.workers;
        },
      )

-- The worker's slot is freed only if the job was running.
unfoldable pub freed_by_cancel : JobRecord → Dict WorkerRecord → Dict WorkerRecord
freed_by_cancel job workers =
    if is_running job.status
    then release_worker_capacity job.assigned_worker_id workers
    else workers

unfoldable pub cancel_job : String → ℕ → Method Repository JobRecord
unfolding freed_by_cancel
cancel_job job_id now s = checked s (get_job s job_id) λ job.
    if is_terminal job.status
    then (ok job, s)
    else let j = cancelled_at job now in
      (ok j, record s { jobs = put job_id j s.jobs; workers = freed_by_cancel job s.workers })

-- `job.status is RUNNING`, with a lease that has run out
unfoldable pub is_expired : ℕ → JobRecord → Bool
is_expired now job =
    is_running job.status && elim job.lease_expires_at [ none ↦ false | some t ↦ leb t now ]

-- The loop over the jobs as they were when it began.
unfoldable pub recover : ℕ → Dict JobRecord → Repository → List JobRecord × Repository
unfolding is_expired
recover now [] s = ([], s)
recover now ((job_id, job) ∷ rest) s = elim (is_expired now job) [
  | false ↦ recover now rest s
  | true ↦
      let j = recovered job now in
      let (more, s') = recover now rest (record s {
        jobs = put job_id j s.jobs;
        workers = release_worker_capacity job.assigned_worker_id s.workers;
      }) in
      (j ∷ more, s')
]

unfoldable pub recover_expired_jobs : ℕ → Repository → List JobRecord × Repository
unfolding recover
recover_expired_jobs now s = recover now s.jobs s

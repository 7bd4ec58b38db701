-- ===== src/Control/Repository/Calls.antt =====
-- Calls of the repository as data, and histories of calls. The lock of the repository makes each
-- call one step.
use astrum_weaver.Prelude.{ℕ, ◌≤◌, String, ◌≡◌, Bool, none, List, [], ◌∷◌}
use astrum_weaver.Dict.{get}
use astrum_weaver.Execution.{JobResult}
use astrum_weaver.Control.Models.{WorkerRegistration, WorkerState, WorkerHeartbeat, JobSubmission}
use astrum_weaver.Control.Repository.State.{Repository}
use astrum_weaver.Control.Repository.Workers.{
  register_worker, set_worker_state, heartbeat_worker, expire_stale_workers,
}
use astrum_weaver.Control.Repository.Jobs.{
  submit_job, claim_next_job, complete_job, fail_job, cancel_job, recover_expired_jobs,
}
use astrum_weaver.Control.Repository.Jobs.Updates.{ErrorPayload}

-- The last number of each call is its instant. A submission carries the identity of the job that it
-- may create, and a claim the token of its lease.
pub data Call : Type 0 where
  register : WorkerRegistration → ℕ → Call
  set_state : String → WorkerState → ℕ → Call
  heartbeat : String → WorkerHeartbeat → ℕ → Call
  expire_workers : ℕ → Call
  submit : JobSubmission → String → ℕ → Call
  claim : String → String → ℕ → Call
  complete : String → JobResult → String → String → ℕ → Call
  fail : String → ErrorPayload → Bool → String → String → ℕ → Call
  cancel : String → ℕ → Call
  recover_jobs : ℕ → Call

-- The repository after a call, whether it returned or raised.
unfoldable pub step : Repository → Call → Repository
step s (register registration now) = (register_worker registration now s).1
step s (set_state id state now) = (set_worker_state id state now s).1
step s (heartbeat id beat now) = (heartbeat_worker id beat now s).1
step s (expire_workers now) = (expire_stale_workers now s).1
step s (submit submission id now) = (submit_job submission id now s).1
step s (claim id token now) = (claim_next_job id token now s).1
step s (complete job_id result id token now) = (complete_job job_id result id token now s).1
step s (fail job_id error retryable id token now) =
    (fail_job job_id error retryable id token now s).1
step s (cancel job_id now) = (cancel_job job_id now s).1
step s (recover_jobs now) = (recover_expired_jobs now s).1

unfoldable pub run : Repository → List Call → Repository
run s [] = s
run s (c ∷ cs) = run (step s c) cs

-- What the constructors and `uuid4` give: a positive limit, and an identity that no job has.
abbrev pub IsValidCall : Repository → Call → Type 0
IsValidCall s (register registration now) = 1 ≤ registration.max_concurrency
IsValidCall s (submit submission id now) = (1 ≤ submission.max_attempts) × (get id s.jobs ≡ none)
IsValidCall s _ = Unit

abbrev pub IsValidHistory : Repository → List Call → Type 0
IsValidHistory s [] = Unit
IsValidHistory s (c ∷ cs) = IsValidCall s c × IsValidHistory (step s c) cs

-- A repository of positive times that has served no call.
abbrev pub IsNew : Repository → Type 0
IsNew s = (s.workers ≡ []) × (s.jobs ≡ []) × (s.idempotency ≡ []) × (s.sequence ≡ 0)

-- An invariant of the calls is an invariant of the histories.
pub run-keeps {ℓ} :
    (P : Repository → Type ℓ)
    → ((s : Repository) (c : Call) → IsValidCall s c → P s → P (step s c))
    → (s : Repository) (cs : List Call) → IsValidHistory s cs
    → P s
    → P (run s cs)
unfolding run
run-keeps P keeps s [] v h = h
run-keeps P keeps s (c ∷ cs) v h = run-keeps P keeps (step s c) cs v.1 (keeps s c v.0 h)

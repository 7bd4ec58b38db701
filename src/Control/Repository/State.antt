-- ===== src/Control/Repository/State.antt =====
-- The state of `InMemoryControlRepository`, and the helpers that its methods share.
use astrum_weaver.Prelude.{
  ℕ, ◌-◌, String, Bool, true, ◌&&◌, ◌||◌, not, Option, none, some, [], ◌∷◌, ◌==◌, ltb, leb,
  if◌then◌else◌, ℤ, ◌*◌, List,
}
use astrum_weaver.Dict.{Dict, get, put, count}
use astrum_weaver.Sets.{intersects, option_eq}
use astrum_weaver.Text.{is_blank}
use astrum_weaver.Contracts.{positive}
use astrum_weaver.Control.Models.{
  WorkerRegistration, WorkerRecord, JobRecord, second, is_running, is_offline,
}
use astrum_weaver.Result.{
  Result, ok, err, not_found, conflict, gpu_overlap, not_running, assigned_elsewhere, stale_token,
  lease_expired, ◌>>=◌, ◌>>◌, require, refuse,
}

pub record Repository : Type 0 where
  pub worker_ttl_seconds : ℕ
  pub lease_seconds : ℕ
  pub workers : Dict WorkerRecord
  pub jobs : Dict JobRecord
  pub idempotency : Dict String
  pub sequence : ℕ

-- `InMemoryControlRepository(...)`
unfoldable pub repository : ℤ → ℤ → Result Repository
unfolding positive
repository worker_ttl_seconds lease_seconds = do
  ttl ← positive worker_ttl_seconds "worker_ttl_seconds"
  lease ← positive lease_seconds "lease_seconds"
  ok (record {
    worker_ttl_seconds = ttl;
    lease_seconds = lease;
    workers = [];
    jobs = [];
    idempotency = [];
    sequence = 0;
  })

-- `timedelta(seconds=self.worker_ttl_seconds)` and `timedelta(seconds=self.lease_seconds)`
abbrev pub worker_ttl : Repository → ℕ
worker_ttl s = s.worker_ttl_seconds * second

abbrev pub lease_time : Repository → ℕ
lease_time s = s.lease_seconds * second

-- `job.status is RUNNING and job.assigned_worker_id == worker_id`
unfoldable pub is_held_by : String → JobRecord → Bool
unfolding option_eq
is_held_by worker_id job =
    is_running job.status && option_eq job.assigned_worker_id (some worker_id)

unfoldable pub active_job_count : Repository → String → ℕ
active_job_count s worker_id = count (is_held_by worker_id) s.jobs

-- `worker.state is not OFFLINE or worker.active_jobs > 0`
unfoldable pub owns_resources : WorkerRecord → Bool
owns_resources w = not (is_offline w.state) || ltb 0 w.active_jobs

-- The loop of `_assert_gpu_ownership_available`: the first worker, other than the one to ignore,
-- that owns a requested device.
unfoldable pub first_owner : List String → String → Dict WorkerRecord → Option String
unfolding owns_resources intersects
first_owner requested ignored [] = none
first_owner requested ignored ((k, w) ∷ rest) =
    let later = first_owner requested ignored rest in
    if w.worker_id == ignored
    then later
    else if owns_resources w && intersects requested w.gpu_uuids
    then some w.worker_id
    else later

-- No device is requested, or none of the requested ones has an owner.
unfoldable pub owner_check : List String → Option String → Result (Unit {0})
owner_check [] owner = ok tt
owner_check (u ∷ us) none = ok tt
owner_check (u ∷ us) (some owner) = err (conflict (gpu_overlap owner))

unfoldable pub assert_gpu_ownership_available :
    Repository → WorkerRegistration → String → Result (Unit {0})
unfolding first_owner owner_check
assert_gpu_ownership_available s registration ignored =
    owner_check registration.spec.gpu_uuids
      (first_owner registration.spec.gpu_uuids ignored s.workers)

unfoldable pub get_worker : Repository → String → Result WorkerRecord
get_worker s worker_id = elim (get worker_id s.workers) [
  | none ↦ err (not_found worker_id)
  | some w ↦ ok w
]

unfoldable pub get_job : Repository → String → Result JobRecord
get_job s job_id = elim (get job_id s.jobs) [ none ↦ err (not_found job_id) | some j ↦ ok j ]

-- `job.lease_expires_at is None or job.lease_expires_at <= now`
unfoldable pub lease_is_over : Option ℕ → ℕ → Bool
lease_is_over none now = true
lease_is_over (some t) now = leb t now

unfoldable pub assert_running : JobRecord → String → String → ℕ → Result (Unit {0})
unfolding lease_is_over option_eq
assert_running job worker_id lease_token now = do
  require (is_running job.status) (conflict not_running)
  require (option_eq job.assigned_worker_id (some worker_id)) (conflict assigned_elsewhere)
  refuse (is_blank lease_token || not (option_eq job.lease_token (some lease_token)))
      (conflict stale_token)
  refuse (lease_is_over job.lease_expires_at now) (conflict lease_expired)

unfoldable pub release_known : Dict WorkerRecord → String → Option WorkerRecord → Dict WorkerRecord
release_known workers worker_id none = workers
release_known workers worker_id (some w) =
    put worker_id (record w { active_jobs = w.active_jobs - 1 }) workers

-- `max(active_jobs - 1, 0)` is the truncated difference.
unfoldable pub release_worker_capacity : Option String → Dict WorkerRecord → Dict WorkerRecord
unfolding release_known
release_worker_capacity none workers = workers
release_worker_capacity (some worker_id) workers =
    release_known workers worker_id (get worker_id workers)

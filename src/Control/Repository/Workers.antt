-- ===== src/Control/Repository/Workers.antt =====
-- The methods of the repository that a worker calls: registration, state, heartbeat, expiry.
use astrum_weaver.Prelude.{
  ℕ, ◌-◌, ◌+◌, String, Bool, true, false, ◌&&◌, ◌||◌, not, Option, none, some, List, [], ◌∷◌, ltb,
  leb, if◌then◌else◌,
}
use astrum_weaver.Text.{is_blank}
use astrum_weaver.Dict.{Dict, get, put}
use astrum_weaver.Value.{merge}
use astrum_weaver.Contracts.Equality.{spec_eq}
use astrum_weaver.Control.Models.{
  WorkerRegistration, WorkerHeartbeat, WorkerRecord, WorkerState, online, draining, offline,
  JobRecord, is_offline,
}
use astrum_weaver.Control.Repository.State.{
  Repository, worker_ttl, lease_time, active_job_count, assert_gpu_ownership_available, get_worker,
  get_job, assert_running,
}
use astrum_weaver.Result.{
  Result, ok, err, conflict, topology_changed, concurrency_too_low, offline_worker,
  incomplete_lease, Method, checked, ◌>>=◌, ◌>>◌, refuse,
}

-- The checks on a worker that is already known.
unfoldable pub check_existing : WorkerRegistration → Option WorkerRecord → Result (Unit {0})
check_existing registration none = ok tt
check_existing registration (some existing) =
    if ltb 0 existing.active_jobs
    then (do
      refuse (not (spec_eq registration.spec existing.spec)) (conflict topology_changed)
      refuse (ltb registration.max_concurrency existing.active_jobs) (conflict concurrency_too_low))
    else ok tt

registered_at_or : ℕ → Option WorkerRecord → ℕ
registered_at_or now none = now
registered_at_or now (some existing) = existing.registered_at

unfoldable pub registered : WorkerRegistration → ℕ → Repository → WorkerRecord
unfolding registered_at_or
registered registration now s = record {
  spec = registration.spec;
  max_concurrency = registration.max_concurrency;
  state = online;
  active_jobs = active_job_count s registration.spec.worker_id;
  registered_at = registered_at_or now (get registration.spec.worker_id s.workers);
  last_seen_at = now;
  metadata = registration.metadata;
}

-- `self._workers[worker_id] = worker`
abbrev pub with_worker : String → WorkerRecord → Repository → Repository
with_worker worker_id w s = record s { workers = put worker_id w s.workers }

unfoldable pub register_worker : WorkerRegistration → ℕ → Method Repository WorkerRecord
unfolding check_existing
register_worker registration now s =
    let worker_id = registration.spec.worker_id in
    checked s
      (check_existing registration (get worker_id s.workers)
        >> assert_gpu_ownership_available s registration worker_id)
      λ _. let w = registered registration now s in (ok w, with_worker worker_id w s)

unfoldable pub check_ownership :
    Repository → String → WorkerRecord → WorkerState → Result (Unit {0})
check_ownership s worker_id current offline = ok tt
check_ownership s worker_id current _ =
    assert_gpu_ownership_available s
      (record {
        spec = current.spec;
        max_concurrency = current.max_concurrency;
        metadata = current.metadata;
      })
      worker_id

unfoldable pub set_worker_state : String → WorkerState → ℕ → Method Repository WorkerRecord
unfolding check_ownership
set_worker_state worker_id state now s = checked s (get_worker s worker_id) λ current.
    checked s (check_ownership s worker_id current state) λ _.
      let updated = record current { state = state; last_seen_at = now } in
      (ok updated, with_worker worker_id updated s)

-- `state in {ONLINE, DRAINING}`
unfoldable pub leaves_offline : Option WorkerState → Bool
leaves_offline (some online) = true
leaves_offline (some draining) = true
leaves_offline _ = false

unfoldable pub state_or : WorkerState → Option WorkerState → WorkerState
state_or current none = current
state_or current (some state) = state

-- The job that a heartbeat names, with its token: both are given, and not empty, or neither is.
unfoldable pub named_lease : Option String → Option String → Result (Option (String × String))
named_lease none none = ok none
named_lease (some job_id) (some token) =
    if is_blank job_id || is_blank token
    then err (conflict incomplete_lease)
    else ok (some (job_id, token))
named_lease _ _ = err (conflict incomplete_lease)

-- The jobs after the lease that the heartbeat names is renewed.
unfoldable pub renewed :
    Repository → String → Option (String × String) → ℕ → Result (Dict JobRecord)
renewed s worker_id none now = ok s.jobs
renewed s worker_id (some (job_id, token)) now = do
  job ← get_job s job_id
  assert_running job worker_id token now
  ok (
      put job.job_id (record job { lease_expires_at = some (now + lease_time s); updated_at = now })
        s.jobs)

-- The worker after its heartbeat; the jobs of `s` are already renewed.
unfoldable pub beaten : String → WorkerHeartbeat → ℕ → Repository → WorkerRecord → WorkerRecord
unfolding state_or
beaten worker_id heartbeat now s current = record current {
  state = state_or current.state heartbeat.state;
  active_jobs = active_job_count s worker_id;
  last_seen_at = now;
  metadata = merge current.metadata heartbeat.metadata;
}

-- The checks of a heartbeat, and the jobs that it leaves.
unfoldable pub heartbeat_checks :
    Repository → String → WorkerHeartbeat → ℕ → WorkerRecord → Result (Dict JobRecord)
unfolding leaves_offline named_lease renewed
heartbeat_checks s worker_id heartbeat now current = do
  refuse (is_offline current.state && leaves_offline heartbeat.state) (conflict offline_worker)
  lease ← named_lease heartbeat.active_job_id heartbeat.lease_token
  renewed s worker_id lease now

unfoldable pub heartbeat_worker : String → WorkerHeartbeat → ℕ → Method Repository WorkerRecord
unfolding heartbeat_checks
heartbeat_worker worker_id heartbeat now s = checked s (get_worker s worker_id) λ current.
    checked s (heartbeat_checks s worker_id heartbeat now current) λ jobs.
      let s' = record s { jobs = jobs } in
      let updated = beaten worker_id heartbeat now s' current in
      (ok updated, with_worker worker_id updated s')

-- `worker.state is OFFLINE or worker.last_seen_at >= cutoff`
unfoldable pub is_fresh : ℕ → WorkerRecord → Bool
is_fresh cutoff w = is_offline w.state || leb cutoff w.last_seen_at

-- The loop over the workers as they were when it began.
unfoldable pub expire : ℕ → Dict WorkerRecord → Repository → List WorkerRecord × Repository
unfolding is_fresh
expire cutoff [] s = ([], s)
expire cutoff ((worker_id, w) ∷ rest) s = elim (is_fresh cutoff w) [
  | true ↦ expire cutoff rest s
  | false ↦
      let updated = record w { state = offline } in
      let (expired, s') = expire cutoff rest (with_worker worker_id updated s) in
      (updated ∷ expired, s')
]

unfoldable pub expire_stale_workers : ℕ → Repository → List WorkerRecord × Repository
unfolding expire
expire_stale_workers now s = expire (now - worker_ttl s) s.workers s

-- ===== src/Worker/Mode.antt =====
-- `BorrowableWorkerController` of worker/mode.py, which hands a machine over between its user and the
-- Worker service. The service, its health, the GPUs, the clock and the sleep are operations on a
-- world; what they return is read as the code reads it.
pub mod Probes
pub mod Handover
pub mod Ending
pub mod Guards
pub mod Witnesses
use astrum_weaver.Prelude.{
  ℕ, zero, suc, ◌+◌, String, Bool, true, false, ◌&&◌, not, Option, none, some, List, [], ◌∷◌,
  nat_eq, leb, if◌then◌else◌, ℤ, pos, negsuc,
}
use astrum_weaver.Text.{is_blank}
use astrum_weaver.Dict.{get}
use astrum_weaver.Value.{Value, null, bool, int, str, arr, obj, nil, cons, end, field, Mapping}
use astrum_weaver.Worker.Run.{Run, ◌>>=◌, ◌>>◌, call, return, raise, when}
use astrum_weaver.Result.{Result, ok, err, value_error, runtime_error, Method}

pub record GpuProcess : Type 0 where
  pub pid : ℤ
  pub gpu_uuid : String
  pub process_type : String
  pub process_name : String

pub data WorkerMode : Type 0 where
  draining astrumweaver transitioning development : WorkerMode

pub record ModeReport : Type 0 where
  pub mode : WorkerMode
  pub service_active : Bool
  pub worker_ready : Bool
  pub worker_draining : Bool
  pub active_job_id : Option String
  pub gpu_processes : List GpuProcess

-- The protocols `ServiceManager`, `HealthProbe` and `GPUProbe`, the clock, the sleep, and `str` of
-- a value that a snapshot holds.
pub record Machine (W : Type 0) : Type 0 where
  pub is_active : Method W Bool
  pub request_drain : Method W (Unit {0})
  pub stop : Method W (Unit {0})
  pub start : Method W (Unit {0})
  pub snapshot : Method W (Option Mapping)
  pub require_exact_identity : Method W (Unit {0})
  pub active_processes : Method W (List GpuProcess)
  pub clock : W → ℕ
  pub sleep : ℕ → W → W
  pub text_of : Value → String

-- `value is True`
is_true : Option Value → Bool
is_true (some (bool b)) = b
is_true _ = false

-- `bool(value)`
truthy : Option Value → Bool
truthy none = false
truthy (some null) = false
truthy (some (bool b)) = b
truthy (some (int (pos n))) = not (nat_eq n 0)
truthy (some (int (negsuc n))) = true
truthy (some (str s)) = not (is_blank s)
truthy (some (arr nil)) = false
truthy (some (arr (cons x xs))) = true
truthy (some (obj end)) = false
truthy (some (obj (field k v fs))) = true

-- `value is None`
is_none : Option Value → Bool
is_none none = true
is_none (some null) = true
is_none _ = false

abbrev entry : String → Option Mapping → Option Value
entry key none = none
entry key (some snapshot) = get key snapshot

-- `bool(snapshot and snapshot.get("ready") is True)`
unfoldable pub says_ready : Option Mapping → Bool
unfolding is_true get
says_ready snapshot = is_true (entry "ready" snapshot)

-- `bool(snapshot and snapshot.get("draining") is True)`
unfoldable pub says_draining : Option Mapping → Bool
unfolding is_true get
says_draining snapshot = is_true (entry "draining" snapshot)

-- The snapshot of a drained Worker: it drains, and has no job.
unfoldable pub says_drained : Option Mapping → Bool
unfolding says_draining is_none
says_drained snapshot = says_draining snapshot && is_none (entry "active_job_id" snapshot)

job_text : (Value → String) → Option Value → Option String
job_text text_of none = none
job_text text_of (some null) = none
job_text text_of (some v) = some (text_of v)

-- The mode of a report.
unfoldable pub mode_of : Bool → Bool → Bool → WorkerMode
mode_of active drains ready =
    if active && drains
    then draining
    else if active && ready
    then astrumweaver
    else if active
    then transitioning
    else development

abbrev pub over : Option ℕ → ℕ → Bool
over none now = false
over (some deadline) now = leb deadline now

-- `BorrowableWorkerController(...)`: the interval between two looks must be positive.
unfoldable pub checked_interval : ℕ → Result ℕ
checked_interval interval =
    if nat_eq interval 0
    then err (value_error "poll_interval_seconds must be positive")
    else ok interval

-- `raise` where a process holds a GPU, and go on otherwise.
unfoldable pub unless_busy : {W A : Type 0} → List GpuProcess → String → Run W A → Run W A
unless_busy [] message next = next
unless_busy (p ∷ ps) message next = raise (runtime_error message)

-- Whether the snapshot passes a test.
abbrev pub seen :
    {W : Type 0} → (Option Mapping → Bool) → Result (Option Mapping) × W → Result Bool × W
seen test (err e, w) = (err e, w)
seen test (ok snapshot, w) = (ok (test snapshot), w)

module _ {W : Type 0} (machine : Machine W) (interval fuel : ℕ) where
  -- What follows a look: the end, or a sleep and the next look.
  unfoldable pub after_look :
      Option ℕ
      → String
      → (W → Option (Result (Unit {0}) × W))
      → Result Bool × W
      → Option (Result (Unit {0}) × W)
  after_look deadline description later (err e, w) = some (err e, w)
  after_look deadline description later (ok true, w) = some (ok tt, w)
  after_look deadline description later (ok false, w) =
      if over deadline (machine.clock w) then some (err (runtime_error description), w) else later w

  -- The loop of `_wait`; it returns `none` only where the fuel is used up.
  unfoldable pub wait_until : ℕ → Option ℕ → String → Method W Bool → Run W (Unit {0})
  unfolding after_look
  wait_until zero deadline description predicate w = none
  wait_until (suc n) deadline description predicate w =
      after_look deadline description
        (λ v. wait_until n deadline description predicate (machine.sleep interval v)) (predicate w)

  abbrev pub deadline_after : Option ℕ → ℕ → Option ℕ
  deadline_after none now = none
  deadline_after (some timeout) now = some (now + timeout)

  unfoldable pub wait : Option ℕ → String → Method W Bool → Run W (Unit {0})
  unfolding wait_until
  wait timeout description predicate w =
      wait_until fuel (deadline_after timeout (machine.clock w)) description predicate w

  -- `snapshot = self._worker_snapshot() if active else None`
  snapshot_if : Bool → Run W (Option Mapping)
  snapshot_if true = call machine.snapshot
  snapshot_if false = return none

  unfoldable pub report : Run W ModeReport
  unfolding snapshot_if says_ready says_draining truthy job_text mode_of
  report = do
    active ← call machine.is_active
    snapshot ← snapshot_if active
    gpu_processes ← call machine.active_processes
    return (record {
      mode = mode_of active (truthy (entry "draining" snapshot)) (says_ready snapshot);
      service_active = active;
      worker_ready = says_ready snapshot;
      worker_draining = truthy (entry "draining" snapshot);
      active_job_id = job_text machine.text_of (entry "active_job_id" snapshot);
      gpu_processes = gpu_processes;
    })

  abbrev pub inactive_or_drained : Result Bool × W → Result Bool × W
  inactive_or_drained (err e, w) = (err e, w)
  inactive_or_drained (ok false, w) = (ok true, w)
  inactive_or_drained (ok true, w) = seen says_drained (machine.snapshot w)

  -- `drained()`
  unfoldable pub drained : Method W Bool
  unfolding says_drained
  drained w = inactive_or_drained (machine.is_active w)

  -- `ready()` and `already_ready()`
  unfoldable pub ready : Method W Bool
  unfolding says_ready
  ready w = seen says_ready (machine.snapshot w)

  -- Wait until the Worker is drained, and stop it if it is active still.
  unfoldable pub drain_and_stop : Option ℕ → String → Run W (Unit {0})
  unfolding wait drained
  drain_and_stop timeout description = do
    wait timeout description drained
    active ← call machine.is_active
    when active (call machine.stop)

  -- The end of `to_development`, by whether the service is active still.
  unfoldable pub release_gpu : Bool → Run W ModeReport
  unfolding report unless_busy
  release_gpu true = raise (runtime_error "Worker service is still active")
  release_gpu false = do
    call machine.require_exact_identity
    busy ← call machine.active_processes
    unless_busy busy "GPU is still owned by one or more compute processes" report

  drain_service : Option ℕ → Run W (Unit {0})
  unfolding drain_and_stop
  drain_service timeout = do call machine.request_drain; drain_and_stop timeout "Worker drain"

  unfoldable pub to_development : Option ℕ → Run W ModeReport
  unfolding drain_service release_gpu
  to_development drain_timeout = do
    active ← call machine.is_active
    when active (drain_service drain_timeout)
    still_active ← call machine.is_active
    release_gpu still_active

  -- The start, and the waits for it.
  unfoldable pub start_service : ℕ → Run W ModeReport
  unfolding wait ready report
  start_service start_timeout = do
    call machine.start
    wait (some start_timeout) "Worker service activation" machine.is_active
    wait (some start_timeout) "Worker readiness" ready
    report

  unfoldable pub take_gpu : ℕ → Run W ModeReport
  unfolding start_service unless_busy
  take_gpu start_timeout = do
    call machine.require_exact_identity
    busy ← call machine.active_processes
    unless_busy busy "GPU is in use by a development or unrelated process"
        (start_service start_timeout)

  await_existing : ℕ → Run W ModeReport
  unfolding wait ready report
  await_existing start_timeout = do
    wait (some start_timeout) "existing Worker readiness" ready
    report

  -- An active service: one that drains is stopped and started anew, any other is waited for.
  unfoldable pub take_existing : ℕ → Option ℕ → Bool → Run W ModeReport
  unfolding await_existing drain_and_stop take_gpu
  take_existing start_timeout drain_timeout false = await_existing start_timeout
  take_existing start_timeout drain_timeout true = do
    drain_and_stop drain_timeout "existing Worker drain"
    take_gpu start_timeout

  unfoldable pub switch_from : ℕ → Option ℕ → Bool → Run W ModeReport
  unfolding take_existing take_gpu says_draining
  switch_from start_timeout drain_timeout false = take_gpu start_timeout
  switch_from start_timeout drain_timeout true = do
    snapshot ← call machine.snapshot
    take_existing start_timeout drain_timeout (says_draining snapshot)

  unfoldable pub to_astrumweaver : ℕ → Option ℕ → Run W ModeReport
  unfolding switch_from
  to_astrumweaver start_timeout drain_timeout =
      if nat_eq start_timeout 0
      then raise (value_error "start_timeout_seconds must be positive")
      else (do active ← call machine.is_active; switch_from start_timeout drain_timeout active)

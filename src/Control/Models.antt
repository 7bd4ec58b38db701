-- ===== src/Control/Models.antt =====
-- control/models.py: workers, jobs, and the requests that the repository serves. Times are instants
-- in microseconds of UTC.
use astrum_weaver.Prelude.{ℕ, String, Bool, true, false, Option, none, some, List, ℤ, if◌then◌else◌}
use astrum_weaver.Text.{strip, is_blank}
use astrum_weaver.Value.{Mapping}
use astrum_weaver.Contracts.{WorkerSpec, JobRequirements, require_nonblank, positive}
use astrum_weaver.Execution.{JobResult, ResidencyItem, ResidencyReport}
use astrum_weaver.Result.{Result, ok, err, value_error, ◌>>=◌, ◌>>◌}

-- `timedelta(seconds=1)`
abbrev pub second : ℕ
second = 1000000

-- A `datetime`, with or without a time zone: the instant, or the clock's reading.
pub data Datetime : Type 0 where
  zoned naive : ℕ → Datetime

pub data JobStatus : Type 0 where
  queued running succeeded failed cancelled : JobStatus

pub data WorkerState : Type 0 where
  online draining offline : WorkerState

-- `status is JobStatus.QUEUED`, and so on
abbrev pub is_queued : JobStatus → Bool
is_queued queued = true
is_queued _ = false

abbrev pub is_running : JobStatus → Bool
is_running running = true
is_running _ = false

-- `status in {SUCCEEDED, FAILED, CANCELLED}`
abbrev pub is_terminal : JobStatus → Bool
is_terminal succeeded = true
is_terminal failed = true
is_terminal cancelled = true
is_terminal _ = false

abbrev pub is_online : WorkerState → Bool
is_online online = true
is_online _ = false

abbrev pub is_offline : WorkerState → Bool
is_offline offline = true
is_offline _ = false

pub record WorkerRegistration : Type 0 where
  pub spec : WorkerSpec
  pub max_concurrency : ℕ
  pub metadata : Mapping

pub record WorkerHeartbeat : Type 0 where
  pub state : Option WorkerState
  pub active_job_id : Option String
  pub lease_token : Option String
  pub metadata : Mapping

pub record WorkerRecord : Type 0 where
  pub spec : WorkerSpec
  pub open spec use {worker_id, gpu_uuids}
  pub max_concurrency : ℕ
  pub state : WorkerState
  pub active_jobs : ℕ
  pub registered_at : ℕ
  pub last_seen_at : ℕ
  pub metadata : Mapping

pub record JobSubmission : Type 0 where
  pub capability : String
  pub payload : Mapping
  pub requirements : JobRequirements
  pub priority : ℤ
  pub max_attempts : ℕ
  pub idempotency_key : Option String
  pub available_at : Option ℕ

pub record JobRecord : Type 0 where
  pub job_id : String
  pub capability : String
  pub payload : Mapping
  pub requirements : JobRequirements
  pub priority : ℤ
  pub sequence : ℕ
  pub status : JobStatus
  pub attempts : ℕ
  pub max_attempts : ℕ
  pub idempotency_key : Option String
  pub created_at : ℕ
  pub available_at : ℕ
  pub updated_at : ℕ
  pub assigned_worker_id : Option String
  pub lease_token : Option String
  pub lease_expires_at : Option ℕ
  pub started_at : Option ℕ
  pub finished_at : Option ℕ
  pub result : Option JobResult
  pub error : Option Mapping

unfoldable pub worker_registration : WorkerSpec → ℤ → Mapping → Result WorkerRegistration
unfolding positive
worker_registration spec max_concurrency metadata = do
  limit ← positive max_concurrency "max_concurrency"
  ok (record { spec = spec; max_concurrency = limit; metadata = metadata })

check_key : Option String → Result (Unit {0})
check_key none = ok tt
check_key (some key) = if is_blank (strip key) then err (value_error "idempotency_key") else ok tt

check_zone : Option Datetime → Result (Option ℕ)
check_zone none = ok none
check_zone (some (zoned t)) = ok (some t)
check_zone (some (naive t)) = err (value_error "available_at")

-- The arguments of `JobSubmission(...)`, before they are checked.
pub record JobSubmissionArgs : Type 0 where
  pub capability : String
  pub payload : Mapping
  pub requirements : JobRequirements
  pub priority : ℤ
  pub max_attempts : ℤ
  pub idempotency_key : Option String
  pub available_at : Option Datetime

unfoldable pub job_submission : JobSubmissionArgs → Result JobSubmission
unfolding check_key check_zone positive
job_submission a = do
  capability ← require_nonblank a.capability "capability"
  max_attempts ← positive a.max_attempts "max_attempts"
  check_key a.idempotency_key
  available_at ← check_zone a.available_at
  ok (record {
    capability = capability;
    payload = a.payload;
    requirements = a.requirements;
    priority = a.priority;
    max_attempts = max_attempts;
    idempotency_key = a.idempotency_key;
    available_at = available_at;
  })

-- `_aware` of control/repository.py: the instant of a call, by the clock where none is given.
unfoldable pub aware : ℕ → Option Datetime → ℕ
aware clock none = clock
aware clock (some (zoned t)) = t
aware clock (some (naive t)) = t

-- `ResidencyReport(...)` of execution.py, where the time of the observation is given.
unfoldable pub residency_report : List ResidencyItem → Datetime → Mapping → Result ResidencyReport
residency_report items (zoned t) metadata =
    ok (record { items = items; observed_at = t; metadata = metadata })
residency_report items (naive t) metadata = err (value_error "observed_at")

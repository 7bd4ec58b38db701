-- ===== src/Control/Repository/Jobs/Updates.antt =====
-- The records that the methods on jobs write: a new job, and `job.with_updates(...)` of each method.
use astrum_weaver.Prelude.{ℕ, ◌+◌, String, Bool, Option, none, some, [], ◌∷◌, ltb, if◌then◌else◌}
use astrum_weaver.Dict.{put}
use astrum_weaver.Value.{Mapping, bool, str}
use astrum_weaver.Execution.{JobResult}
use astrum_weaver.Control.Models.{
  JobSubmission, JobRecord, queued, running, succeeded, failed, cancelled,
}

-- `str | dict[str, object]`
pub data ErrorPayload : Type 0 where
  message : String → ErrorPayload
  details : Mapping → ErrorPayload

unfoldable pub failure_payload : ErrorPayload → Bool → Mapping
failure_payload (message text) retryable =
    ("message", str text) ∷ ("retryable", bool retryable) ∷ []
failure_payload (details fields) retryable = put "retryable" (bool retryable) fields

time_or : ℕ → Option ℕ → ℕ
time_or now none = now
time_or now (some t) = t

unfoldable pub new_job : JobSubmission → String → ℕ → ℕ → JobRecord
unfolding time_or
new_job submission job_id sequence now = record {
  job_id = job_id;
  capability = submission.capability;
  payload = submission.payload;
  requirements = submission.requirements;
  priority = submission.priority;
  sequence = sequence;
  status = queued;
  attempts = 0;
  max_attempts = submission.max_attempts;
  idempotency_key = submission.idempotency_key;
  created_at = now;
  available_at = time_or now submission.available_at;
  updated_at = now;
  assigned_worker_id = none;
  lease_token = none;
  lease_expires_at = none;
  started_at = none;
  finished_at = none;
  result = none;
  error = none;
}

unfoldable pub claimed : JobRecord → String → String → ℕ → ℕ → JobRecord
claimed job worker_id token now expires = record job {
  status = running;
  attempts = job.attempts + 1;
  assigned_worker_id = some worker_id;
  lease_token = some token;
  lease_expires_at = some expires;
  started_at = some now;
  finished_at = none;
  updated_at = now;
  error = none;
}

unfoldable pub completed : JobRecord → JobResult → ℕ → JobRecord
completed job result now = record job {
  status = succeeded;
  result = some result;
  error = none;
  assigned_worker_id = none;
  lease_token = none;
  lease_expires_at = none;
  finished_at = some now;
  updated_at = now;
}

unfoldable pub failed_with : JobRecord → Mapping → Bool → ℕ → JobRecord
failed_with job error retry now = record job {
  status = if retry then queued else failed;
  error = some error;
  assigned_worker_id = none;
  lease_token = none;
  lease_expires_at = none;
  started_at = if retry then none else job.started_at;
  finished_at = if retry then none else some now;
  available_at = if retry then now else job.available_at;
  updated_at = now;
}

unfoldable pub cancelled_at : JobRecord → ℕ → JobRecord
cancelled_at job now = record job {
  status = cancelled;
  assigned_worker_id = none;
  lease_token = none;
  lease_expires_at = none;
  finished_at = some now;
  updated_at = now;
}

-- The update of `recover_expired_jobs`.
unfoldable pub recovered : JobRecord → ℕ → JobRecord
unfolding failed_with
recovered job now =
    let retry = ltb job.attempts job.max_attempts in
    failed_with job (("message", str "worker lease expired") ∷ ("retryable", bool retry) ∷ []) retry
      now

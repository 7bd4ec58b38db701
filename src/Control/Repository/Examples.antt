-- ===== src/Control/Repository/Examples.antt =====
-- A small history of the repository: two workers, and a job that one of them runs.
use mathlib.Core.Option
use astrum_weaver.Prelude.{
  String, ◌≡◌, refl, ◌<◌, true, some, none, List, [], ◌∷◌, pos, arith, sym, ap, subst, ◌∙◌,
}
use astrum_weaver.Dict.{get, put, count, values}
use astrum_weaver.Dict.Laws.{get-put_self}
use astrum_weaver.Value.{str}
use astrum_weaver.Sets.{contains, subset}
use astrum_weaver.Contracts.{WorkerSpec, JobRequirements}
use astrum_weaver.Scheduling.{worker_matches}
use astrum_weaver.Execution.{JobResult}
use astrum_weaver.Control.Models.{
  WorkerRecord, JobRecord, online, WorkerRegistration, JobSubmission, is_terminal,
}
use astrum_weaver.Control.Repository.State.{
  Repository, get_worker, get_job, assert_gpu_ownership_available, active_job_count, assert_running,
}
use astrum_weaver.Control.Repository.Workers.{register_worker, registered}
use astrum_weaver.Control.Repository.Jobs.{
  is_eligible, held_job, complete_job, recover_expired_jobs, submit_job, claim_next_job, eligible,
  sort_eligible,
}
use astrum_weaver.Control.Repository.Jobs.Updates.{
  new_job, claimed, completed, failed_with, failure_payload, message,
}
use astrum_weaver.Control.Repository.Lease.{HoldsLease}
use astrum_weaver.Control.Repository.Claims.{IsReady}
use astrum_weaver.Control.Repository.Calls.{
  Call, register, submit, claim, complete, step, run, IsValidHistory, IsValidCall, IsNew,
}
use astrum_weaver.Control.Repository.Accounting.{IsBooked}
use astrum_weaver.Control.Repository.Books.{run-IsBooked, step-IsBooked}
use astrum_weaver.Control.Repository.Settling.{holder_complete}
use astrum_weaver.Control.Repository.Sweeps.{swept, recover_expired_jobs-get}
use astrum_weaver.Control.Repository.Atomicity.{raised}
use astrum_weaver.Result.{conflict, assigned_elsewhere}

abbrev pub worker_spec_of : String → String → WorkerSpec
worker_spec_of id gpu = record {
  worker_id = id;
  worker_class = "gpu-worker";
  resources = record { gpu_count = 1; total_vram_mb = 24000; max_single_gpu_vram_mb = 24000 };
  gpu_uuids = gpu ∷ [];
  accelerators = [];
  capabilities = "encode" ∷ [];
  labels = [];
}

abbrev pub registration_of : String → String → WorkerRegistration
registration_of id gpu = record { spec = worker_spec_of id gpu; max_concurrency = 1; metadata = [] }

abbrev pub any_worker : JobRequirements
any_worker = record {
  worker_class = some "gpu-worker";
  required_capabilities = [];
  required_labels = [];
  required_gpu_uuids = [];
  min_gpu_count = 1;
  min_total_vram_mb = 16000;
  min_single_gpu_vram_mb = 0;
}

abbrev pub encode : JobSubmission
encode = record {
  capability = "encode";
  payload = ("input", str "a.wav") ∷ [];
  requirements = any_worker;
  priority = pos 5;
  max_attempts = 2;
  idempotency_key = some "order-1";
  available_at = some 1500000;
}

abbrev pub fresh : Repository
fresh = record {
  worker_ttl_seconds = 60;
  lease_seconds = 300;
  workers = [];
  jobs = [];
  idempotency = [];
  sequence = 0;
}

abbrev pub fresh-IsNew : IsNew fresh
fresh-IsNew = (refl, refl, refl, refl)

abbrev pub queued_history : List Call
queued_history =
    register (registration_of "w1" "GPU-A") 1000000
    ∷ register (registration_of "w2" "GPU-B") 1000000
    ∷ submit encode "job-1" 2000000
    ∷ []

abbrev pub claimed_history : List Call
claimed_history =
    register (registration_of "w1" "GPU-A") 1000000
    ∷ register (registration_of "w2" "GPU-B") 1000000
    ∷ submit encode "job-1" 2000000
    ∷ claim "w1" "token-1" 3000000
    ∷ []

pub claimed_history-IsValid : IsValidHistory fresh claimed_history
unfolding step register_worker get assert_gpu_ownership_available put registered contains
claimed_history-IsValid = (omega arith, (omega arith, ((omega arith, refl), (tt, tt))))

pub queued_history-IsValid : IsValidHistory fresh queued_history
unfolding step register_worker get assert_gpu_ownership_available put registered contains
queued_history-IsValid = (omega arith, (omega arith, ((omega arith, refl), tt)))

abbrev pub queued_state : Repository
queued_state = run fresh queued_history

abbrev pub claimed_state : Repository
claimed_state = run fresh claimed_history

pub queued_state-IsBooked : IsBooked queued_state
queued_state-IsBooked = run-IsBooked fresh queued_history fresh-IsNew queued_history-IsValid

pub claimed_state-IsBooked : IsBooked claimed_state
claimed_state-IsBooked = run-IsBooked fresh claimed_history fresh-IsNew claimed_history-IsValid

abbrev pub worker_one : WorkerRecord
worker_one = record {
  spec = worker_spec_of "w1" "GPU-A";
  max_concurrency = 1;
  state = online;
  active_jobs = 0;
  registered_at = 1000000;
  last_seen_at = 1000000;
  metadata = [];
}

abbrev pub queued_job : JobRecord
queued_job = new_job encode "job-1" 1 2000000

abbrev pub running_job : JobRecord
running_job = claimed queued_job "w1" "token-1" 3000000 303000000

pub running_job-found : get "job-1" claimed_state.jobs ≡ some running_job
unfolding run step register_worker submit_job claim_next_job get put new_job claimed eligible
    sort_eligible get_worker assert_gpu_ownership_available registered contains active_job_count
    count values is_eligible worker_matches subset
running_job-found = refl

pub running_job-held : HoldsLease running_job "w1" "token-1" 4000000
unfolding claimed
running_job-held = record {
  runs = refl;
  assigned = refl;
  named = refl;
  fenced = refl;
  deadline = 303000000;
  expires = refl;
  in_time = omega arith;
}

pub running_job-retries : running_job.attempts < running_job.max_attempts
unfolding claimed new_job
running_job-retries = omega arith

pub worker_one-IsReady : IsReady queued_state "w1" 3000000 worker_one
unfolding run step register_worker submit_job get put assert_gpu_ownership_available registered
    contains active_job_count count
worker_one-IsReady = record { known = refl; seen = omega arith; on = refl; room = omega arith }

abbrev pub encoded : JobResult
encoded = record {
  outputs = ("frames", str "ok") ∷ [];
  artifacts = [];
  metrics = [];
  text = none;
  metadata = [];
}

abbrev pub failed_attempt : JobRecord
failed_attempt = failed_with running_job (failure_payload (message "no input") true) true 4000000

abbrev pub done_job : JobRecord
done_job = completed running_job encoded 4000000

abbrev pub done_state : Repository
done_state = step claimed_state (complete "job-1" encoded "w1" "token-1" 4000000)

pub done_state-IsBooked : IsBooked done_state
done_state-IsBooked =
    step-IsBooked claimed_state (complete "job-1" encoded "w1" "token-1" 4000000) tt
      claimed_state-IsBooked

pub done_job-found : get "job-1" done_state.jobs ≡ some done_job
unfolding step
done_job-found =
    subst (λ r. get "job-1" r.1.jobs ≡ some done_job)
      (sym (
        holder_complete claimed_state "job-1" "w1" "token-1" 4000000 running_job running_job-found
          encoded running_job-held))
      (get-put_self "job-1" done_job claimed_state.jobs)

pub done_job-ended : is_terminal done_job.status ≡ true
unfolding completed
done_job-ended = refl

pub order-known : get "order-1" claimed_state.idempotency ≡ some "job-1"
unfolding run step register_worker submit_job claim_next_job get put new_job claimed eligible
    sort_eligible get_worker assert_gpu_ownership_available registered contains active_job_count
    count values is_eligible worker_matches subset
order-known = refl

pub fresh-submission : IsValidCall fresh (submit encode "job-1" 2000000)
unfolding get
fresh-submission = (omega arith, refl)

pub fresh-order : get "order-1" fresh.idempotency ≡ none
unfolding get
fresh-order = refl

pub other_worker-refused :
    raised claimed_state (complete "job-1" encoded "w2" "token-1" 4000000)
    ≡ some (conflict assigned_elsewhere)
unfolding run step register_worker submit_job claim_next_job get put new_job claimed eligible
    sort_eligible get_worker assert_gpu_ownership_available registered contains active_job_count
    count values is_eligible worker_matches subset raised complete_job held_job get_job
    assert_running
other_worker-refused = refl

pub swept_job-found :
    get "job-1" (recover_expired_jobs 400000000 claimed_state).1.jobs
    ≡ some (swept 400000000 running_job)
swept_job-found =
    recover_expired_jobs-get 400000000 claimed_state "job-1" claimed_state-IsBooked
    ∙ ap (Option.map (swept 400000000)) running_job-found

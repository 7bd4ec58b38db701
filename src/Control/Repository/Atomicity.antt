-- ===== src/Control/Repository/Atomicity.antt =====
-- Errors of the repository's methods: a call that raises has written nothing.
use astrum_weaver.Prelude.{◌≡◌, refl, Option, none, some}
use astrum_weaver.Control.Repository.State.{Repository}
use astrum_weaver.Control.Repository.Workers.{register_worker, set_worker_state, heartbeat_worker}
use astrum_weaver.Control.Repository.Jobs.{
  submit_job, claim_next_job, complete_job, fail_job, cancel_job,
}
use astrum_weaver.Control.Repository.Cases.{
  register_worker_cases, set_worker_state_cases, heartbeat_worker_cases, claim_next_job_cases,
  complete_job_cases, fail_job_cases, cancel_job_cases, submit_job_cases,
}
use astrum_weaver.Control.Repository.Calls.{
  Call, register, set_state, heartbeat, expire_workers, submit, claim, complete, fail, cancel,
  recover_jobs, step,
}
use astrum_weaver.Result.{Error, Result, ok, err}

abbrev error_of : {A : Type 0} → Result A → Option Error
error_of (ok a) = none
error_of (err e) = some e

-- What a call raises, if it does; the two sweeps raise nothing.
unfoldable pub raised : Repository → Call → Option Error
raised s (register registration now) = error_of (register_worker registration now s).0
raised s (set_state id state now) = error_of (set_worker_state id state now s).0
raised s (heartbeat id beat now) = error_of (heartbeat_worker id beat now s).0
raised s (expire_workers now) = none
raised s (submit submission id now) = error_of (submit_job submission id now s).0
raised s (claim id token now) = error_of (claim_next_job id token now s).0
raised s (complete job_id result id token now) =
    error_of (complete_job job_id result id token now s).0
raised s (fail job_id error retryable id token now) =
    error_of (fail_job job_id error retryable id token now s).0
raised s (cancel job_id now) = error_of (cancel_job job_id now s).0
raised s (recover_jobs now) = none

abbrev Keeps : {A : Type 0} → Repository → Error → Result A × Repository → Type 0
Keeps s e r = error_of r.0 ≡ some e → r.1 ≡ s

-- A call that raises leaves the repository as it was.
pub step-raised : (s : Repository) (c : Call) (e : Error) → raised s c ≡ some e → step s c ≡ s
unfolding raised step
step-raised s (register registration now) e =
    register_worker_cases (Keeps s e) registration now s (λ _ _. refl) (λ _ _ h. absurd (cc h))
step-raised s (set_state id state now) e =
    set_worker_state_cases (Keeps s e) id state now s (λ _ _. refl) (λ _ _ _ h. absurd (cc h))
step-raised s (heartbeat id beat now) e =
    heartbeat_worker_cases (Keeps s e) id beat now s (λ _ _. refl) (λ _ _ _ _ h. absurd (cc h))
step-raised s (expire_workers now) e = λ h. absurd (cc h)
step-raised s (submit submission id now) e =
    submit_job_cases (Keeps s e) submission id now s (λ _ _ _. refl) (λ _ h. absurd (cc h))
step-raised s (claim id token now) e =
    claim_next_job_cases (Keeps s e) id token now s (λ _ _. refl) (λ _ _ h. absurd (cc h))
      (λ _. refl) (λ _ _ _ _ _ _ _ h. absurd (cc h))
step-raised s (complete job_id result id token now) e =
    complete_job_cases (Keeps s e) job_id result id token now s (λ _ _. refl)
      (λ _ _ _ h. absurd (cc h))
step-raised s (fail job_id error retryable id token now) e =
    fail_job_cases (Keeps s e) job_id error retryable id token now s (λ _ _. refl)
      (λ _ _ _ h. absurd (cc h))
step-raised s (cancel job_id now) e =
    cancel_job_cases (Keeps s e) job_id now s (λ _ _. refl) (λ _ _ _ _. refl)
      (λ _ _ _ h. absurd (cc h))
step-raised s (recover_jobs now) e = λ h. absurd (cc h)

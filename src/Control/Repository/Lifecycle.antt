-- ===== src/Control/Repository/Lifecycle.antt =====
-- What every stored job satisfies: its key is its identity, its number was given out, and its
-- fields fit its status.
use astrum_weaver.Prelude.{
  ℕ, ◌+◌, ◌≤◌, ◌<◌, String, ◌≡◌, refl, Bool, true, false, Option, none, some, arith, subst,
}
use astrum_weaver.Execution.{JobResult}
use astrum_weaver.Value.{Mapping}
use astrum_weaver.Control.Models.{
  JobStatus, queued, running, succeeded, failed, cancelled, JobRecord, JobSubmission, is_running,
}
use astrum_weaver.Control.Repository.Jobs.Updates.{
  new_job, claimed, completed, failed_with, cancelled_at,
}

abbrev pub is_given {ℓ} : {A : Type ℓ} → Option A → Bool
is_given none = false
is_given (some a) = true

pub record Unleased (j : JobRecord) : Type 0 where
  pub worker : j.assigned_worker_id ≡ none
  pub token : j.lease_token ≡ none
  pub expiry : j.lease_expires_at ≡ none

pub record Leased (j : JobRecord) : Type 0 where
  pub worker : is_given j.assigned_worker_id ≡ true
  pub token : is_given j.lease_token ≡ true
  pub expiry : is_given j.lease_expires_at ≡ true

-- The fields that go with each status. A queued job has an attempt left.
abbrev pub Fits : JobStatus → JobRecord → Type 0
Fits queued j =
    Unleased j × (j.started_at ≡ none) × (j.finished_at ≡ none) × (j.attempts < j.max_attempts)
Fits running j =
    Leased j
    × (is_given j.started_at ≡ true)
    × (j.finished_at ≡ none)
    × (1 ≤ j.attempts)
    × (j.attempts ≤ j.max_attempts)
Fits succeeded j =
    Unleased j
    × (is_given j.finished_at ≡ true)
    × (is_given j.result ≡ true)
    × (j.error ≡ none)
    × (j.attempts ≤ j.max_attempts)
Fits failed j =
    Unleased j
    × (is_given j.finished_at ≡ true)
    × (is_given j.error ≡ true)
    × (j.attempts ≤ j.max_attempts)
Fits cancelled j = Unleased j × (is_given j.finished_at ≡ true) × (j.attempts ≤ j.max_attempts)

pub record IsJob (last : ℕ) (key : String) (j : JobRecord) : Type 0 where
  pub keyed : j.job_id ≡ key
  pub numbered : (1 ≤ j.sequence) × (j.sequence ≤ last)
  pub fits : Fits j.status j

pub new_job-IsJob :
    (submission : JobSubmission) (id : String) (n now : ℕ)
    → 1 ≤ submission.max_attempts
    → IsJob (n + 1) id (new_job submission id (n + 1) now)
unfolding new_job
new_job-IsJob submission id n now h = record {
  keyed = refl;
  numbered = omega arith;
  fits = (record { worker = refl; token = refl; expiry = refl }, refl, refl, omega arith);
}

pub claimed-IsJob :
    (n : ℕ) (key : String) (j : JobRecord) (id token : String) (now expires : ℕ)
    → j.status ≡ queued
    → IsJob n key j
    → IsJob n key (claimed j id token now expires)
unfolding claimed
claimed-IsJob n key j id token now expires q h =
    let f = subst (λ st. Fits st j) q h.fits in
    record {
      keyed = h.keyed;
      numbered = h.numbered;
      fits = (
        record { worker = refl; token = refl; expiry = refl },
        refl,
        refl,
        omega arith,
        omega (arith, f.3),
      );
    }

pub completed-IsJob :
    (n : ℕ) (key : String) (j : JobRecord) (result : JobResult) (now : ℕ)
    → j.status ≡ running
    → IsJob n key j
    → IsJob n key (completed j result now)
unfolding completed
completed-IsJob n key j result now q h =
    let f = subst (λ st. Fits st j) q h.fits in
    record {
      keyed = h.keyed;
      numbered = h.numbered;
      fits = (record { worker = refl; token = refl; expiry = refl }, refl, refl, refl, f.4);
    }

pub failed_with-IsJob :
    (n : ℕ) (key : String) (j : JobRecord) (error : Mapping) (retry : Bool) (now : ℕ)
    → j.status ≡ running
    → (retry ≡ true → j.attempts < j.max_attempts)
    → IsJob n key j
    → IsJob n key (failed_with j error retry now)
unfolding failed_with
failed_with-IsJob n key j error true now q r h = record {
  keyed = h.keyed;
  numbered = h.numbered;
  fits = (record { worker = refl; token = refl; expiry = refl }, refl, refl, r refl);
}
failed_with-IsJob n key j error false now q r h =
    let f = subst (λ st. Fits st j) q h.fits in
    record {
      keyed = h.keyed;
      numbered = h.numbered;
      fits = (record { worker = refl; token = refl; expiry = refl }, refl, refl, f.4);
    }

attempts_bounded : (j : JobRecord) (st : JobStatus) → Fits st j → j.attempts ≤ j.max_attempts
attempts_bounded j queued f = omega (arith, f.3)
attempts_bounded j running f = f.4
attempts_bounded j succeeded f = f.4
attempts_bounded j failed f = f.3
attempts_bounded j cancelled f = f.2

pub cancelled_at-IsJob :
    (n : ℕ) (key : String) (j : JobRecord) (now : ℕ)
    → IsJob n key j
    → IsJob n key (cancelled_at j now)
unfolding cancelled_at
cancelled_at-IsJob n key j now h = record {
  keyed = h.keyed;
  numbered = h.numbered;
  fits = (
    record { worker = refl; token = refl; expiry = refl },
    refl,
    attempts_bounded j j.status h.fits,
  );
}

pub is_running-eq : (st : JobStatus) → is_running st ≡ true → st ≡ running
is_running-eq running h = refl
is_running-eq _ h = absurd (cc)

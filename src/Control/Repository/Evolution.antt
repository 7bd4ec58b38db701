-- ===== src/Control/Repository/Evolution.antt =====
-- How a stored job evolves: the state machine of jobs, and what no call changes.
use mathlib.Core.Option
use astrum_weaver.Prelude.{
  ℕ, ◌+◌, ◌<◌, String, ◌≡◌, refl, sym, ap, subst, ◌∙◌, Bool, true, false, Option, none, some, [],
  ◌∷◌, ◌==◌, eq_iff, Bool-cases, inl, inr, ltb, ltb→lt, ℤ,
}
use astrum_weaver.Dict.{Dict, get, put}
use astrum_weaver.Dict.Laws.{get-put}
use astrum_weaver.Value.{Mapping}
use astrum_weaver.Contracts.{JobRequirements}
use astrum_weaver.Control.Models.{WorkerRecord, JobRecord, queued, running, is_terminal}
use astrum_weaver.Control.Repository.State.{Repository, lease_time}
use astrum_weaver.Control.Repository.Workers.{expire, is_fresh, expire_stale_workers}
use astrum_weaver.Control.Repository.Jobs.{enqueue, is_expired, may_retry}
use astrum_weaver.Control.Repository.Jobs.Updates.{
  claimed, completed, failed_with, cancelled_at, recovered,
}
use astrum_weaver.Control.Repository.Cases.{
  register_worker_cases, set_worker_state_cases, heartbeat_worker_cases, claim_next_job_cases,
  complete_job_cases, fail_job_cases, cancel_job_cases, submit_job_cases,
}
use astrum_weaver.Control.Repository.Lease.{assert_running-holds}
use astrum_weaver.Control.Repository.Accounting.{IsBooked}
use astrum_weaver.Control.Repository.Selection.{choice, is_eligible-queued}
use astrum_weaver.Control.Repository.Books.{is_expired-running}
use astrum_weaver.Control.Repository.Books.Workers.{
  Beat, idle, renews, heartbeat_checks-Beat, renewal, by_id,
}
use astrum_weaver.Control.Repository.Books.Jobs.{may_retry-room}
use astrum_weaver.Control.Repository.Sweeps.{swept, recover_expired_jobs-get}
use astrum_weaver.Control.Repository.Calls.{
  Call, register, set_state, heartbeat, expire_workers, submit, claim, complete, fail, cancel,
  recover_jobs, step, IsValidCall,
}

-- What a job was asked to be: no call changes it.
pub record Request : Type 0 where
  pub job_id : String
  pub capability : String
  pub payload : Mapping
  pub requirements : JobRequirements
  pub priority : ℤ
  pub sequence : ℕ
  pub max_attempts : ℕ
  pub idempotency_key : Option String
  pub created_at : ℕ

abbrev pub request_of : JobRecord → Request
request_of j = record {
  job_id = j.job_id;
  capability = j.capability;
  payload = j.payload;
  requirements = j.requirements;
  priority = j.priority;
  sequence = j.sequence;
  max_attempts = j.max_attempts;
  idempotency_key = j.idempotency_key;
  created_at = j.created_at;
}

-- One move of the state machine.
pub data Move (j j' : JobRecord) : Type 0 where
  stays : j' ≡ j → Move j j'
  extends :
      j.status ≡ running
      → j'.status ≡ running
      → j'.attempts ≡ j.attempts
      → j'.lease_token ≡ j.lease_token
      → Move j j'
  starts : j.status ≡ queued → j'.status ≡ running → j'.attempts ≡ j.attempts + 1 → Move j j'
  requeues :
      j.status ≡ running
      → j'.status ≡ queued
      → j'.attempts ≡ j.attempts
      → j.attempts < j.max_attempts
      → Move j j'
  ends :
      is_terminal j.status ≡ false
      → is_terminal j'.status ≡ true
      → j'.attempts ≡ j.attempts
      → Move j j'

pub record Evolves (j j' : JobRecord) : Type 0 where
  pub request : request_of j' ≡ request_of j
  pub move : Move j j'

Evolves-refl : (j : JobRecord) → Evolves j j
Evolves-refl j = record { request = refl; move = stays refl }

failed_with-Evolves :
    (j : JobRecord) (error : _) (retry : Bool) (now : ℕ)
    → j.status ≡ running
    → (retry ≡ true → j.attempts < j.max_attempts)
    → Evolves j (failed_with j error retry now)
unfolding failed_with
failed_with-Evolves j error true now r room = record {
  request = refl;
  move = requeues r refl refl (room refl);
}
failed_with-Evolves j error false now r room = record {
  request = refl;
  move = ends (rw r refl) refl refl;
}

-- The stored job at a key has evolved from `j`.
abbrev pub Evolved : String → JobRecord → Dict JobRecord → Type 0
Evolved key j jobs = (j' : JobRecord) × (get key jobs ≡ some j') × Evolves j j'

module _ (key : String) (j : JobRecord) (jobs : Dict JobRecord)
    (found : get key jobs ≡ some j) where
  kept : Evolved key j jobs
  kept = (j, found, Evolves-refl j)

  -- A write of an evolved job, at this key or at another.
  written :
      (k : String) (old new : JobRecord)
      → get k jobs ≡ some old
      → Evolves old new
      → Evolved key j (put k new jobs)
  written k old new stored ev = elim (Bool-cases (k == key)) [
    | inl e ↦
        let same : old ≡ j =
          cc (sym stored ∙ (ap (λ x. get x jobs) ((eq_iff k key).0 e) ∙ found)) in
        (new, rw (get-put k key new jobs, e) refl, subst (λ x. Evolves x new) same ev)
    | inr e ↦ (j, rw (get-put k key new jobs, e) found, Evolves-refl j)
  ]

  -- A write at a key that no job had.
  added : (k : String) (new : JobRecord) → get k jobs ≡ none → Evolved key j (put k new jobs)
  added k new fresh = elim (Bool-cases (k == key)) [
    | inl e ↦ absurd (cc (sym fresh ∙ (ap (λ x. get x jobs) ((eq_iff k key).0 e) ∙ found)))
    | inr e ↦ (j, rw (get-put k key new jobs, e) found, Evolves-refl j)
  ]

claimed-Evolves :
    (j : JobRecord) (id token : String) (now expires : ℕ)
    → j.status ≡ queued
    → Evolves j (claimed j id token now expires)
unfolding claimed
claimed-Evolves j id token now expires q = record { request = refl; move = starts q refl refl }

completed-Evolves :
    (j : JobRecord) (result : _) (now : ℕ) → j.status ≡ running → Evolves j (completed j result now)
unfolding completed
completed-Evolves j result now r = record { request = refl; move = ends (rw r refl) refl refl }

cancelled-Evolves :
    (j : JobRecord) (now : ℕ) → is_terminal j.status ≡ false → Evolves j (cancelled_at j now)
unfolding cancelled_at
cancelled-Evolves j now h = record { request = refl; move = ends h refl refl }

renewal-Evolves :
    (s : Repository) (j : JobRecord) (now : ℕ) → j.status ≡ running → Evolves j (renewal s now j)
renewal-Evolves s j now r = record { request = refl; move = extends r r refl refl }

swept-Evolves : (now : ℕ) (j : JobRecord) → Evolves j (swept now j)
unfolding recovered
swept-Evolves now j = elim (Bool-cases (is_expired now j)) [
  | inl e ↦ rw e (
      failed_with-Evolves j _ (ltb j.attempts j.max_attempts) now (is_expired-running now j e)
        (ltb→lt _ _))
  | inr e ↦ rw e (Evolves-refl j)
]

expire-jobs :
    (cutoff : ℕ) (rest : Dict WorkerRecord) (s : Repository)
    → (expire cutoff rest s).1.jobs ≡ s.jobs
unfolding expire
expire-jobs cutoff [] s = refl
expire-jobs cutoff ((id, w) ∷ rest) s = elim (Bool-cases (is_fresh cutoff w)) [
  | inl e ↦ rw (e, expire) (expire-jobs cutoff rest s)
  | inr e ↦ rw (e, expire) (expire-jobs cutoff rest _)
]

module _ (s : Repository) (b : IsBooked s) (key : String) (j : JobRecord)
    (found : get key s.jobs ≡ some j) where
  Beat-Evolved :
      (id : String) (now : ℕ) (jobs : Dict JobRecord) → Beat s id now jobs → Evolved key j jobs
  Beat-Evolved id now jobs (idle e) = subst (Evolved key j) (sym e) (kept key j s.jobs found)
  Beat-Evolved id now jobs (renews k token old stored held e) =
      subst (Evolved key j) (sym (e ∙ by_id s b k old _ stored)) (
        written key j s.jobs found k old (renewal s now old) stored
          (renewal-Evolves s old now held.runs))

  -- A stored job stays stored, keeps its request, and makes at most one move of the state machine in
  -- a call.
  pub step-Evolved : (c : Call) → IsValidCall s c → Evolved key j (step s c).jobs
  unfolding step expire_stale_workers enqueue claimed
  step-Evolved (register registration now) v =
      register_worker_cases (λ r. Evolved key j r.1.jobs) registration now s
        (λ e. kept key j s.jobs found) (λ checks free. kept key j s.jobs found)
  step-Evolved (set_state id state now) v =
      set_worker_state_cases (λ r. Evolved key j r.1.jobs) id state now s
        (λ e. kept key j s.jobs found) (λ w known free. kept key j s.jobs found)
  step-Evolved (heartbeat id beat now) v =
      heartbeat_worker_cases (λ r. Evolved key j r.1.jobs) id beat now s
        (λ e. kept key j s.jobs found)
        (λ w jobs known checks.
          Beat-Evolved id now jobs (heartbeat_checks-Beat s id beat now w jobs checks))
  step-Evolved (expire_workers now) v =
      subst (Evolved key j) (sym (expire-jobs _ s.workers s)) (kept key j s.jobs found)
  step-Evolved (submit submission k now) v =
      submit_job_cases (λ r. Evolved key j r.1.jobs) submission k now s
        (λ existing e. kept key j s.jobs found) (λ fresh. added key j s.jobs found k _ v.1)
  step-Evolved (claim id token now) v =
      claim_next_job_cases (λ r. Evolved key j r.1.jobs) id token now s
        (λ e. kept key j s.jobs found) (λ w known. kept key j s.jobs found)
        (kept key j s.jobs found)
        λ w known on room old rest e.
          let c = choice s w.spec now old rest b e in
          written key j s.jobs found old.job_id old (claimed old id token now (now + lease_time s))
            c.stored (claimed-Evolves old id token now _ (is_eligible-queued w.spec now old c.fit))
  step-Evolved (complete k result id token now) v =
      complete_job_cases (λ r. Evolved key j r.1.jobs) k result id token now s
        (λ e. kept key j s.jobs found)
        λ old stored runs.
          written key j s.jobs found k old (completed old result now) stored
            (completed-Evolves old result now (assert_running-holds old id token now runs).runs)
  step-Evolved (fail k error retryable id token now) v =
      fail_job_cases (λ r. Evolved key j r.1.jobs) k error retryable id token now s
        (λ e. kept key j s.jobs found)
        λ old stored runs. written key j s.jobs found k old _ stored (
          failed_with-Evolves old _ (may_retry retryable old) now
            (assert_running-holds old id token now runs).runs (may_retry-room retryable old))
  step-Evolved (cancel k now) v =
      cancel_job_cases (λ r. Evolved key j r.1.jobs) k now s (λ e. kept key j s.jobs found)
        (λ old stored ended. kept key j s.jobs found)
        λ old stored open'.
          written key j s.jobs found k old (cancelled_at old now) stored
            (cancelled-Evolves old now open')
  step-Evolved (recover_jobs now) v = (
    swept now j,
    recover_expired_jobs-get now s key b ∙ ap (Option.map (swept now)) found,
    swept-Evolves now j,
  )

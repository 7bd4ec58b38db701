-- ===== src/Control/Repository/Books/Workers.antt =====
-- The books under the calls that write a worker.
use mathlib.Core.Path.{◌∙◌}
use astrum_weaver.Prelude.{
  ℕ, ◌+◌, ◌≤◌, String, ◌≡◌, refl, sym, ap, ◌&&◌, subst, Option, none, some, arith,
}
use astrum_weaver.Dict.{Dict, get, put}
use astrum_weaver.Dict.Laws.{Entries-get}
use astrum_weaver.Control.Models.{
  WorkerRegistration, WorkerHeartbeat, WorkerRecord, WorkerState, JobRecord, running, is_offline,
}
use astrum_weaver.Control.Repository.State.{
  Repository, is_held_by, lease_time, get_job, assert_running,
}
use astrum_weaver.Control.Repository.Workers.{
  check_existing, registered, register_worker, set_worker_state, heartbeat_checks, renewed,
  named_lease, leaves_offline, beaten, heartbeat_worker,
}
use astrum_weaver.Control.Repository.Cases.{
  register_worker_cases, set_worker_state_cases, heartbeat_worker_cases, get_job-ok,
}
use astrum_weaver.Control.Repository.Lifecycle.{IsJob, Fits, Leased}
use astrum_weaver.Control.Repository.Lease.{HoldsLease, assert_running-holds}
use astrum_weaver.Control.Repository.Accounting.{
  Account, IsBooked, Account-of, replaced-IsBooked, with_worker-IsBooked,
}
use astrum_weaver.Result.{ok, >>=-eq-ok, refuse, conflict, offline_worker}

-- The state that a call leaves is booked.
abbrev pub Booked {ℓ} : {A : Type ℓ} → A × Repository → Type 0
Booked (_, s) = IsBooked s

check_existing-room :
    (registration : WorkerRegistration) (o : Option WorkerRecord) (n : ℕ)
    → 1 ≤ registration.max_concurrency
    → check_existing registration o ≡ ok tt
    → Account registration.spec.worker_id n o
    → n ≤ registration.max_concurrency
unfolding check_existing
check_existing-room registration none n one h a = omega arith
check_existing-room registration (some w) n one h a = ground (arith, h, a)

pub register-Booked :
    (registration : WorkerRegistration) (now : ℕ) (s : Repository)
    → 1 ≤ registration.max_concurrency
    → IsBooked s
    → Booked (register_worker registration now s)
register-Booked registration now s one b =
    register_worker_cases Booked registration now s (λ e. b)
      λ checks free.
        with_worker-IsBooked s b registration.spec.worker_id (registered registration now s) (
          unfold registered in
          (
            refl,
            refl,
            check_existing-room registration _ _ one checks
                (b.accounts registration.spec.worker_id),
          ))

pub set_state-Booked :
    (id : String) (state : WorkerState) (now : ℕ) (s : Repository)
    → IsBooked s
    → Booked (set_worker_state id state now s)
set_state-Booked id state now s b =
    set_worker_state_cases Booked id state now s (λ e. b)
      λ w found free.
        with_worker-IsBooked s b id (record w { state = state; last_seen_at = now })
          (Account-of s b id w found)

-- The job of a heartbeat with its lease renewed.
abbrev pub renewal : Repository → ℕ → JobRecord → JobRecord
renewal s now job = record job { lease_expires_at = some (now + lease_time s); updated_at = now }

-- What a heartbeat does to the jobs: nothing, or one lease of its worker is renewed.
pub data Beat (s : Repository) (id : String) (now : ℕ) (jobs : Dict JobRecord) : Type 0 where
  idle : jobs ≡ s.jobs → Beat s id now jobs
  renews :
      (key token : String) (job : JobRecord)
      → get key s.jobs ≡ some job
      → HoldsLease job id token now
      → jobs ≡ put job.job_id (renewal s now job) s.jobs
      → Beat s id now jobs

renewed-Beat :
    (s : Repository) (id : String) (lease : Option (String × String)) (now : ℕ)
    (jobs : Dict JobRecord)
    → renewed s id lease now ≡ ok jobs
    → Beat s id now jobs
unfolding renewed
renewed-Beat s id none now jobs h = idle (cc)
renewed-Beat s id (some (key, token)) now jobs h =
    let (job, found, h₁) = >>=-eq-ok (get_job s key) _ h in
    let (_, held, h₂) = >>=-eq-ok (assert_running job id token now) _ h₁ in
    renews key token job (get_job-ok s key found) (assert_running-holds job id token now held)
      (cc h₂)

pub heartbeat_checks-Beat :
    (s : Repository) (id : String) (beat : WorkerHeartbeat) (now : ℕ) (w : WorkerRecord)
    (jobs : Dict JobRecord)
    → heartbeat_checks s id beat now w ≡ ok jobs
    → Beat s id now jobs
unfolding heartbeat_checks
heartbeat_checks-Beat s id beat now w jobs h =
    let (_, _, h₁) =
      >>=-eq-ok (refuse (is_offline w.state && leaves_offline beat.state) (conflict offline_worker))
        _ h in
    let (lease, _, h₂) = >>=-eq-ok (named_lease beat.active_job_id beat.lease_token) _ h₁ in
    renewed-Beat s id lease now jobs h₂

module _ (s : Repository) (b : IsBooked s) where
  pub IsJob-at : (key : String) (j : JobRecord) → get key s.jobs ≡ some j → IsJob s.sequence key j
  IsJob-at key j found = Entries-get (IsJob s.sequence) s.jobs key j b.jobs found

  -- The writes of the source go by `job.job_id`, which is the key.
  pub by_id :
      (key : String) (j j' : JobRecord)
      → get key s.jobs ≡ some j
      → put j.job_id j' s.jobs ≡ put key j' s.jobs
  by_id key j j' found = ap (λ k. put k j' s.jobs) (IsJob-at key j found).keyed

  renewal-IsJob :
      (key : String) (j : JobRecord) (now : ℕ)
      → get key s.jobs ≡ some j
      → j.status ≡ running
      → IsJob s.sequence key (renewal s now j)
  renewal-IsJob key j now found r =
      let h = IsJob-at key j found in
      let f = subst (λ st. Fits st j) r h.fits in
      let leased : Leased (renewal s now j) = record {
        worker = f.0.worker;
        token = f.0.token;
        expiry = refl;
      } in
      record {
        keyed = h.keyed;
        numbered = h.numbered;
        fits = subst (λ st. Fits st (renewal s now j)) (sym r) (leased, f.1, f.2, f.3, f.4);
      }

  pub Beat-IsBooked :
      (id : String) (now : ℕ) (jobs : Dict JobRecord)
      → Beat s id now jobs
      → IsBooked (record s { jobs = jobs })
  unfolding is_held_by
  Beat-IsBooked id now jobs (idle e) = subst (λ d. IsBooked (record s { jobs = d })) (sym e) b
  Beat-IsBooked id now jobs (renews key token j found held e) =
      subst (λ d. IsBooked (record s { jobs = d })) (sym (e ∙ by_id key j _ found))
        (replaced-IsBooked s b key j (renewal s now j) found
          (renewal-IsJob key j now found held.runs) (λ k. refl))

  pub heartbeat-Booked :
      (id : String) (beat : WorkerHeartbeat) (now : ℕ) → Booked (heartbeat_worker id beat now s)
  unfolding beaten
  heartbeat-Booked id beat now =
      heartbeat_worker_cases Booked id beat now s (λ e. b)
        λ w jobs found checks.
          let s' = record s { jobs = jobs } in
          let b' = Beat-IsBooked id now jobs (heartbeat_checks-Beat s id beat now w jobs checks) in
          let own = Account-of s' b' id w found in
          with_worker-IsBooked s' b' id (beaten id beat now s' w) (own.0, refl, omega (arith, own))

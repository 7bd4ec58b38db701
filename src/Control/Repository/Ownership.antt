-- ===== src/Control/Repository/Ownership.antt =====
-- No device has two owners: what `_assert_gpu_ownership_available` is for.
pub mod Apart
pub mod Guard
use astrum_weaver.Prelude.{
  [], ℕ, ◌+◌, ◌-◌, String, ◌≡◌, refl, sym, subst, true, false, not, ◌&&◌, ◌||◌, Option, none, some,
  ◌∷◌, arith, ◌==◌, Bool-cases, Option-cases, inl, inr, ltb,
}
use astrum_weaver.Dict.{Dict, get, put}
use astrum_weaver.Dict.Loops.{Pending, Pending-put, Pending-skip}
use astrum_weaver.Sets.{intersects}
use astrum_weaver.Control.Models.{
  WorkerRegistration, WorkerHeartbeat, WorkerRecord, WorkerState, online, draining, offline,
  JobRecord, is_online, is_offline,
}
use astrum_weaver.Control.Repository.State.{
  Repository, owns_resources, active_job_count, assert_gpu_ownership_available,
  release_worker_capacity,
}
use astrum_weaver.Control.Repository.Workers.{
  registered, register_worker, check_ownership, set_worker_state, beaten, state_or, leaves_offline,
  heartbeat_checks, heartbeat_worker, expire, is_fresh,
}
use astrum_weaver.Control.Repository.Jobs.{recover, is_expired, claim_next_job}
use astrum_weaver.Control.Repository.Accounting.{IsBooked, Account-of}
use astrum_weaver.Control.Repository.Cases.{
  register_worker_cases, set_worker_state_cases, heartbeat_worker_cases, claim_next_job_cases,
}
use astrum_weaver.Control.Repository.Books.Workers.{Beat-IsBooked, heartbeat_checks-Beat}
use astrum_weaver.Result.{ok, >>=-eq-ok, refuse, refuse-ok, conflict, offline_worker}
use astrum_weaver.Control.Repository.Ownership.Apart.{
  IsExclusive, IsApart, other_key, put-IsExclusive, shrink-IsExclusive,
}
use astrum_weaver.Control.Repository.Ownership.Guard.{guard-apart}

online-owns : (w : WorkerRecord) → is_online w.state ≡ true → owns_resources w ≡ true
unfolding owns_resources
online-owns w h = ground (arith, h)

still_owns :
    (state : WorkerState) (asked : Option WorkerState) (n : ℕ)
    → (is_offline state && leaves_offline asked) ≡ false
    → (not (is_offline (state_or state asked)) || ltb 0 n) ≡ true
    → (not (is_offline state) || ltb 0 n) ≡ true
unfolding leaves_offline state_or
still_owns state asked n h o = ground (arith, h, o)

-- A heartbeat makes no owner of a worker that was none.
beaten-owns :
    (s s' : Repository) (id : String) (beat : WorkerHeartbeat) (now : ℕ) (w : WorkerRecord)
    (jobs : Dict JobRecord)
    → heartbeat_checks s id beat now w ≡ ok jobs
    → w.active_jobs ≡ active_job_count s' id
    → owns_resources (beaten id beat now s' w) ≡ true
    → owns_resources w ≡ true
unfolding heartbeat_checks owns_resources beaten
beaten-owns s s' id beat now w jobs checks same o =
    let (u, h, _) =
      >>=-eq-ok (refuse (is_offline w.state && leaves_offline beat.state) (conflict offline_worker))
        _ checks in
    still_owns w.state beat.state w.active_jobs (refuse-ok _ _ u h) (rw (← same) at o)

module _ (s : Repository) (b : IsBooked s) where
  -- The guard passed, so a worker with these devices is apart from the others.
  guard-IsApart :
      (registration : WorkerRegistration) (id : String) (w : WorkerRecord)
      → assert_gpu_ownership_available s registration id ≡ ok tt
      → w.gpu_uuids ≡ registration.spec.gpu_uuids
      → IsApart s.workers id w
  guard-IsApart registration id w h same k v g ne ov =
      subst (λ l. intersects l v.gpu_uuids ≡ false) (sym same)
        (guard-apart s registration id k v h g
          (subst (λ x. (x == id) ≡ false) (sym (Account-of s b k v g).0) (other_key id k ne)) ov)

  pub register-IsExclusive :
      (registration : WorkerRegistration) (now : ℕ)
      → IsExclusive s.workers
      → IsExclusive (register_worker registration now s).1.workers
  unfolding registered
  register-IsExclusive registration now x =
      register_worker_cases (λ r. IsExclusive r.1.workers) registration now s (λ e. x)
        λ checks free.
          put-IsExclusive s.workers x registration.spec.worker_id (registered registration now s)
            (λ _.
              guard-IsApart registration registration.spec.worker_id (registered registration now s)
                free refl)

  state-IsExclusive :
      (id : String) (state : WorkerState) (now : ℕ)
      → IsExclusive s.workers
      → (w : WorkerRecord) → get id s.workers ≡ some w
      → check_ownership s id w state ≡ ok tt
      → IsExclusive (put id (record w { state = state; last_seen_at = now }) s.workers)
  unfolding check_ownership owns_resources
  state-IsExclusive id offline now x w found free =
      shrink-IsExclusive s.workers x id (record w { state = offline; last_seen_at = now }) w found
        refl (λ o. ground (arith, o))
  state-IsExclusive id online now x w found free =
      put-IsExclusive s.workers x id (record w { state = online; last_seen_at = now })
        (λ _. guard-IsApart _ id (record w { state = online; last_seen_at = now }) free refl)
  state-IsExclusive id draining now x w found free =
      put-IsExclusive s.workers x id (record w { state = draining; last_seen_at = now })
        (λ _. guard-IsApart _ id (record w { state = draining; last_seen_at = now }) free refl)

  pub set_state-IsExclusive :
      (id : String) (state : WorkerState) (now : ℕ)
      → IsExclusive s.workers
      → IsExclusive (set_worker_state id state now s).1.workers
  set_state-IsExclusive id state now x =
      set_worker_state_cases (λ r. IsExclusive r.1.workers) id state now s (λ e. x)
        λ w found free. state-IsExclusive id state now x w found free

  pub heartbeat-IsExclusive :
      (id : String) (beat : WorkerHeartbeat) (now : ℕ)
      → IsExclusive s.workers
      → IsExclusive (heartbeat_worker id beat now s).1.workers
  unfolding beaten
  heartbeat-IsExclusive id beat now x =
      heartbeat_worker_cases (λ r. IsExclusive r.1.workers) id beat now s (λ e. x)
        λ w jobs found checks.
          let s' = record s { jobs = jobs } in
          let b' =
            Beat-IsBooked s b id now jobs (heartbeat_checks-Beat s id beat now w jobs checks) in
          shrink-IsExclusive s.workers x id (beaten id beat now s' w) w found refl
            (beaten-owns s s' id beat now w jobs checks (Account-of s' b' id w found).1)

  pub claim-IsExclusive :
      (id token : String) (now : ℕ)
      → IsExclusive s.workers
      → IsExclusive (claim_next_job id token now s).1.workers
  unfolding owns_resources
  claim-IsExclusive id token now x =
      claim_next_job_cases (λ r. IsExclusive r.1.workers) id token now s (λ e. x)
        (λ w found.
          shrink-IsExclusive s.workers x id (record w { state = offline }) w found refl
            (λ o. ground (arith, o)))
        x
        λ w found on room j rest e.
          shrink-IsExclusive s.workers x id (record w { active_jobs = w.active_jobs + 1 }) w found
            refl (λ o. online-owns w on)

-- A slot that is given back makes nobody an owner.
pub released-IsExclusive :
    (o : Option String) (workers : Dict WorkerRecord)
    → IsExclusive workers
    → IsExclusive (release_worker_capacity o workers)
unfolding release_worker_capacity owns_resources
released-IsExclusive none workers x = x
released-IsExclusive (some id) workers x = elim (Option-cases (get id workers)) [
  | inl e ↦ rw e x
  | inr (w, e) ↦ rw e (
      shrink-IsExclusive workers x id (record w { active_jobs = w.active_jobs - 1 }) w e refl
        (λ o. ground (arith, o)))
]

pub recover-IsExclusive :
    (now : ℕ) (rest : Dict JobRecord) (s : Repository)
    → IsExclusive s.workers
    → IsExclusive (recover now rest s).1.workers
unfolding recover
recover-IsExclusive now [] s x = x
recover-IsExclusive now ((key, j) ∷ rest) s x = elim (Bool-cases (is_expired now j)) [
  | inl e ↦
      rw (e, recover)
        (recover-IsExclusive now rest _ (released-IsExclusive j.assigned_worker_id s.workers x))
  | inr e ↦ rw (e, recover) (recover-IsExclusive now rest s x)
]

pub expire-IsExclusive :
    (cutoff : ℕ) (rest : Dict WorkerRecord) (s : Repository)
    → Pending s.workers rest
    → IsExclusive s.workers
    → IsExclusive (expire cutoff rest s).1.workers
unfolding expire owns_resources
expire-IsExclusive cutoff [] s p x = x
expire-IsExclusive cutoff ((id, w) ∷ rest) s p x = elim (Bool-cases (is_fresh cutoff w)) [
  | inl e ↦ rw (e, expire) (expire-IsExclusive cutoff rest s (Pending-skip s.workers id w rest p) x)
  | inr e ↦
      rw (e, expire)
        (expire-IsExclusive cutoff rest _
          (Pending-put s.workers id w (record w { state = offline }) rest p)
          (shrink-IsExclusive s.workers x id (record w { state = offline }) w p.stored.0 refl
            (λ o. ground (arith, o))))
]

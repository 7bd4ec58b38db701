-- ===== src/Control/Repository/Books.antt =====
-- Every call keeps the books.
pub mod Workers
pub mod Jobs
use astrum_weaver.Prelude.{
  [], ℕ, String, ◌≡◌, refl, true, false, List, ◌∷◌, arith, Bool-cases, and-eq-true, ltb→lt, inl,
  inr, ltb,
}
use astrum_weaver.Dict.{Dict, get, count}
use astrum_weaver.Dict.Loops.{Pending, Pending-start, Pending-put, Pending-skip}
use astrum_weaver.Control.Models.{WorkerRecord, JobRecord, running, is_running, offline}
use astrum_weaver.Control.Repository.State.{Repository, active_job_count}
use astrum_weaver.Control.Repository.Workers.{expire, is_fresh, expire_stale_workers}
use astrum_weaver.Control.Repository.Jobs.{recover, is_expired, recover_expired_jobs}
use astrum_weaver.Control.Repository.Jobs.Updates.{recovered}
use astrum_weaver.Control.Repository.Lifecycle.{IsJob, failed_with-IsJob, is_running-eq}
use astrum_weaver.Control.Repository.Accounting.{IsBooked, Account-of, with_worker-IsBooked}
use astrum_weaver.Control.Repository.Calls.{
  Call, register, set_state, heartbeat, expire_workers, submit, claim, complete, fail, cancel,
  recover_jobs, step, run, IsValidCall, IsValidHistory, IsNew, run-keeps,
}
use astrum_weaver.Control.Repository.Books.Workers.{
  Booked, IsJob-at, register-Booked, set_state-Booked, heartbeat-Booked,
}
use astrum_weaver.Control.Repository.Books.Jobs.{
  complete-Booked, fail-Booked, released-IsBooked, cancel-Booked, claim-Booked, submit-Booked,
}

pub is_expired-running : (now : ℕ) (j : JobRecord) → is_expired now j ≡ true → j.status ≡ running
unfolding is_expired
is_expired-running now j h = is_running-eq j.status (and-eq-true _ _ h).0

recovered-IsJob :
    (n : ℕ) (key : String) (j : JobRecord) (now : ℕ)
    → j.status ≡ running
    → IsJob n key j
    → IsJob n key (recovered j now)
unfolding recovered
recovered-IsJob n key j now r h =
    failed_with-IsJob n key j _ (ltb j.attempts j.max_attempts) now r (ltb→lt _ _) h

pub recovered-idle : (j : JobRecord) (now : ℕ) → is_running (recovered j now).status ≡ false
unfolding recovered
recovered-idle j now = ground arith

recover-Booked :
    (now : ℕ) (rest : Dict JobRecord) (s : Repository)
    → Pending s.jobs rest
    → IsBooked s
    → Booked (recover now rest s)
unfolding recover
recover-Booked now [] s p b = b
recover-Booked now ((key, j) ∷ rest) s p b = elim (Bool-cases (is_expired now j)) [
  | inl e ↦
      let r = is_expired-running now j e in
      rw (e, recover)
        (recover-Booked now rest _ (Pending-put s.jobs key j (recovered j now) rest p) (
          released-IsBooked s b key j (recovered j now) p.stored.0 r
            (recovered-IsJob s.sequence key j now r (IsJob-at s b key j p.stored.0))
            (recovered-idle j now)))
  | inr e ↦ rw (e, recover) (recover-Booked now rest s (Pending-skip s.jobs key j rest p) b)
]

expire-Booked :
    (cutoff : ℕ) (rest : Dict WorkerRecord) (s : Repository)
    → Pending s.workers rest
    → IsBooked s
    → Booked (expire cutoff rest s)
unfolding expire
expire-Booked cutoff [] s p b = b
expire-Booked cutoff ((id, w) ∷ rest) s p b = elim (Bool-cases (is_fresh cutoff w)) [
  | inl e ↦ rw (e, expire) (expire-Booked cutoff rest s (Pending-skip s.workers id w rest p) b)
  | inr e ↦
      rw (e, expire)
        (expire-Booked cutoff rest _
          (Pending-put s.workers id w (record w { state = offline }) rest p)
          (with_worker-IsBooked s b id (record w { state = offline })
            (Account-of s b id w p.stored.0)))
]

pub step-IsBooked : (s : Repository) (c : Call) → IsValidCall s c → IsBooked s → IsBooked (step s c)
unfolding step expire_stale_workers recover_expired_jobs
step-IsBooked s (register registration now) v b = register-Booked registration now s v b
step-IsBooked s (set_state id state now) v b = set_state-Booked id state now s b
step-IsBooked s (heartbeat id beat now) v b = heartbeat-Booked s b id beat now
step-IsBooked s (expire_workers now) v b =
    expire-Booked _ s.workers s (Pending-start s.workers b.members) b
step-IsBooked s (submit submission key now) v b = submit-Booked s b submission key now v.0 v.1
step-IsBooked s (claim id token now) v b = claim-Booked s b id token now
step-IsBooked s (complete key result id token now) v b = complete-Booked s b key result id token now
step-IsBooked s (fail key error retryable id token now) v b =
    fail-Booked s b key error retryable id token now
step-IsBooked s (cancel key now) v b = cancel-Booked s b key now
step-IsBooked s (recover_jobs now) v b =
    recover-Booked now s.jobs s (Pending-start s.jobs b.distinct) b

pub new-IsBooked : (s : Repository) → IsNew s → IsBooked s
unfolding active_job_count count get
new-IsBooked s (w, j, i, n) = record {
  distinct = rw j tt;
  members = rw w tt;
  jobs = rw j tt;
  accounts = λ id. rw (w, j) refl;
}

-- After any calls on a new repository, with fresh identities for new jobs, the stored jobs are well
-- formed, and every worker's `active_jobs` is the number of running jobs that are assigned to it and
-- at most its `max_concurrency`; no running job is assigned to an unknown worker.
pub run-IsBooked :
    (s : Repository) (cs : List Call) → IsNew s → IsValidHistory s cs → IsBooked (run s cs)
run-IsBooked s cs n v = run-keeps IsBooked step-IsBooked s cs v (new-IsBooked s n)

-- ===== src/Control/Repository/Safety.antt =====
-- What holds of the repository after any history of calls.
use astrum_weaver.Prelude.{some, List, Bool-cases, inl, inr}
use astrum_weaver.Dict.{Dict, get}
use astrum_weaver.Dict.Loops.{Pending-start}
use astrum_weaver.Control.Models.{JobRecord, WorkerRecord, is_running}
use astrum_weaver.Control.Repository.State.{Repository}
use astrum_weaver.Control.Repository.Workers.{expire_stale_workers}
use astrum_weaver.Control.Repository.Jobs.{enqueue, freed_by_cancel, recover_expired_jobs}
use astrum_weaver.Control.Repository.Cases.{
  complete_job_cases, fail_job_cases, cancel_job_cases, submit_job_cases,
}
use astrum_weaver.Control.Repository.Accounting.{IsBooked}
use astrum_weaver.Control.Repository.Calls.{
  Call, register, set_state, heartbeat, expire_workers, submit, claim, complete, fail, cancel,
  recover_jobs, step, run, IsValidCall, IsValidHistory, IsNew, run-keeps,
}
use astrum_weaver.Control.Repository.Books.{step-IsBooked, new-IsBooked}
use astrum_weaver.Control.Repository.Ownership.Apart.{IsExclusive}
use astrum_weaver.Control.Repository.Ownership.{
  register-IsExclusive, set_state-IsExclusive, heartbeat-IsExclusive, claim-IsExclusive,
  released-IsExclusive, recover-IsExclusive, expire-IsExclusive,
}

pub record IsSafe (s : Repository) : Type 0 where
  pub booked : IsBooked s
  pub exclusive : IsExclusive s.workers

freed-IsExclusive :
    (j : JobRecord) (workers : Dict WorkerRecord)
    → IsExclusive workers
    → IsExclusive (freed_by_cancel j workers)
unfolding freed_by_cancel
freed-IsExclusive j workers x = elim (Bool-cases (is_running j.status)) [
  | inl e ↦ rw e (released-IsExclusive j.assigned_worker_id workers x)
  | inr e ↦ rw e x
]

step-IsExclusive :
    (s : Repository) (c : Call)
    → IsBooked s
    → IsExclusive s.workers
    → IsExclusive (step s c).workers
unfolding step expire_stale_workers recover_expired_jobs enqueue
step-IsExclusive s (register registration now) b x = register-IsExclusive s b registration now x
step-IsExclusive s (set_state id state now) b x = set_state-IsExclusive s b id state now x
step-IsExclusive s (heartbeat id beat now) b x = heartbeat-IsExclusive s b id beat now x
step-IsExclusive s (expire_workers now) b x =
    expire-IsExclusive _ s.workers s (Pending-start s.workers b.members) x
step-IsExclusive s (submit submission key now) b x =
    submit_job_cases (λ r. IsExclusive r.1.workers) submission key now s (λ id e. x) (λ e. x)
step-IsExclusive s (claim id token now) b x = claim-IsExclusive s b id token now x
step-IsExclusive s (complete key result id token now) b x =
    complete_job_cases (λ r. IsExclusive r.1.workers) key result id token now s (λ e. x)
      (λ j found runs. released-IsExclusive (some id) s.workers x)
step-IsExclusive s (fail key error retryable id token now) b x =
    fail_job_cases (λ r. IsExclusive r.1.workers) key error retryable id token now s (λ e. x)
      (λ j found runs. released-IsExclusive (some id) s.workers x)
step-IsExclusive s (cancel key now) b x =
    cancel_job_cases (λ r. IsExclusive r.1.workers) key now s (λ e. x) (λ j found ended. x)
      (λ j found open'. freed-IsExclusive j s.workers x)
step-IsExclusive s (recover_jobs now) b x = recover-IsExclusive now s.jobs s x

step-IsSafe : (s : Repository) (c : Call) → IsValidCall s c → IsSafe s → IsSafe (step s c)
step-IsSafe s c v h = record {
  booked = step-IsBooked s c v h.booked;
  exclusive = step-IsExclusive s c h.booked h.exclusive;
}

pub new-IsSafe : (s : Repository) → IsNew s → IsSafe s
unfolding get
new-IsSafe s n = record {
  booked = new-IsBooked s n;
  exclusive = rw (n.0) (record { apart = λ a c v w ga gc ne ov ow. absurd (cc) });
}

pub run-IsSafe :
    (s : Repository) (cs : List Call) → IsNew s → IsValidHistory s cs → IsSafe (run s cs)
run-IsSafe s cs n v = run-keeps IsSafe step-IsSafe s cs v (new-IsSafe s n)

-- After any calls on a new repository, with fresh identities for new jobs, no two workers that own
-- resources (not offline, or with running jobs) have a GPU in common.
pub run-IsExclusive :
    (s : Repository) (cs : List Call)
    → IsNew s
    → IsValidHistory s cs
    → IsExclusive (run s cs).workers
run-IsExclusive s cs n v = (run-IsSafe s cs n v).exclusive

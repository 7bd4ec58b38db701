-- ===== src/Control/Repository/Claims.antt =====
-- What a claim gives: the best eligible job, whenever the worker may take one and there is one.
use astrum_weaver.Prelude.{
  ℕ, ◌+◌, ◌-◌, ◌≤◌, ◌<◌, String, ◌≡◌, refl, ◌⊎◌, inl, inr, true, false, none, some, List, [], ◌∷◌,
  arith, ltb,
}
use astrum_weaver.Dict.{get}
use astrum_weaver.Control.Models.{WorkerRecord, JobRecord, is_online}
use astrum_weaver.Control.Repository.State.{Repository, worker_ttl, lease_time}
use astrum_weaver.Control.Repository.Workers.{with_worker}
use astrum_weaver.Control.Repository.Jobs.{
  with_job, claim_first, eligible, sort_eligible, claim_next_job,
}
use astrum_weaver.Control.Repository.Jobs.Updates.{claimed}
use astrum_weaver.Control.Repository.Cases.{get_worker-eq}
use astrum_weaver.Control.Repository.Accounting.{IsBooked}
use astrum_weaver.Control.Repository.Selection.{IsChoice, choice, sort-eq-nil}
use astrum_weaver.Result.{ok}

-- The worker may take a job: it is known, was seen in time, is online and has a free slot.
pub record IsReady (s : Repository) (id : String) (now : ℕ) (w : WorkerRecord) : Type 0 where
  pub known : get id s.workers ≡ some w
  pub seen : now - w.last_seen_at ≤ worker_ttl s
  pub on : is_online w.state ≡ true
  pub room : w.active_jobs < w.max_concurrency

-- The repository after `j` is handed to the worker.
abbrev pub taken : Repository → String → String → ℕ → WorkerRecord → JobRecord → Repository
taken s id token now w j =
    with_worker id (record w { active_jobs = w.active_jobs + 1 })
      (with_job j.job_id (claimed j id token now (now + lease_time s)) s)

may_claim :
    (s : Repository) (now : ℕ) (w : WorkerRecord)
    → now - w.last_seen_at ≤ worker_ttl s
    → ltb (worker_ttl s) (now - w.last_seen_at) ≡ false
may_claim s now w h = ground (arith, h)

ready-claim :
    (s : Repository) (id token : String) (now : ℕ) (w : WorkerRecord)
    → IsReady s id now w
    → claim_next_job id token now s
      ≡ claim_first id token now w (sort_eligible (eligible s w.spec now)) s
unfolding claim_next_job
ready-claim s id token now w r =
    rw (get_worker-eq s id r.known, claim_next_job)
      (rw (may_claim s now w r.seen, r.on) (ground (arith, r.room)))

-- The two outcomes of a claim by a worker that may take a job.
abbrev pub ClaimOutcome : Repository → String → String → ℕ → WorkerRecord → Type 0
ClaimOutcome s id token now w =
    ((eligible s w.spec now ≡ []) × (claim_next_job id token now s ≡ (ok none, s)))
    ⊎ ((j : JobRecord) × IsChoice s w.spec now j
        × (claim_next_job id token now s
            ≡ (ok (some (claimed j id token now (now + lease_time s))), taken s id token now w j)))

claim_first-outcome :
    (s : Repository) (id token : String) (now : ℕ) (w : WorkerRecord) (sorted : List JobRecord)
    → IsBooked s
    → sort_eligible (eligible s w.spec now) ≡ sorted
    → claim_next_job id token now s ≡ claim_first id token now w sorted s
    → ClaimOutcome s id token now w
unfolding claim_first claimed
claim_first-outcome s id token now w [] b e h = inl (sort-eq-nil _ e, h)
claim_first-outcome s id token now w (j ∷ rest) b e h = inr (j, choice s w.spec now j rest b e, h)

-- A worker that is known, was seen within its time to live, is online and has a free slot gets
-- nothing only if no job is eligible; otherwise it gets a stored eligible job that no other eligible
-- job precedes by priority and then by number, running, with one more attempt, the given token and
-- a full lease, and one slot of the worker is taken.
pub claim_next_job-outcome :
    (s : Repository) (id token : String) (now : ℕ) (w : WorkerRecord)
    → IsBooked s
    → IsReady s id now w
    → ClaimOutcome s id token now w
claim_next_job-outcome s id token now w b r =
    claim_first-outcome s id token now w (sort_eligible (eligible s w.spec now)) b refl
      (ready-claim s id token now w r)

-- ===== src/Control/Repository/Accounting.antt =====
-- The books of the repository: the stored jobs are well formed, and every worker's `active_jobs` is
-- the number of running jobs that are assigned to it, within its `max_concurrency`.
use astrum_weaver.Prelude.{
  ℕ, ◌+◌, ◌-◌, ◌≤◌, ◌<◌, String, ◌≡◌, refl, subst, ap, ◌∙◌, false, Option, none, some, arith, ◌==◌,
  eq_iff, eq_refl, bit, Bool-cases, Option-cases, inl, inr,
}
use astrum_weaver.Dict.{Dict, get, put, count, Entries, IsDict}
use astrum_weaver.Dict.Laws.{
  get-put, count-put_new, count-put_old, count_pos, Entries-put, Entries-mono, IsDict-put,
}
use astrum_weaver.Control.Models.{WorkerRecord, JobRecord, running, is_running}
use astrum_weaver.Control.Repository.State.{
  Repository, is_held_by, active_job_count, release_worker_capacity,
}
use astrum_weaver.Control.Repository.Lifecycle.{IsJob}

-- What the books say of one worker that `n` running jobs are assigned to.
abbrev pub Account : String → ℕ → Option WorkerRecord → Type 0
Account id n none = n ≡ 0
Account id n (some w) =
    (w.worker_id ≡ id) × (w.active_jobs ≡ n) × (w.active_jobs ≤ w.max_concurrency)

pub record IsBooked (s : Repository) : Type 0 where
  pub distinct : IsDict s.jobs
  pub members : IsDict s.workers
  pub jobs : Entries (IsJob s.sequence) s.jobs
  pub accounts : (id : String) → Account id (active_job_count s id) (get id s.workers)

module _ (workers : Dict WorkerRecord) (id : String) (w : WorkerRecord) (n m : String → ℕ) where
  -- Writing one worker settles its own account, and leaves the others.
  pub Account-put :
      ((k : String) → Account k (n k) (get k workers))
      → Account id (m id) (some w)
      → ((k : String) → (id == k) ≡ false → m k ≡ n k)
      → (k : String) → Account k (m k) (get k (put id w workers))
  Account-put books own others k = elim (Bool-cases (id == k)) [
    | inl e ↦
        rw (get-put id k w workers, e)
          (subst (λ x. Account x (m x) (some w)) ((eq_iff id k).0 e) own)
    | inr e ↦ rw (get-put id k w workers, e, others k e) (books k)
  ]

pub held-running :
    (id : String) (j : JobRecord)
    → j.status ≡ running
    → j.assigned_worker_id ≡ some id
    → (k : String) → is_held_by k j ≡ (id == k)
unfolding is_held_by
held-running id j r a k = rw (r, a)

pub not-held : (j : JobRecord) → is_running j.status ≡ false → (k : String) → is_held_by k j ≡ false
unfolding is_held_by
not-held j r k = rw r

module _ (s : Repository) (b : IsBooked s) where
  pub Account-of :
      (id : String) (w : WorkerRecord)
      → get id s.workers ≡ some w
      → Account id (active_job_count s id) (some w)
  Account-of id w e = subst (Account id (active_job_count s id)) e (b.accounts id)

  -- A running job has a worker, with a slot in use.
  pub worker_of :
      (key : String) (j : JobRecord) (id : String)
      → get key s.jobs ≡ some j
      → j.status ≡ running
      → j.assigned_worker_id ≡ some id
      → (w : WorkerRecord) × (get id s.workers ≡ some w) × (1 ≤ w.active_jobs)
  unfolding active_job_count
  worker_of key j id found r a =
      let pos =
        count_pos (is_held_by id) key j s.jobs found (held-running id j r a id ∙ eq_refl id) in
      elim (Option-cases (get id s.workers)) [
        | inl e ↦
            absurd (omega (arith, subst (Account id (active_job_count s id)) e (b.accounts id)))
        | inr (w, e) ↦ (w, e, omega (arith, Account-of id w e))
      ]

  module _ (key : String) (j j' : JobRecord) (found : get key s.jobs ≡ some j) where
    -- A job that stays with its worker, or without one, changes no count.
    pub replaced-IsBooked :
        IsJob s.sequence key j'
        → ((k : String) → is_held_by k j' ≡ is_held_by k j)
        → IsBooked (record s { jobs = put key j' s.jobs })
    unfolding active_job_count
    replaced-IsBooked ok' same = record {
      distinct = IsDict-put s.jobs key j' b.distinct;
      members = b.members;
      jobs = Entries-put (IsJob s.sequence) s.jobs key j' b.jobs ok';
      accounts = λ k.
          subst (λ n. Account k n (get k s.workers))
            (omega (arith, count-put_old (is_held_by k) key j' j s.jobs found, ap bit (same k)))
            (b.accounts k);
    }

    settled_count :
        (id : String)
        → j.status ≡ running
        → j.assigned_worker_id ≡ some id
        → is_running j'.status ≡ false
        → (k : String)
        → count (is_held_by k) (put key j' s.jobs) + bit (id == k) ≡ count (is_held_by k) s.jobs
    settled_count id r a idle k =
        let c = count-put_old (is_held_by k) key j' j s.jobs found in
        omega (arith, c, ap bit (held-running id j r a k), ap bit (not-held j' idle k))

    -- A held job that is settled gives its worker one slot back.
    pub settled-IsBooked :
        (id : String)
        → j.status ≡ running
        → j.assigned_worker_id ≡ some id
        → IsJob s.sequence key j'
        → is_running j'.status ≡ false
        → IsBooked (record s {
          jobs = put key j' s.jobs;
          workers = release_worker_capacity (some id) s.workers;
        })
    unfolding active_job_count release_worker_capacity
    settled-IsBooked id r a ok' idle =
        let (w, e, slots) = worker_of key j id found r a in
        let fewer = settled_count id r a idle in
        record {
          distinct = IsDict-put s.jobs key j' b.distinct;
          members = rw e (IsDict-put s.workers id _ b.members);
          jobs = Entries-put (IsJob s.sequence) s.jobs key j' b.jobs ok';
          accounts = rw e (
              Account-put s.workers id (record w { active_jobs = w.active_jobs - 1 })
                (active_job_count s) (λ k. count (is_held_by k) (put key j' s.jobs)) b.accounts
                (let own = Account-of id w e in
                  (
                    own.0,
                    omega (arith, own, fewer id, ap bit (eq_refl id), slots),
                    omega (arith, own),
                  ))
                (λ k other. omega (arith, fewer k, ap bit other)));
        }

  -- A queued job that a worker with room takes uses one slot of it.
  pub claimed-IsBooked :
      (key : String) (j j' : JobRecord) (id : String) (w : WorkerRecord)
      → get key s.jobs ≡ some j
      → is_running j.status ≡ false
      → get id s.workers ≡ some w
      → w.active_jobs < w.max_concurrency
      → j'.status ≡ running
      → j'.assigned_worker_id ≡ some id
      → IsJob s.sequence key j'
      → IsBooked (record s {
        jobs = put key j' s.jobs;
        workers = put id (record w { active_jobs = w.active_jobs + 1 }) s.workers;
      })
  unfolding active_job_count
  claimed-IsBooked key j j' id w found idle known room r a ok' = record {
    distinct = IsDict-put s.jobs key j' b.distinct;
    members = IsDict-put s.workers id _ b.members;
    jobs = Entries-put (IsJob s.sequence) s.jobs key j' b.jobs ok';
    accounts =
        Account-put s.workers id (record w { active_jobs = w.active_jobs + 1 }) (active_job_count s)
          (λ k. count (is_held_by k) (put key j' s.jobs)) b.accounts
          (let own = Account-of id w known in
            (own.0, omega (arith, own, more id, ap bit (eq_refl id)), omega (arith, room)))
          (λ k other. omega (arith, more k, ap bit other));
  }
    where
      more :
          (k : String)
          → count (is_held_by k) (put key j' s.jobs) ≡ count (is_held_by k) s.jobs + bit (id == k)
      more k = omega (
        arith,
        count-put_old (is_held_by k) key j' j s.jobs found,
        ap bit (held-running id j' r a k),
        ap bit (not-held j idle k),
      )

  -- A new job in the queue.
  pub enqueued-IsBooked :
      (key : String) (j' : JobRecord) (memory : Dict String)
      → get key s.jobs ≡ none
      → is_running j'.status ≡ false
      → IsJob (s.sequence + 1) key j'
      → IsBooked
          (record s { jobs = put key j' s.jobs; idempotency = memory; sequence = s.sequence + 1 })
  unfolding active_job_count
  enqueued-IsBooked key j' memory new idle ok' = record {
    distinct = IsDict-put s.jobs key j' b.distinct;
    members = b.members;
    jobs =
        Entries-put (IsJob (s.sequence + 1)) s.jobs key j'
          (Entries-mono (IsJob s.sequence) (IsJob (s.sequence + 1)) s.jobs
            (λ k j h. record { keyed = h.keyed; numbered = omega arith; fits = h.fits }) b.jobs)
          ok';
    accounts = λ k.
        subst (λ n. Account k n (get k s.workers))
          (omega
            (arith, count-put_new (is_held_by k) key j' s.jobs new, ap bit (not-held j' idle k)))
          (b.accounts k);
  }

  -- Writing a worker whose account is right.
  pub with_worker-IsBooked :
      (id : String) (w : WorkerRecord)
      → Account id (active_job_count s id) (some w)
      → IsBooked (record s { workers = put id w s.workers })
  unfolding active_job_count
  with_worker-IsBooked id w own = record {
    distinct = b.distinct;
    members = IsDict-put s.workers id w b.members;
    jobs = b.jobs;
    accounts =
        Account-put s.workers id w (active_job_count s) (active_job_count s) b.accounts own
          (λ k other. refl);
  }

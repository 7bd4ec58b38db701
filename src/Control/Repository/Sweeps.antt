-- ===== src/Control/Repository/Sweeps.antt =====
-- The two loops of the repository, `expire_stale_workers` and `recover_expired_jobs`, against what
-- they do to each entry: a loop that writes into the dictionary it has copied is a map.
use mathlib.Core.Option
use astrum_weaver.Prelude.{
  ℕ, ◌-◌, String, ◌≡◌, refl, sym, ap, subst, ◌∙◌, true, false, Option, none, some, List, [], ◌∷◌,
  All, ◌==◌, eq_iff, Bool-cases, inl, inr, if◌then◌else◌, map, select,
}
use astrum_weaver.Dict.{Dict, get, put, values, Entries}
use astrum_weaver.Dict.Laws.{get-put, Entries-get, Entries-IsDict}
use astrum_weaver.Dict.Loops.{Pending, Pending-start, Pending-put, Pending-skip}
use astrum_weaver.Control.Models.{WorkerRecord, JobRecord, offline}
use astrum_weaver.Control.Repository.State.{Repository, worker_ttl}
use astrum_weaver.Control.Repository.Workers.{expire, is_fresh, expire_stale_workers}
use astrum_weaver.Control.Repository.Jobs.{recover, is_expired, recover_expired_jobs}
use astrum_weaver.Control.Repository.Jobs.Updates.{recovered, failed_with}
use astrum_weaver.Control.Repository.Lifecycle.{IsJob}
use astrum_weaver.Control.Repository.Accounting.{IsBooked}

-- What recovery makes of one job.
abbrev pub swept : ℕ → JobRecord → JobRecord
swept now j = if is_expired now j then recovered j now else j

-- What expiry makes of one worker.
abbrev pub aged : ℕ → WorkerRecord → WorkerRecord
aged cutoff w = if is_fresh cutoff w then w else record w { state = offline }

-- A key that is still to come is changed by `f`; any other keeps its value.
abbrev upto : {V : Type 0} → (V → V) → Option V → Option V → Option V
upto f none stored = stored
upto f (some v) stored = some (f v)

swept-hit : (now : ℕ) (j : JobRecord) → is_expired now j ≡ true → swept now j ≡ recovered j now
swept-hit now j e = rw e

swept-miss : (now : ℕ) (j : JobRecord) → is_expired now j ≡ false → swept now j ≡ j
swept-miss now j e = rw e

aged-hit : (cutoff : ℕ) (w : WorkerRecord) → is_fresh cutoff w ≡ true → aged cutoff w ≡ w
aged-hit cutoff w e = rw e

aged-miss :
    (cutoff : ℕ) (w : WorkerRecord)
    → is_fresh cutoff w ≡ false
    → aged cutoff w ≡ record w { state = offline }
aged-miss cutoff w e = rw e

module _ {V : Type 0} (f : V → V) (k key : String) (v : V) (rest d : Dict V)
    (new : get k rest ≡ none) (stored : get k d ≡ some v) where
  at_key : (k == key) ≡ true → (get key rest ≡ none) × (get key d ≡ some v)
  at_key e =
      let p = (eq_iff k key).0 e in
      (subst (λ x. get x rest ≡ none) p new, subst (λ x. get x d ≡ some v) p stored)

  -- The round of `k`, if it writes.
  upto-write :
      upto f (get key rest) (get key (put k (f v) d)) ≡ upto f (get key ((k, v) ∷ rest)) (get key d)
  unfolding get
  upto-write = elim (Bool-cases (k == key)) [
    | inl e ↦ let (r, g) = at_key e in rw (get-put k key (f v) d, e, r)
    | inr e ↦ rw (get-put k key (f v) d, e)
  ]

  -- The round of `k`, if it skips.
  upto-skip :
      f v ≡ v → upto f (get key rest) (get key d) ≡ upto f (get key ((k, v) ∷ rest)) (get key d)
  unfolding get
  upto-skip same = elim (Bool-cases (k == key)) [
    | inl e ↦ let (r, g) = at_key e in rw (e, r, g, same)
    | inr e ↦ rw e
  ]

recover-get :
    (now : ℕ) (rest : Dict JobRecord) (s : Repository) (key : String)
    → Pending s.jobs rest
    → get key (recover now rest s).1.jobs ≡ upto (swept now) (get key rest) (get key s.jobs)
unfolding recover
recover-get now [] s key p = unfold get in refl
recover-get now ((k, j) ∷ rest) s key p = elim (Bool-cases (is_expired now j)) [
  | inl e ↦
      rw (e, recover)
        (recover-get now rest _ key (Pending-put s.jobs k j (recovered j now) rest p)
          ∙ (ap (λ x. upto (swept now) (get key rest) (get key (put k x s.jobs)))
                (sym (swept-hit now j e))
              ∙ upto-write (swept now) k key j rest s.jobs p.distinct.0 p.stored.0))
  | inr e ↦
      rw (e, recover)
        (recover-get now rest s key (Pending-skip s.jobs k j rest p)
          ∙ upto-skip (swept now) k key j rest s.jobs p.distinct.0 p.stored.0 (swept-miss now j e))
]

upto_self : {V : Type 0} (f : V → V) (o : Option V) → upto f o o ≡ Option.map f o
upto_self f none = refl
upto_self f (some v) = refl

-- After recovery each stored job is what it was, or, if it was running with a lease that has run
-- out, what `recovered` makes of it; no job is added or lost.
pub recover_expired_jobs-get :
    (now : ℕ) (s : Repository) (key : String)
    → IsBooked s
    → get key (recover_expired_jobs now s).1.jobs ≡ Option.map (swept now) (get key s.jobs)
unfolding recover_expired_jobs
recover_expired_jobs-get now s key b =
    recover-get now s.jobs s key (Pending-start s.jobs b.distinct)
    ∙ upto_self (swept now) (get key s.jobs)

expire-get :
    (cutoff : ℕ) (rest : Dict WorkerRecord) (s : Repository) (key : String)
    → Pending s.workers rest
    → get key (expire cutoff rest s).1.workers
      ≡ upto (aged cutoff) (get key rest) (get key s.workers)
unfolding expire
expire-get cutoff [] s key p = unfold get in refl
expire-get cutoff ((k, w) ∷ rest) s key p = elim (Bool-cases (is_fresh cutoff w)) [
  | inl e ↦
      rw (e, expire)
        (expire-get cutoff rest s key (Pending-skip s.workers k w rest p)
          ∙ upto-skip (aged cutoff) k key w rest s.workers p.distinct.0 p.stored.0
              (aged-hit cutoff w e))
  | inr e ↦
      rw (e, expire)
        (expire-get cutoff rest _ key
            (Pending-put s.workers k w (record w { state = offline }) rest p)
          ∙ (ap (λ x. upto (aged cutoff) (get key rest) (get key (put k x s.workers)))
                (sym (aged-miss cutoff w e))
              ∙ upto-write (aged cutoff) k key w rest s.workers p.distinct.0 p.stored.0))
]

-- After expiry each worker is as it was, except that it is offline if it was last seen before the
-- time to live.
pub expire_stale_workers-get :
    (now : ℕ) (s : Repository) (id : String)
    → IsBooked s
    → get id (expire_stale_workers now s).1.workers
      ≡ Option.map (aged (now - worker_ttl s)) (get id s.workers)
unfolding expire_stale_workers
expire_stale_workers-get now s id b =
    expire-get _ s.workers s id (Pending-start s.workers b.members)
    ∙ upto_self (aged (now - worker_ttl s)) (get id s.workers)

recover-returns :
    (now : ℕ) (rest : Dict JobRecord) (s : Repository)
    → (recover now rest s).0 ≡ map (λ j. recovered j now) (select (is_expired now) (values rest))
unfolding recover values
recover-returns now [] s = refl
recover-returns now ((k, j) ∷ rest) s = elim (Bool-cases (is_expired now j)) [
  | inl e ↦ rw (e, recover) (ap (λ l. recovered j now ∷ l) (recover-returns now rest _))
  | inr e ↦ rw (e, recover) (recover-returns now rest s)
]

recovered-job_id : (j : JobRecord) (now : ℕ) → (recovered j now).job_id ≡ j.job_id
unfolding recovered failed_with
recovered-job_id j now = refl

-- A recovered job is stored by recovery as it is returned.
recovered-stored :
    (now : ℕ) (s : Repository) (key : String) (j : JobRecord)
    → IsBooked s
    → get key s.jobs ≡ some j
    → is_expired now j ≡ true
    → get (recovered j now).job_id (recover_expired_jobs now s).1.jobs ≡ some (recovered j now)
recovered-stored now s key j b found e =
    let keyed = (Entries-get (IsJob s.sequence) s.jobs key j b.jobs found).keyed in
    subst (λ k. get k (recover_expired_jobs now s).1.jobs ≡ some (recovered j now))
      (sym (recovered-job_id j now ∙ keyed))
      (recover_expired_jobs-get now s key b
        ∙ (ap (Option.map (swept now)) found ∙ ap some (swept-hit now j e)))

every_stored :
    (now : ℕ) (s : Repository) (rest : Dict JobRecord)
    → IsBooked s
    → Entries (λ k j. get k s.jobs ≡ some j) rest
    → All
        (λ j. get j.job_id (recover_expired_jobs now s).1.jobs ≡ some j)
        (map (λ j. recovered j now) (select (is_expired now) (values rest)))
unfolding values
every_stored now s [] b found = tt
every_stored now s ((k, j) ∷ rest) b found = elim (Bool-cases (is_expired now j)) [
  | inl e ↦ rw e (recovered-stored now s k j b found.0 e, every_stored now s rest b found.1)
  | inr e ↦ rw e (every_stored now s rest b found.1)
]

same_ids :
    (now : ℕ) (js : List JobRecord)
    → map (λ j. j.job_id) (map (λ j. recovered j now) js) ≡ map (λ j. j.job_id) js
same_ids now [] = refl
same_ids now (j ∷ js) = rw (recovered-job_id j now, same_ids now js) refl

-- The jobs that recovery returns are those that were running with an expired lease, in the order of the
-- store, and each of them is stored under its identity exactly as it is returned.
pub recover_expired_jobs-returns :
    (now : ℕ) (s : Repository)
    → IsBooked s
    → let (jobs, s') = recover_expired_jobs now s in
      (map (λ j. j.job_id) jobs ≡ map (λ j. j.job_id) (select (is_expired now) (values s.jobs)))
      × All (λ j. get j.job_id s'.jobs ≡ some j) jobs
recover_expired_jobs-returns now s b =
    let returned : (recover_expired_jobs now s).0
        ≡ map (λ j. recovered j now) (select (is_expired now) (values s.jobs)) =
      unfold recover_expired_jobs in recover-returns now s.jobs s in
    rw returned (
      same_ids now (select (is_expired now) (values s.jobs)),
      every_stored now s s.jobs b (Entries-IsDict s.jobs b.distinct),
    )

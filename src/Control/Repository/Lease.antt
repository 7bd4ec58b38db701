-- ===== src/Control/Repository/Lease.antt =====
-- Who may settle or renew a job: the fencing of `_assert_running`.
use astrum_weaver.Prelude.{
  ℕ, ◌<◌, String, ◌≡◌, refl, ◌↔◌, false, not, ◌||◌, Option, none, some, arith,
}
use astrum_weaver.Text.{is_blank}
use astrum_weaver.Sets.{option_eq}
use astrum_weaver.Sets.Laws.{option_eq_iff}
use astrum_weaver.Control.Models.{running, JobRecord, is_running}
use astrum_weaver.Control.Repository.State.{assert_running, lease_is_over}
use astrum_weaver.Control.Repository.Lifecycle.{is_running-eq}
use astrum_weaver.Result.{
  ok, require, refuse, require-ok, refuse-ok, >>=-eq-ok, conflict, not_running, assigned_elsewhere,
  stale_token,
}

-- The worker holds the job by this token, and the lease has not run out.
pub record HoldsLease (job : JobRecord) (worker_id token : String) (now : ℕ) : Type 0 where
  pub runs : job.status ≡ running
  pub assigned : job.assigned_worker_id ≡ some worker_id
  pub named : is_blank token ≡ false
  pub fenced : job.lease_token ≡ some token
  pub deadline : ℕ
  pub expires : job.lease_expires_at ≡ some deadline
  pub in_time : now < deadline

not_over :
    (o : Option ℕ) (now : ℕ) → lease_is_over o now ≡ false → (t : ℕ) × (o ≡ some t) × (now < t)
unfolding lease_is_over
not_over none now h = absurd (cc)
not_over (some t) now h = (t, refl, ground (arith, h))

pub assert_running-holds :
    (j : JobRecord) (id token : String) (now : ℕ)
    → assert_running j id token now ≡ ok tt
    → HoldsLease j id token now
unfolding assert_running
assert_running-holds j id token now h =
    let (u, r, h₁) = >>=-eq-ok (require (is_running j.status) (conflict not_running)) _ h in
    let (v, a, h₂) =
      >>=-eq-ok (require (option_eq j.assigned_worker_id (some id)) (conflict assigned_elsewhere)) _
        h₁ in
    let (w, t, h₃) =
      >>=-eq-ok
        (refuse (is_blank token || not (option_eq j.lease_token (some token)))
          (conflict stale_token))
        _ h₂ in
    let t' = refuse-ok _ _ w t in
    let (d, e, l) = not_over j.lease_expires_at now (refuse-ok _ _ tt h₃) in
    record {
      runs = is_running-eq j.status (require-ok _ _ u r);
      assigned = (option_eq_iff j.assigned_worker_id id).0 (require-ok _ _ v a);
      named = ground (arith, t');
      fenced = (option_eq_iff j.lease_token token).0 (ground (arith, t'));
      deadline = d;
      expires = e;
      in_time = l;
    }

holds-assert_running :
    (j : JobRecord) (id token : String) (now : ℕ)
    → HoldsLease j id token now
    → assert_running j id token now ≡ ok tt
unfolding assert_running
holds-assert_running j id token now h =
    rw
      (
        h.runs,
        (option_eq_iff j.assigned_worker_id id).1 h.assigned,
        h.named,
        (option_eq_iff j.lease_token token).1 h.fenced,
        h.expires,
      )
      (ground (arith, h.in_time))

-- The guard passes exactly for the holder of a live lease.
pub assert_running_iff :
    (j : JobRecord) (id token : String) (now : ℕ)
    → (assert_running j id token now ≡ ok tt) ↔ HoldsLease j id token now
assert_running_iff j id token now =
    (assert_running-holds j id token now, holds-assert_running j id token now)

-- ===== src/Worker/Mode/Handover.antt =====
-- What a handover of worker/mode.py has seen before it returns, and before it starts or stops the
-- service.
use astrum_weaver.Prelude.{
  ℕ, zero, suc, String, ◌≡◌, refl, ap, ◌∙◌, Bool, true, false, Option, some, List, [], ◌∷◌, nat_eq,
  ◌⊎◌, inl, inr,
}
use astrum_weaver.Worker.Run.{Run, call, when, continue, continue-eq-ok, raise-ne-ok}
use astrum_weaver.Worker.Mode.{
  GpuProcess, ModeReport, Machine, over, after_look, wait_until, wait, report, ready,
  drain_and_stop, unless_busy, release_gpu, drain_service, to_development, start_service, take_gpu,
  await_existing, take_existing, switch_from, to_astrumweaver,
}
use astrum_weaver.Result.{Result, ok, err, Method, if_cases}

busy-free :
    {W A : Type 0} (busy : List GpuProcess) (message : String) (next : Run W A) {w w' : W} {a : A}
    → unless_busy busy message next w ≡ some (ok a, w')
    → (busy ≡ []) × (next w ≡ some (ok a, w'))
unfolding unless_busy
busy-free [] message next h = (refl, h)
busy-free (p ∷ ps) message next h = absurd (raise-ne-ok _ h)

pub called :
    {W A : Type 0} (m : Method W A) {w w1 : W} {a : A}
    → call m w ≡ some (ok a, w1)
    → m w ≡ (ok a, w1)
called m h = cc

module _ {W : Type 0} (machine : Machine W) (interval fuel : ℕ) where
  -- A development machine: the service was seen inactive, then the GPUs' identity was confirmed, then
  -- no process held one, and the report followed at once.
  pub record IsReleased (out : ModeReport) (w' : W) : Type 0 where
    pub before : W
    pub inactive : W
    pub confirmed : W
    pub free : W
    pub saw_inactive : machine.is_active before ≡ (ok false, inactive)
    pub saw_identity : machine.require_exact_identity inactive ≡ (ok tt, confirmed)
    pub saw_free : machine.active_processes confirmed ≡ (ok [], free)
    pub reported : report machine interval fuel free ≡ some (ok out, w')

  released :
      (w2 w3 : W) (still : Bool) (w' : W) (out : ModeReport)
      → machine.is_active w2 ≡ (ok still, w3)
      → release_gpu machine interval fuel still w3 ≡ some (ok out, w')
      → IsReleased out w'
  unfolding release_gpu
  released w2 w3 true w' out e h = absurd (raise-ne-ok _ h)
  released w2 w3 false w' out e h =
      let (u, (w4, (e4, h4))) = continue-eq-ok (call machine.require_exact_identity w3) _ h in
      let (busy, (w5, (e5, h5))) = continue-eq-ok (call machine.active_processes w4) _ h4 in
      let (free, h6) = busy-free busy _ (report machine interval fuel) h5 in
      record {
        before = w2;
        inactive = w3;
        confirmed = w4;
        free = w5;
        saw_inactive = e;
        saw_identity = called machine.require_exact_identity e4;
        saw_free = called machine.active_processes e5 ∙ ap (λ b. (ok b, w5)) free;
        reported = h6;
      }

  -- Where to_development returns, the service was seen inactive, then the GPUs' identity confirmed,
  -- then no process seen on them, and the report was made directly after.
  pub to_development-IsReleased :
      (timeout : Option ℕ) (w w' : W) (out : ModeReport)
      → to_development machine interval fuel timeout w ≡ some (ok out, w')
      → IsReleased out w'
  unfolding to_development release_gpu
  to_development-IsReleased timeout w w' out h =
      let (active, (w1, (e1, h1))) = continue-eq-ok (call machine.is_active w) _ h in
      let (u, (w2, (e2, h2))) =
        continue-eq-ok (when active (drain_service machine interval fuel timeout) w1) _ h1 in
      let (still, (w3, (e3, h3))) =
        continue-eq-ok (call machine.is_active w2) (release_gpu machine interval fuel) h2 in
      released w2 w3 still w' out (called machine.is_active e3) h3

  after_look-ok :
      (deadline : Option ℕ) (description : String) (later : W → Option (Result (Unit {0}) × W))
      (seen : Result Bool × W) (w' : W)
      → after_look machine interval fuel deadline description later seen ≡ some (ok tt, w')
      → (seen ≡ (ok true, w')) ⊎ ((v : W) × (later v ≡ some (ok tt, w')))
  unfolding after_look
  after_look-ok deadline description later (err e, w) w' h = absurd (raise-ne-ok e h)
  after_look-ok deadline description later (ok true, w) w' h = inl (cc)
  after_look-ok deadline description later (ok false, w) w' h =
      if_cases
        (λ o.
          o ≡ some (ok tt, w')
          → (◌≡◌ {A = Result Bool × W} (ok false, w) (ok true, w'))
            ⊎ ((v : W) × (later v ≡ some (ok tt, w'))))
        (over deadline (machine.clock w)) (λ e k. absurd (raise-ne-ok _ k)) (λ e k. inr (w, k)) h

  -- A looked-for state was seen where the wait for it passed.
  wait_until-seen :
      (n : ℕ) (deadline : Option ℕ) (description : String) (predicate : Method W Bool) (w w' : W)
      → wait_until machine interval fuel n deadline description predicate w ≡ some (ok tt, w')
      → (v : W) × (predicate v ≡ (ok true, w'))
  unfolding wait_until
  wait_until-seen zero deadline description predicate w w' h = absurd (cc (h))
  wait_until-seen (suc n) deadline description predicate w w' h =
      elim (after_look-ok deadline description _ (predicate w) w' h) [
        | inl e ↦ (w, e)
        | inr (v, k) ↦
            wait_until-seen n deadline description predicate (machine.sleep interval v) w' k
      ]

  pub wait-seen :
      (timeout : Option ℕ) (description : String) (predicate : Method W Bool) (w w' : W)
      → wait machine interval fuel timeout description predicate w ≡ some (ok tt, w')
      → (v : W) × (predicate v ≡ (ok true, w'))
  unfolding wait
  wait-seen timeout description predicate w w' h =
      wait_until-seen fuel _ description predicate w w' h

  -- A machine at work: a snapshot said that the Worker is ready, and the report followed at once.
  pub record IsAtWork (out : ModeReport) (w' : W) : Type 0 where
    pub before : W
    pub after : W
    pub saw_ready : ready machine interval fuel before ≡ (ok true, after)
    pub reported : report machine interval fuel after ≡ some (ok out, w')

  at_work :
      (timeout : Option ℕ) (description : String) (w w' : W) (out : ModeReport)
      → continue
          (wait machine interval fuel timeout description (ready machine interval fuel) w)
          (λ u. report machine interval fuel)
        ≡ some (ok out, w')
      → IsAtWork out w'
  at_work timeout description w w' out h =
      let (u, (w1, (e1, h1))) = continue-eq-ok _ _ h in
      let (v, e) = wait-seen timeout description (ready machine interval fuel) w w1 e1 in
      record { before = v; after = w1; saw_ready = e; reported = h1 }

  start_service-IsAtWork :
      (timeout : ℕ) (w w' : W) (out : ModeReport)
      → start_service machine interval fuel timeout w ≡ some (ok out, w')
      → IsAtWork out w'
  unfolding start_service
  start_service-IsAtWork timeout w w' out h =
      let (u, (w1, (e1, h1))) = continue-eq-ok (call machine.start w) _ h in
      let (v, (w2, (e2, h2))) =
        continue-eq-ok
          (wait machine interval fuel (some timeout) "Worker service activation" machine.is_active
            w1)
          _ h1 in
      at_work (some timeout) "Worker readiness" w2 w' out h2

  take_gpu-IsAtWork :
      (timeout : ℕ) (w w' : W) (out : ModeReport)
      → take_gpu machine interval fuel timeout w ≡ some (ok out, w')
      → IsAtWork out w'
  unfolding take_gpu
  take_gpu-IsAtWork timeout w w' out h =
      let (u, (w1, (e1, h1))) = continue-eq-ok (call machine.require_exact_identity w) _ h in
      let (busy, (w2, (e2, h2))) = continue-eq-ok (call machine.active_processes w1) _ h1 in
      start_service-IsAtWork timeout w2 w' out
        (busy-free busy _ (start_service machine interval fuel timeout) h2).1

  take_existing-IsAtWork :
      (timeout : ℕ) (drain : Option ℕ) (drains : Bool) (w w' : W) (out : ModeReport)
      → take_existing machine interval fuel timeout drain drains w ≡ some (ok out, w')
      → IsAtWork out w'
  unfolding take_existing await_existing
  take_existing-IsAtWork timeout drain false w w' out h =
      at_work (some timeout) "existing Worker readiness" w w' out h
  take_existing-IsAtWork timeout drain true w w' out h =
      let (u, (w1, (e1, h1))) =
        continue-eq-ok (drain_and_stop machine interval fuel drain "existing Worker drain" w) _ h in
      take_gpu-IsAtWork timeout w1 w' out h1

  switch_from-IsAtWork :
      (timeout : ℕ) (drain : Option ℕ) (active : Bool) (w w' : W) (out : ModeReport)
      → switch_from machine interval fuel timeout drain active w ≡ some (ok out, w')
      → IsAtWork out w'
  unfolding switch_from
  switch_from-IsAtWork timeout drain false w w' out h = take_gpu-IsAtWork timeout w w' out h
  switch_from-IsAtWork timeout drain true w w' out h =
      let (s, (w1, (e1, h1))) = continue-eq-ok (call machine.snapshot w) _ h in
      take_existing-IsAtWork timeout drain _ w1 w' out h1

  -- Where to_astrumweaver returns, a snapshot of the Worker said that it is ready, and the report was
  -- made directly after.
  pub to_astrumweaver-IsAtWork :
      (timeout : ℕ) (drain : Option ℕ) (w w' : W) (out : ModeReport)
      → to_astrumweaver machine interval fuel timeout drain w ≡ some (ok out, w')
      → IsAtWork out w'
  unfolding to_astrumweaver
  to_astrumweaver-IsAtWork timeout drain w w' out =
      if_cases (λ (m : Run W ModeReport). m w ≡ some (ok out, w') → IsAtWork out w')
        (nat_eq timeout 0) (λ e h. absurd (raise-ne-ok _ h))
        λ e h.
          let (active, (w1, (e1, h1))) =
            continue-eq-ok (call machine.is_active w)
              (switch_from machine interval fuel timeout drain) h in
          switch_from-IsAtWork timeout drain active w1 w' out h1

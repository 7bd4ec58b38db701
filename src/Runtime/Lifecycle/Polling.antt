-- ===== src/Runtime/Lifecycle/Polling.antt =====
-- The loops of the life cycle end, and end with what they wait for.
use astrum_weaver.Prelude.{
  ℕ, zero, suc, ◌+◌, ◌≤◌, ◌<◌, ◌≡◌, refl, Bool, true, false, Option, none, some, arith, leb, nat_eq,
  subst, ◌||◌, ◌&&◌, not,
}
use astrum_weaver.Runtime.Lifecycle.{
  RuntimeHealth, ManagedRuntime, Manager, Verdict, finish, fails, waits, ready_verdict,
  stop_verdict, first_verdict, poll, readied, await_ready, ensure_ready, await_stopped,
  stop_runtime, release_after, ensure_stopped, is_failed, is_stopped,
}
use astrum_weaver.Result.{Error, Result, ok, err, if_cases}

-- Probes never turn the clock back, and a sleep of the interval moves it on.
pub record IsTimed {W : Type 0} (rt : ManagedRuntime W) (interval : ℕ) : Type 0 where
  pub probes : (w : W) → rt.clock w ≤ rt.clock (rt.health w).1
  pub sleeps : (w : W) → rt.clock w < rt.clock (rt.sleep interval w)

ready_verdict-over :
    (r : Result RuntimeHealth) (over : Bool) → ready_verdict r over ≡ waits → over ≡ false
unfolding ready_verdict
ready_verdict-over (err e) over = λ h. absurd (cc h)
ready_verdict-over (ok health) over =
    if_cases (λ v. v ≡ waits → over ≡ false) health.is_ready (λ _ h. absurd (cc h))
      λ _.
        if_cases (λ v. v ≡ waits → over ≡ false) (is_failed health.state) (λ _ h. absurd (cc h))
          λ _. if_cases (λ v. v ≡ waits → over ≡ false) over (λ _ h. absurd (cc h)) (λ e _. e)

finish-parts : {h k : RuntimeHealth} → finish h ≡ finish k → h ≡ k
finish-parts e = cc e

ready_verdict-finish :
    (r : Result RuntimeHealth) (over : Bool) (h : RuntimeHealth)
    → ready_verdict r over ≡ finish h
    → h.is_ready ≡ true
unfolding ready_verdict
ready_verdict-finish (err e) over h = λ v. absurd (cc v)
ready_verdict-finish (ok health) over h =
    if_cases (λ v. v ≡ finish h → h.is_ready ≡ true) health.is_ready (λ r v. cc (finish-parts v, r))
      λ _.
        if_cases (λ v. v ≡ finish h → h.is_ready ≡ true) (is_failed health.state)
          (λ _ v. absurd (cc v))
          λ _.
            if_cases (λ v. v ≡ finish h → h.is_ready ≡ true) over (λ _ v. absurd (cc v))
              (λ _ v. absurd (cc v))

stop_verdict-over :
    (r : Result RuntimeHealth) (over : Bool) → stop_verdict r over ≡ waits → over ≡ false
unfolding stop_verdict
stop_verdict-over (err e) over = λ h. absurd (cc h)
stop_verdict-over (ok health) over =
    if_cases (λ v. v ≡ waits → over ≡ false) (is_stopped health.state) (λ _ h. absurd (cc h))
      λ _.
        if_cases (λ v. v ≡ waits → over ≡ false) (is_failed health.state) (λ _ h. absurd (cc h))
          λ _. if_cases (λ v. v ≡ waits → over ≡ false) over (λ _ h. absurd (cc h)) (λ e _. e)

stop_verdict-finish :
    (r : Result RuntimeHealth) (over : Bool) (h : RuntimeHealth)
    → stop_verdict r over ≡ finish h
    → is_stopped h.state ≡ true
unfolding stop_verdict
stop_verdict-finish (err e) over h = λ v. absurd (cc v)
stop_verdict-finish (ok health) over h =
    let P : Verdict → Type 0 = λ v. v ≡ finish h → is_stopped h.state ≡ true in
    if_cases P (is_stopped health.state)
      (λ r v. subst (λ (k : RuntimeHealth). is_stopped k.state ≡ true) (finish-parts v) r)
      λ _.
        if_cases P (is_failed health.state) (λ _ v. absurd (cc v))
          λ _. if_cases P over (λ _ v. absurd (cc v)) (λ _ v. absurd (cc v))

first_verdict-finish :
    (r : Result RuntimeHealth) (h : RuntimeHealth) → first_verdict r ≡ finish h → h.is_ready ≡ true
unfolding first_verdict
first_verdict-finish (err e) h = λ v. absurd (cc v)
first_verdict-finish (ok health) h =
    if_cases (λ v. v ≡ finish h → h.is_ready ≡ true) health.is_ready (λ r v. cc (finish-parts v, r))
      λ _.
        if_cases (λ v. v ≡ finish h → h.is_ready ≡ true) (is_failed health.state)
          (λ _ v. absurd (cc v)) (λ _ v. absurd (cc v))

-- The loop came to an end, and where it returned the health was what it waits for.
abbrev pub IsPolled :
    {W : Type 0} → (RuntimeHealth → Type 0) → Option (Result RuntimeHealth × W) → Type 0
IsPolled Good none = ⊥
IsPolled Good (some (ok h, w)) = Good h
IsPolled Good (some (err e, w)) = Unit

abbrev IsReady : RuntimeHealth → Type 0
IsReady h = h.is_ready ≡ true

abbrev IsStopped : RuntimeHealth → Type 0
IsStopped h = is_stopped h.state ≡ true

-- A call that came to an end: where it returned, the runtime was ready and is noted as not released; where
-- it raised, that note is as it was.
abbrev pub IsReadied : {W : Type 0} → Bool → Option (Result RuntimeHealth × Manager W) → Type 0
IsReadied before none = ⊥
IsReadied before (some (ok h, m)) = (h.is_ready ≡ true) × (m.released ≡ false)
IsReadied before (some (err e, m)) = m.released ≡ before

verdict_cases :
    {A : Type 0} (P : A → Type 0) (v : Verdict) {later : A} (done : RuntimeHealth → A)
    (raises : Error → A)
    → ((h : RuntimeHealth) → v ≡ finish h → P (done h))
    → ((e : Error) → P (raises e))
    → (v ≡ waits → P later)
    → P (elim v [ finish h ↦ done h | fails e ↦ raises e | waits ↦ later ])
verdict_cases P (finish h) done raises ended refused again = ended h refl
verdict_cases P (fails e) done raises ended refused again = refused e
verdict_cases P waits done raises ended refused again = again refl

module _ {W : Type 0} (rt : ManagedRuntime W) (interval : ℕ) (timed : IsTimed rt interval)
    (verdict : Result RuntimeHealth → Bool → Verdict) (Good : RuntimeHealth → Type 0)
    (over : (r : Result RuntimeHealth) (o : Bool) → verdict r o ≡ waits → o ≡ false)
    (good : (r : Result RuntimeHealth) (o : Bool) (h : RuntimeHealth)
      → verdict r o ≡ finish h
      → Good h) where
  poll-IsPolled :
      (fuel deadline : ℕ) (w : W)
      → deadline < rt.clock w + fuel
      → 1 ≤ fuel
      → IsPolled Good (poll rt verdict interval fuel deadline w)
  unfolding poll
  poll-IsPolled zero deadline w enough some' = absurd (omega (arith, some'))
  poll-IsPolled (suc fuel) deadline w enough some' =
      let w' = (rt.health w).1 in
      verdict_cases (IsPolled Good) (verdict (rt.health w).0 (leb deadline (rt.clock w')))
        (λ h. some (ok h, w')) (λ e. some (err e, w')) (λ h v. good (rt.health w).0 _ h v) (λ e. tt)
        λ v.
          let open' = over (rt.health w).0 _ v in
          let ahead : rt.clock w' < deadline = ground (arith, open') in
          poll-IsPolled fuel deadline (rt.sleep interval w')
            (omega (arith, enough, timed.probes w, timed.sleeps w'))
            (omega (arith, enough, ahead, timed.probes w))

polled-IsReadied :
    {W : Type 0} (rt : ManagedRuntime W) (m : Manager W) (out : Option (Result RuntimeHealth × W))
    → IsPolled IsReady out
    → IsReadied m.released (elim out [ none ↦ none | some o ↦ some (readied rt m o) ])
unfolding readied
polled-IsReadied rt m none p = p
polled-IsReadied rt m (some (ok h, w)) p = (p, refl)
polled-IsReadied rt m (some (err e, w)) p = refl

await_ready-IsReadied :
    {W : Type 0} (rt : ManagedRuntime W) (timeout : ℕ) (m : Manager W)
    (began : Result (Unit {0}) × W)
    → IsTimed rt m.poll_interval
    → IsReadied m.released (await_ready rt timeout m began)
unfolding await_ready
await_ready-IsReadied rt timeout m (err e, w) timed = refl
await_ready-IsReadied rt timeout m (ok u, w) timed = polled-IsReadied rt m _ (
    poll-IsPolled rt m.poll_interval timed ready_verdict IsReady ready_verdict-over
      ready_verdict-finish (timeout + 1) (rt.clock w + timeout) w (omega arith) (omega arith))

-- With a clock that probes do not turn back and sleeps move on, `ensure_ready` comes to an end: it returns
-- a health that is ready, and the runtime is noted as not released, or it raises and leaves that note.
pub ensure_ready-IsReadied :
    {W : Type 0} (rt : ManagedRuntime W) (timeout : ℕ) (m : Manager W)
    → IsTimed rt m.poll_interval
    → IsReadied m.released (ensure_ready rt timeout m)
unfolding ensure_ready readied
ensure_ready-IsReadied rt timeout m timed =
    if_cases (IsReadied m.released) (nat_eq timeout 0) (λ _. refl)
      λ _.
        verdict_cases (IsReadied m.released) (first_verdict (rt.health m.world).0)
          (λ h. some (readied rt m (ok h, (rt.health m.world).1)))
          (λ e. some (err e, record m { world = (rt.health m.world).1 }))
          (λ h v. (first_verdict-finish (rt.health m.world).0 h v, refl)) (λ e. refl)
          (λ v. await_ready-IsReadied rt timeout m _ timed)

-- A call that came to an end: where it returned, the runtime was stopped, and released if that was asked
-- for or had been done; where it raised, the note of a release is as it was.
abbrev pub IsDown : {W : Type 0} → Bool → Bool → Option (Result RuntimeHealth × Manager W) → Type 0
IsDown release before none = ⊥
IsDown release before (some (ok h, m)) =
    (is_stopped h.state ≡ true) × (m.released ≡ (release || before))
IsDown release before (some (err e, m)) = m.released ≡ before

await_stopped-IsPolled :
    {W : Type 0} (rt : ManagedRuntime W) (timeout : ℕ) (m : Manager W)
    (began : Result (Unit {0}) × W)
    → IsTimed rt m.poll_interval
    → IsPolled IsStopped (await_stopped rt timeout m began)
unfolding await_stopped
await_stopped-IsPolled rt timeout m (err e, w) timed = tt
await_stopped-IsPolled rt timeout m (ok u, w) timed =
    poll-IsPolled rt m.poll_interval timed stop_verdict IsStopped stop_verdict-over
      stop_verdict-finish (timeout + 1) (rt.clock w + timeout) w (omega arith) (omega arith)

stop_runtime-IsPolled :
    {W : Type 0} (rt : ManagedRuntime W) (timeout : ℕ) (m : Manager W)
    (probed : Result RuntimeHealth × W)
    → IsTimed rt m.poll_interval
    → IsPolled IsStopped (stop_runtime rt timeout m probed)
unfolding stop_runtime
stop_runtime-IsPolled rt timeout m (err e, w) timed = tt
stop_runtime-IsPolled rt timeout m (ok h, w) timed =
    if_cases (IsPolled IsStopped) (is_stopped h.state) (λ e. e)
      (λ _. await_stopped-IsPolled rt timeout m (rt.stop w) timed)

released-IsDown :
    {W : Type 0} (release : Bool) (m : Manager W) (h : RuntimeHealth)
    → is_stopped h.state ≡ true
    → (release && not m.released) ≡ true
    → (out : Result (Unit {0}) × W)
    → IsDown {W = W} release m.released (
        some (elim out.0 [
          | err e ↦ (err e, record m { world = out.1 })
          | ok u ↦ (ok h, record m { world = out.1; released = true })
        ]))
released-IsDown release m h down b (err e, w) = refl
released-IsDown release m h down b (ok u, w) = (down, ground (arith, b))

release_after-IsDown :
    {W : Type 0} (rt : ManagedRuntime W) (release : Bool) (m : Manager W)
    (out : Option (Result RuntimeHealth × W))
    → IsPolled IsStopped out
    → IsDown release m.released
        (elim out [ none ↦ none | some o ↦ some (release_after rt release m o) ])
unfolding release_after
release_after-IsDown {W} rt release m none p = p
release_after-IsDown {W} rt release m (some (err e, w)) p = refl
release_after-IsDown {W} rt release m (some (ok h, w)) p =
    if_cases (λ (x : Result RuntimeHealth × Manager W). IsDown {W = W} release m.released (some x))
      (release && not m.released) (λ b. released-IsDown release m h p b (rt.release w))
      (λ b. (p, ground (arith, b)))

-- With a clock that probes do not turn back and sleeps move on, `ensure_stopped` comes to an end: it
-- returns a health that is stopped, and the runtime is released if that was asked for or had been done,
-- or it raises and leaves the note of a release as it was.
pub ensure_stopped-IsDown :
    {W : Type 0} (rt : ManagedRuntime W) (timeout : ℕ) (release : Bool) (m : Manager W)
    → IsTimed rt m.poll_interval
    → IsDown release m.released (ensure_stopped rt timeout release m)
unfolding ensure_stopped
ensure_stopped-IsDown rt timeout release m timed =
    if_cases (IsDown release m.released) (nat_eq timeout 0) (λ _. refl)
      (λ _.
        release_after-IsDown rt release m (stop_runtime rt timeout m (rt.health m.world))
          (stop_runtime-IsPolled rt timeout m (rt.health m.world) timed))

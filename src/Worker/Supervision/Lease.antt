-- ===== src/Worker/Supervision/Lease.antt =====
-- A monitor is available only on the strength of a recent probe.
use astrum_weaver.Prelude.{
  ℕ, ◌+◌, ◌<◌, ◌-◌, String, ◌≡◌, refl, Bool, true, false, List, [], ◌∷◌, Within, ◌⊎◌, inl, inr, ◌≢◌,
  arith, not, ◌&&◌, ◌||◌, if◌then◌else◌, nat_eq, leb,
}
use astrum_weaver.Worker.Supervision.{
  Monitor, new_monitor, Probe, is_ready, not_ready, invalid, broken, timed_out, fail, expire_health,
  is_available, available, may_count, judge, finish_check, close, Event, begins, answers, is_asked,
  monitor_stops, closes, step, after,
}
use astrum_weaver.Result.{if_cases}

-- The health lease, if there is one, was given by a probe that answered ready.
pub record IsBacked (i t : ℕ) (past : List Event) (m : Monitor) : Type 0 where
  pub paced : (m.interval ≡ i) × (m.timeout ≡ t)
  pub backing :
      (m.valid_until ≡ 0)
      ⊎ ((started answered : ℕ) × Within (answers started is_ready answered) past
          × (m.valid_until ≡ started + i + t))

module _ (i t : ℕ) (past : List Event) where
  fail-IsBacked :
      (text : String) (m : Monitor) → IsBacked i t past m → IsBacked i t past (fail text m)
  unfolding fail
  fail-IsBacked text m b =
      if_cases (IsBacked i t past) (m.failed || m.closed) (λ _. b)
        (λ _. record { paced = b.paced; backing = inl refl })

  expire_health-IsBacked :
      (now : ℕ) (m : Monitor) → IsBacked i t past m → IsBacked i t past (expire_health now m)
  unfolding expire_health
  expire_health-IsBacked now m b =
      if_cases (IsBacked i t past) (not (nat_eq m.valid_until 0) && leb m.valid_until now)
        (λ _. fail-IsBacked "health_stale" m b) (λ _. b)

  may_count-IsBacked :
      (now : ℕ) (m : Monitor) → IsBacked i t past m → IsBacked i t past (may_count now m).1
  unfolding may_count available
  may_count-IsBacked now m b =
      if_cases (λ (x : Bool × Monitor). IsBacked i t past x.1) (m.closed || m.failed) (λ _. b)
        λ _.
          if_cases (λ (x : Bool × Monitor). IsBacked i t past x.1) (nat_eq m.valid_until 0) (λ _. b)
            (λ _. expire_health-IsBacked now m b)

  judge-IsBacked :
      (started : ℕ) (answer : Probe) (now : ℕ) (m : Monitor)
      → Within (answers started answer now) past
      → IsBacked i t past m
      → IsBacked i t past (judge started answer now m)
  unfolding judge
  judge-IsBacked started timed_out now m here b = fail-IsBacked "health_timeout" m b
  judge-IsBacked started broken now m here b = fail-IsBacked "health_exception" m b
  judge-IsBacked started is_ready now m here b =
      if_cases (IsBacked i t past) (leb m.timeout (now - started))
        (λ _. fail-IsBacked "health_timeout" m b)
        λ _. record {
          paced = b.paced;
          backing = inr (started, now, here, omega (arith, b.paced.0, b.paced.1));
        }
  judge-IsBacked started not_ready now m here b =
      if_cases (IsBacked i t past) (leb m.timeout (now - started))
        (λ _. fail-IsBacked "health_timeout" m b) (λ _. fail-IsBacked "health_not_ready" m b)
  judge-IsBacked started invalid now m here b =
      if_cases (IsBacked i t past) (leb m.timeout (now - started))
        (λ _. fail-IsBacked "health_timeout" m b) (λ _. fail-IsBacked "health_invalid" m b)

  -- An answer that is no timeout and no exception counts only where the monitor still allows it.
  counted-IsBacked :
      (started : ℕ) (answer : Probe) (now : ℕ) (m : Monitor)
      → Within (answers started answer now) past
      → IsBacked i t past m
      → IsBacked i t past
          (let (counts, m') = may_count now m in
            if counts then available now (judge started answer now m') else (false, m')).1
  unfolding available
  counted-IsBacked started answer now m here b =
      let kept = may_count-IsBacked now m b in
      if_cases (λ (x : Bool × Monitor). IsBacked i t past x.1) (may_count now m).0
        (λ _.
          expire_health-IsBacked now (judge started answer now (may_count now m).1)
            (judge-IsBacked started answer now (may_count now m).1 here kept))
        (λ _. kept)

  finish_check-IsBacked :
      (started : ℕ) (answer : Probe) (now : ℕ) (m : Monitor)
      → Within (answers started answer now) past
      → IsBacked i t past m
      → IsBacked i t past (finish_check started answer now m).1
  unfolding finish_check available
  finish_check-IsBacked started timed_out now m here b =
      expire_health-IsBacked now _ (judge-IsBacked started timed_out now m here b)
  finish_check-IsBacked started broken now m here b =
      expire_health-IsBacked now _ (judge-IsBacked started broken now m here b)
  finish_check-IsBacked started is_ready now m here b =
      counted-IsBacked started is_ready now m here b
  finish_check-IsBacked started not_ready now m here b =
      counted-IsBacked started not_ready now m here b
  finish_check-IsBacked started invalid now m here b = counted-IsBacked started invalid now m here b

  step-IsBacked :
      (m : Monitor) (e : Event) → Within e past → IsBacked i t past m → IsBacked i t past (step m e)
  unfolding step close available
  step-IsBacked m (begins now) here b = may_count-IsBacked now m b
  step-IsBacked m (answers started answer now) here b =
      finish_check-IsBacked started answer now m here b
  step-IsBacked m (is_asked now) here b = expire_health-IsBacked now m b
  step-IsBacked m monitor_stops here b = fail-IsBacked "monitor_stopped" m b
  step-IsBacked m closes here b = record { paced = b.paced; backing = inl refl }

-- More events take no backing away.
IsBacked-later :
    (i t : ℕ) (e : Event) (past : List Event) (m : Monitor)
    → IsBacked i t past m
    → IsBacked i t (e ∷ past) m
IsBacked-later i t e past m b = record {
  paced = b.paced;
  backing = elim b.backing [
    | inl h ↦ inl h
    | inr (started, answered, here, same) ↦ inr (started, answered, inr here, same)
  ];
}

after-IsBacked : (i t : ℕ) (past : List Event) → IsBacked i t past (after (new_monitor i t) past)
unfolding after new_monitor
after-IsBacked i t [] = record { paced = (refl, refl); backing = inl refl }
after-IsBacked i t (e ∷ past) =
    step-IsBacked i t (e ∷ past) (after (new_monitor i t) past) e (inl refl)
      (IsBacked-later i t e past (after (new_monitor i t) past) (after-IsBacked i t past))

lease-ahead :
    (now : ℕ) (m : Monitor)
    → (available now m).0 ≡ true
    → (now < m.valid_until) × (m.valid_until ≢ 0)
unfolding available expire_health is_available fail
lease-ahead now m h = ground (arith, h)

-- A monitor that says it is available has had a probe that answered ready, and that began less than
-- the interval and the timeout together before now.
pub available-recent :
    (i t : ℕ) (past : List Event) (now : ℕ)
    → (available now (after (new_monitor i t) past)).0 ≡ true
    → (started answered : ℕ) × Within (answers started is_ready answered) past
      × (now < started + i + t)
available-recent i t past now h =
    let (ahead, given) = lease-ahead now (after (new_monitor i t) past) h in
    elim (after-IsBacked i t past).backing [
      | inl e ↦ absurd (given e)
      | inr (started, answered, here, same) ↦ (started, answered, here, omega (arith, ahead, same))
    ]

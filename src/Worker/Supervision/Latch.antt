-- ===== src/Worker/Supervision/Latch.antt =====
-- A failure of the monitor is latched.
use astrum_weaver.Prelude.{
  ℕ, String, ◌≡◌, refl, Bool, true, false, Option, List, [], ◌∷◌, arith, not, ◌&&◌, ◌||◌, nat_eq,
  leb, subst, sym,
}
use astrum_weaver.Worker.Supervision.{
  Monitor, Probe, is_ready, not_ready, invalid, broken, timed_out, fail, expire_health,
  is_available, available, may_count, judge, finish_check, close, Event, begins, answers, is_asked,
  monitor_stops, closes, step, after,
}
use astrum_weaver.Result.{if_cases}

-- A failed monitor, with the reason that it keeps.
pub record IsLatched (reason : Option String) (m : Monitor) : Type 0 where
  pub failed : m.failed ≡ true
  pub kept : m.failure_reason ≡ reason

module _ (m : Monitor) (failed : m.failed ≡ true) where
  fail-failed : (text : String) → fail text m ≡ m
  unfolding fail
  fail-failed text = rw failed

  expire_health-failed : (now : ℕ) → expire_health now m ≡ m
  unfolding expire_health
  expire_health-failed now =
      if_cases (λ x. x ≡ m) (not (nat_eq m.valid_until 0) && leb m.valid_until now)
        (λ _. fail-failed "health_stale") (λ _. refl)

  is_available-failed : is_available m ≡ false
  unfolding is_available
  is_available-failed = ground (arith, failed)

  available-failed : (now : ℕ) → available now m ≡ (false, m)
  unfolding available
  available-failed now = rw (expire_health-failed now, is_available-failed)

  may_count-failed : (now : ℕ) → may_count now m ≡ (false, m)
  unfolding may_count
  may_count-failed now =
      if_cases (λ x. x ≡ (false, m)) (m.closed || m.failed) (λ _. refl)
        (λ h. absurd (ground (arith, h, failed)))

  finish_check-failed :
      (started : ℕ) (answer : Probe) (now : ℕ) → finish_check started answer now m ≡ (false, m)
  unfolding finish_check judge
  finish_check-failed started timed_out now =
      rw (fail-failed "health_timeout") (available-failed now)
  finish_check-failed started broken now =
      rw (fail-failed "health_exception") (available-failed now)
  finish_check-failed started is_ready now = rw (may_count-failed now)
  finish_check-failed started not_ready now = rw (may_count-failed now)
  finish_check-failed started invalid now = rw (may_count-failed now)

step-IsLatched :
    (reason : Option String) (m : Monitor) (e : Event)
    → IsLatched reason m
    → IsLatched reason (step m e)
unfolding step close
step-IsLatched reason m (begins now) l =
    subst (λ (r : Bool × Monitor). IsLatched reason r.1) (sym (may_count-failed m l.failed now)) l
step-IsLatched reason m (answers started answer now) l =
    subst (λ (r : Bool × Monitor). IsLatched reason r.1)
      (sym (finish_check-failed m l.failed started answer now)) l
step-IsLatched reason m (is_asked now) l =
    subst (λ (r : Bool × Monitor). IsLatched reason r.1) (sym (available-failed m l.failed now)) l
step-IsLatched reason m monitor_stops l =
    subst (IsLatched reason) (sym (fail-failed m l.failed "monitor_stopped")) l
step-IsLatched reason m closes l = record { failed = l.failed; kept = l.kept }

after-IsLatched :
    (reason : Option String) (m : Monitor) (past : List Event)
    → IsLatched reason m
    → IsLatched reason (after m past)
unfolding after
after-IsLatched reason m [] l = l
after-IsLatched reason m (e ∷ past) l =
    step-IsLatched reason (after m past) e (after-IsLatched reason m past l)

-- A failed monitor is never available again, whatever happens to it, also if a probe that was under way
-- succeeds late; it stays failed and keeps its first reason.
pub available-after :
    (reason : Option String) (m : Monitor) (past : List Event) (now : ℕ)
    → IsLatched reason m
    → (available now (after m past) ≡ (false, after m past)) × IsLatched reason (after m past)
available-after reason m past now l =
    let later = after-IsLatched reason m past l in
    (available-failed (after m past) later.failed now, later)

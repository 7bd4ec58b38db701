-- ===== src/Worker/Mode/Ending.antt =====
-- A handover with timeouts comes to an end.
use astrum_weaver.Prelude.{
  ℕ, zero, suc, ◌+◌, ◌≤◌, ◌<◌, String, ◌≡◌, refl, Bool, true, false, Option, some, List, [], ◌∷◌,
  nat_eq, leb, arith,
}
use astrum_weaver.Value.{Mapping}
use astrum_weaver.Worker.Run.{Run, call, when, continue, Ends, continue-Ends}
use astrum_weaver.Worker.Mode.{
  GpuProcess, ModeReport, Machine, after_look, wait_until, wait, report, snapshot_if, drained,
  ready, seen, inactive_or_drained, drain_and_stop, unless_busy, release_gpu, drain_service,
  to_development, start_service, take_gpu, await_existing, take_existing, switch_from,
  to_astrumweaver,
}
use astrum_weaver.Result.{Result, ok, err, Method, if_cases}

unless_busy-Ends :
    {W A : Type 0} (busy : List GpuProcess) (message : String) (next : Run W A) (w : W)
    → ((v : W) → Ends (next v))
    → Ends (unless_busy busy message next w)
unfolding unless_busy
unless_busy-Ends [] message next w ends = ends w
unless_busy-Ends (p ∷ ps) message next w ends = tt

when-Ends :
    {W : Type 0} (b : Bool) (m : Run W (Unit {0})) (w : W)
    → ((v : W) → Ends (m v))
    → Ends (when b m w)
when-Ends true m w ends = ends w
when-Ends false m w ends = tt

-- Looks do not turn the clock back, and a sleep moves it on.
pub record IsTimely {W : Type 0} (machine : Machine W) (interval : ℕ) : Type 0 where
  pub active_later : (w : W) → machine.clock w ≤ machine.clock (machine.is_active w).1
  pub snapshot_later : (w : W) → machine.clock w ≤ machine.clock (machine.snapshot w).1
  pub sleep_later : (w : W) → machine.clock w < machine.clock (machine.sleep interval w)

module _ {W : Type 0} (machine : Machine W) (interval fuel : ℕ)
    (timely : IsTimely machine interval) where
  seen_clock :
      (test : Option Mapping → Bool) (r : Result (Option Mapping) × W)
      → machine.clock (seen test r).1 ≡ machine.clock r.1
  seen_clock test (err e, w) = refl
  seen_clock test (ok s, w) = refl

  ready_later : (w : W) → machine.clock w ≤ machine.clock (ready machine interval fuel w).1
  unfolding ready
  ready_later w = omega (arith, seen_clock _ (machine.snapshot w), timely.snapshot_later w)

  either_later :
      (r : Result Bool × W)
      → machine.clock r.1 ≤ machine.clock (inactive_or_drained machine interval fuel r).1
  either_later (err e, w) = omega arith
  either_later (ok false, w) = omega arith
  either_later (ok true, w) =
      omega (arith, seen_clock _ (machine.snapshot w), timely.snapshot_later w)

  drained_later : (w : W) → machine.clock w ≤ machine.clock (drained machine interval fuel w).1
  unfolding drained
  drained_later w = omega (arith, either_later (machine.is_active w), timely.active_later w)

  after_look-Ends :
      (deadline : ℕ) (description : String) (later : W → Option (Result (Unit {0}) × W))
      (r : Result Bool × W)
      → (machine.clock r.1 < deadline → Ends (later r.1))
      → Ends (after_look machine interval fuel (some deadline) description later r)
  unfolding after_look
  after_look-Ends deadline description later (err e, w) h = tt
  after_look-Ends deadline description later (ok true, w) h = tt
  after_look-Ends deadline description later (ok false, w) h =
      if_cases Ends (leb deadline (machine.clock w)) (λ e. tt) (λ e. h (ground (arith, e)))

  wait_until-Ends :
      (n deadline : ℕ) (description : String) (predicate : Method W Bool) (w : W)
      → ((v : W) → machine.clock v ≤ machine.clock (predicate v).1)
      → deadline ≤ n + machine.clock w
      → Ends (wait_until machine interval fuel (suc n) (some deadline) description predicate w)
  unfolding wait_until
  wait_until-Ends zero deadline description predicate w later h =
      after_look-Ends deadline description _ (predicate w) (λ k. absurd (omega (arith, later w)))
  wait_until-Ends (suc n) deadline description predicate w later h =
      after_look-Ends deadline description _ (predicate w) λ k.
        wait_until-Ends n deadline description predicate (machine.sleep interval (predicate w).1)
          later (omega (arith, later w, timely.sleep_later (predicate w).1))

  enough :
      (k timeout : ℕ) (description : String) (predicate : Method W Bool) (w : W)
      → ((v : W) → machine.clock v ≤ machine.clock (predicate v).1)
      → timeout < k
      → Ends (
          wait_until machine interval fuel k
            (some (machine.clock w + timeout))
            description
            predicate
            w)
  enough zero timeout description predicate w later h = elim h [ ]
  enough (suc n) timeout description predicate w later h =
      wait_until-Ends n (machine.clock w + timeout) description predicate w later (omega arith)

  wait-Ends :
      (timeout : ℕ) (description : String) (predicate : Method W Bool) (w : W)
      → ((v : W) → machine.clock v ≤ machine.clock (predicate v).1)
      → timeout < fuel
      → Ends (wait machine interval fuel (some timeout) description predicate w)
  unfolding wait
  wait-Ends timeout description predicate w later h =
      enough fuel timeout description predicate w later h

  snapshot_if-Ends : (active : Bool) (w : W) → Ends (snapshot_if machine interval fuel active w)
  unfolding snapshot_if
  snapshot_if-Ends true w = tt
  snapshot_if-Ends false w = tt

  report-Ends : (w : W) → Ends (report machine interval fuel w)
  unfolding report
  report-Ends w = continue-Ends (call machine.is_active w) _ tt λ active w1 e1.
      continue-Ends (snapshot_if machine interval fuel active w1) _ (snapshot_if-Ends active w1)
        λ s w2 e2. continue-Ends (call machine.active_processes w2) _ tt (λ ps w3 e3. tt)

  release_gpu-Ends : (still : Bool) (w : W) → Ends (release_gpu machine interval fuel still w)
  unfolding release_gpu
  release_gpu-Ends true w = tt
  release_gpu-Ends false w = continue-Ends (call machine.require_exact_identity w) _ tt λ u w1 e1.
      continue-Ends (call machine.active_processes w1) _ tt
        λ busy w2 e2. unless_busy-Ends busy _ (report machine interval fuel) w2 report-Ends

  drain_and_stop-Ends :
      (timeout : ℕ) (description : String) (w : W)
      → timeout < fuel
      → Ends (drain_and_stop machine interval fuel (some timeout) description w)
  unfolding drain_and_stop
  drain_and_stop-Ends timeout description w h =
      continue-Ends
        (wait machine interval fuel (some timeout) description (drained machine interval fuel) w) _
        (wait-Ends timeout description (drained machine interval fuel) w drained_later h)
        λ u w1 e1.
          continue-Ends (call machine.is_active w1) _ tt
            λ active w2 e2. when-Ends active (call machine.stop) w2 (λ v. tt)

  drain_service-Ends :
      (timeout : ℕ) (w : W)
      → timeout < fuel
      → Ends (drain_service machine interval fuel (some timeout) w)
  unfolding drain_service
  drain_service-Ends timeout w h =
      continue-Ends (call machine.request_drain w) _ tt
        λ u w1 e1. drain_and_stop-Ends timeout "Worker drain" w1 h

  to_development-Ends :
      (timeout : ℕ) (w : W)
      → timeout < fuel
      → Ends (to_development machine interval fuel (some timeout) w)
  unfolding to_development
  to_development-Ends timeout w h = continue-Ends (call machine.is_active w) _ tt λ active w1 e1.
      continue-Ends (when active (drain_service machine interval fuel (some timeout)) w1) _
        (when-Ends active (drain_service machine interval fuel (some timeout)) w1
          (λ v. drain_service-Ends timeout v h))
        λ u w2 e2.
          continue-Ends (call machine.is_active w2) (release_gpu machine interval fuel) tt
            (λ still w3 e3. release_gpu-Ends still w3)

  ready_and_report :
      (timeout : ℕ) (description : String) (w : W)
      → timeout < fuel
      → Ends (
          continue
            (wait machine interval fuel (some timeout) description (ready machine interval fuel) w)
            (λ u. report machine interval fuel))
  ready_and_report timeout description w h =
      continue-Ends
        (wait machine interval fuel (some timeout) description (ready machine interval fuel) w) _
        (wait-Ends timeout description (ready machine interval fuel) w ready_later h)
        (λ u w1 e1. report-Ends w1)

  start_service-Ends :
      (timeout : ℕ) (w : W) → timeout < fuel → Ends (start_service machine interval fuel timeout w)
  unfolding start_service
  start_service-Ends timeout w h = continue-Ends (call machine.start w) _ tt λ u w1 e1.
      continue-Ends
        (wait machine interval fuel (some timeout) "Worker service activation" machine.is_active w1)
        _ (wait-Ends timeout "Worker service activation" machine.is_active w1 timely.active_later h)
        λ v w2 e2. ready_and_report timeout "Worker readiness" w2 h

  take_gpu-Ends :
      (timeout : ℕ) (w : W) → timeout < fuel → Ends (take_gpu machine interval fuel timeout w)
  unfolding take_gpu
  take_gpu-Ends timeout w h = continue-Ends (call machine.require_exact_identity w) _ tt λ u w1 e1.
      continue-Ends (call machine.active_processes w1) _ tt λ busy w2 e2.
        unless_busy-Ends busy _ (start_service machine interval fuel timeout) w2
          (λ v. start_service-Ends timeout v h)

  take_existing-Ends :
      (timeout drain : ℕ) (drains : Bool) (w : W)
      → timeout < fuel
      → drain < fuel
      → Ends (take_existing machine interval fuel timeout (some drain) drains w)
  unfolding take_existing await_existing
  take_existing-Ends timeout drain false w h k =
      ready_and_report timeout "existing Worker readiness" w h
  take_existing-Ends timeout drain true w h k =
      continue-Ends (drain_and_stop machine interval fuel (some drain) "existing Worker drain" w) _
        (drain_and_stop-Ends drain "existing Worker drain" w k)
        (λ u w1 e1. take_gpu-Ends timeout w1 h)

  switch_from-Ends :
      (timeout drain : ℕ) (active : Bool) (w : W)
      → timeout < fuel
      → drain < fuel
      → Ends (switch_from machine interval fuel timeout (some drain) active w)
  unfolding switch_from
  switch_from-Ends timeout drain false w h k = take_gpu-Ends timeout w h
  switch_from-Ends timeout drain true w h k =
      continue-Ends (call machine.snapshot w) _ tt
        (λ s w1 e1. take_existing-Ends timeout drain _ w1 h k)

  to_astrumweaver-Ends :
      (timeout drain : ℕ) (w : W)
      → timeout < fuel
      → drain < fuel
      → Ends (to_astrumweaver machine interval fuel timeout (some drain) w)
  unfolding to_astrumweaver
  to_astrumweaver-Ends timeout drain w h k =
      if_cases (λ (m : Run W ModeReport). Ends (m w)) (nat_eq timeout 0) (λ e. tt)
        λ e.
          continue-Ends (call machine.is_active w)
            (switch_from machine interval fuel timeout (some drain)) tt
            (λ active w1 e1. switch_from-Ends timeout drain active w1 h k)

  -- If looks do not turn the clock back and a sleep moves it on, then with a timeout for the drain and
  -- one for the start both handovers come to an end: each returns a report or raises within as many
  -- looks of a wait as its timeouts have microseconds, and one.
  pub handover-Ends :
      (timeout drain : ℕ) (w : W)
      → timeout < fuel
      → drain < fuel
      → Ends (to_development machine interval fuel (some drain) w)
        × Ends (to_astrumweaver machine interval fuel timeout (some drain) w)
  handover-Ends timeout drain w h k =
      (to_development-Ends drain w k, to_astrumweaver-Ends timeout drain w h k)

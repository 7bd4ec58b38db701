-- ===== src/Runtime/Lifecycle.antt =====
-- runtime/lifecycle.py: bringing a managed runtime up and down. Times are microseconds; the event
-- loop's clock and `asyncio.sleep` are operations on the world, as are the calls of the runtime.
pub mod Polling
pub mod Witnesses
use astrum_weaver.Prelude.{
  ℕ, zero, suc, ◌+◌, Bool, true, false, ◌&&◌, not, Option, none, some, nat_eq, leb, if◌then◌else◌,
}
use astrum_weaver.Result.{Error, Result, ok, err, value_error, Method}

pub data RuntimeHealthState : Type 0 where
  stopped starting ready degraded failed : RuntimeHealthState

-- `RuntimeHealth`, without its details
pub record RuntimeHealth : Type 0 where
  pub state : RuntimeHealthState
  pub is_ready : Bool

-- The protocol `ManagedRuntime`, the clock and the sleep, on the world that they change.
pub record ManagedRuntime (W : Type 0) : Type 0 where
  pub health : Method W RuntimeHealth
  pub start : Method W (Unit {0})
  pub stop : Method W (Unit {0})
  pub release : Method W (Unit {0})
  pub clock : W → ℕ
  pub sleep : ℕ → W → W

-- `RuntimeLifecycleManager`, with the world of its runtime
pub record Manager (W : Type 0) : Type 0 where
  pub poll_interval : ℕ
  pub released : Bool
  pub world : W

-- `RuntimeLifecycleManager(...)`
unfoldable pub lifecycle_manager : {W : Type 0} → ℕ → W → Result (Manager W)
lifecycle_manager interval w =
    if nat_eq interval 0
    then err (value_error "poll_interval_seconds")
    else ok (record { poll_interval = interval; released = false; world = w })

-- What a loop does after a probe.
pub data Verdict : Type 0 where
  finish : RuntimeHealth → Verdict
  fails : Error → Verdict
  waits : Verdict

abbrev pub is_stopped : RuntimeHealthState → Bool
is_stopped stopped = true
is_stopped _ = false

abbrev pub is_failed : RuntimeHealthState → Bool
is_failed failed = true
is_failed _ = false

-- The tests in the loop of `ensure_ready`; `over` tells that the deadline is reached.
unfoldable pub ready_verdict : Result RuntimeHealth → Bool → Verdict
ready_verdict (err e) over = fails e
ready_verdict (ok h) over =
    if h.is_ready
    then finish h
    else if is_failed h.state
    then fails (value_error "failed while starting")
    else if over
    then fails (value_error "not ready before timeout")
    else waits

-- The tests in the loop of `ensure_stopped`.
unfoldable pub stop_verdict : Result RuntimeHealth → Bool → Verdict
stop_verdict (err e) over = fails e
stop_verdict (ok h) over =
    if is_stopped h.state
    then finish h
    else if is_failed h.state
    then fails (value_error "failed while stopping")
    else if over
    then fails (value_error "not stopped before timeout")
    else waits

-- The tests of `ensure_ready` before it starts the runtime.
unfoldable pub first_verdict : Result RuntimeHealth → Verdict
first_verdict (err e) = fails e
first_verdict (ok h) =
    if h.is_ready
    then finish h
    else if is_failed h.state
    then fails (value_error "failed before start")
    else waits

abbrev is_stopped_now : Result RuntimeHealth → Bool
is_stopped_now (ok h) = is_stopped h.state
is_stopped_now (err e) = false

module _ {W : Type 0} (rt : ManagedRuntime W) where
  -- A loop: probe, judge, sleep. It returns `none` only where the fuel is used up.
  unfoldable pub poll :
      (Result RuntimeHealth → Bool → Verdict) → ℕ → ℕ → ℕ → W → Option (Result RuntimeHealth × W)
  poll verdict interval zero deadline w = none
  poll verdict interval (suc fuel) deadline w =
      let (r, w') = rt.health w in
      let later = poll verdict interval fuel deadline (rt.sleep interval w') in
      elim (verdict r (leb deadline (rt.clock w'))) [
        | finish h ↦ some (ok h, w')
        | fails e ↦ some (err e, w')
        | waits ↦ later
      ]

  -- Give the world back, and where the runtime is ready note that it is not released.
  unfoldable pub readied : Manager W → Result RuntimeHealth × W → Result RuntimeHealth × Manager W
  readied m (ok h, w) = (ok h, record m { world = w; released = false })
  readied m (err e, w) = (err e, record m { world = w })

  -- The loop after the start; the deadline counts from there.
  unfoldable pub await_ready :
      ℕ → Manager W → Result (Unit {0}) × W → Option (Result RuntimeHealth × Manager W)
  unfolding poll ready_verdict readied
  await_ready timeout m (err e, w) = some (err e, record m { world = w })
  await_ready timeout m (ok u, w) =
      elim (poll ready_verdict m.poll_interval (timeout + 1) (rt.clock w + timeout) w) [
        | none ↦ none
        | some out ↦ some (readied m out)
      ]

  unfoldable pub start_if_stopped : Bool → W → Result (Unit {0}) × W
  start_if_stopped true w = rt.start w
  start_if_stopped false w = (ok tt, w)

  -- `ensure_ready(timeout_seconds=...)`
  unfoldable pub ensure_ready : ℕ → Manager W → Option (Result RuntimeHealth × Manager W)
  unfolding first_verdict await_ready start_if_stopped readied
  ensure_ready timeout m =
      if nat_eq timeout 0
      then some (err (value_error "timeout_seconds"), m)
      else (let (r, w) = rt.health m.world in
          elim (first_verdict r) [
            | finish h ↦ some (readied m (ok h, w))
            | fails e ↦ some (err e, record m { world = w })
            | waits ↦ await_ready timeout m (start_if_stopped (is_stopped_now r) w)
          ])

  -- The end of `ensure_stopped`: release, if that is asked for and not done.
  unfoldable pub release_after :
      Bool → Manager W → Result RuntimeHealth × W → Result RuntimeHealth × Manager W
  release_after release m (err e, w) = (err e, record m { world = w })
  release_after release m (ok h, w) =
      if release && not m.released
      then (let (r, w') = rt.release w in
          elim r [
            | err e ↦ (err e, record m { world = w' })
            | ok u ↦ (ok h, record m { world = w'; released = true })
          ])
      else (ok h, record m { world = w })

  -- The loop of `ensure_stopped` after the stop.
  unfoldable pub await_stopped :
      ℕ → Manager W → Result (Unit {0}) × W → Option (Result RuntimeHealth × W)
  unfolding poll stop_verdict
  await_stopped timeout m (err e, w) = some (err e, w)
  await_stopped timeout m (ok u, w) =
      poll stop_verdict m.poll_interval (timeout + 1) (rt.clock w + timeout) w

  -- The stop, where the runtime is not stopped yet.
  unfoldable pub stop_runtime :
      ℕ → Manager W → Result RuntimeHealth × W → Option (Result RuntimeHealth × W)
  unfolding await_stopped
  stop_runtime timeout m (err e, w) = some (err e, w)
  stop_runtime timeout m (ok h, w) =
      if is_stopped h.state then some (ok h, w) else await_stopped timeout m (rt.stop w)

  -- `ensure_stopped(timeout_seconds=..., release=...)`
  unfoldable pub ensure_stopped : ℕ → Bool → Manager W → Option (Result RuntimeHealth × Manager W)
  unfolding stop_runtime release_after
  ensure_stopped timeout release m =
      if nat_eq timeout 0
      then some (err (value_error "timeout_seconds"), m)
      else elim (stop_runtime timeout m (rt.health m.world)) [
        | none ↦ none
        | some out ↦ some (release_after release m out)
      ]

  -- `restart` once the runtime is down.
  unfoldable pub ready_again :
      ℕ → Option (Result RuntimeHealth × Manager W) → Option (Result RuntimeHealth × Manager W)
  ready_again timeout none = none
  ready_again timeout (some (err e, m)) = some (err e, m)
  ready_again timeout (some (ok h, m)) = ensure_ready timeout m

  unfoldable pub restart : ℕ → Manager W → Option (Result RuntimeHealth × Manager W)
  unfolding ready_again
  restart timeout m = ready_again timeout (ensure_stopped timeout false m)

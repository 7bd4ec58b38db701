-- ===== src/Worker/Supervision.antt =====
-- worker/supervision.py: the health monitor of an owned runtime. A probe is two steps, since other
-- tasks run while it waits; each step reads the clock once. Times are microseconds.
pub mod Latch
pub mod Lease
pub mod Witnesses
use astrum_weaver.Prelude.{
  ℕ, ◌+◌, ◌-◌, String, Bool, true, false, ◌&&◌, ◌||◌, not, Option, none, some, List, [], ◌∷◌,
  nat_eq, leb, if◌then◌else◌,
}

-- The fields of `RuntimeHealthSupervisor` that decide availability. `valid_until` is 0 where no probe
-- has succeeded; `failure_reason` is `_reason`.
pub record Monitor : Type 0 where
  pub interval : ℕ
  pub timeout : ℕ
  pub failed : Bool
  pub closed : Bool
  pub valid_until : ℕ
  pub failure_reason : Option String

-- How the runtime answers a probe; `timed_out` is the end of the budget, at any await.
pub data Probe : Type 0 where
  is_ready not_ready invalid broken timed_out : Probe

pub data MonitorState : Type 0 where
  stopped ready failing starting : MonitorState

-- A monitor of the given times that has not started.
unfoldable pub new_monitor : ℕ → ℕ → Monitor
new_monitor interval timeout = record {
  interval = interval;
  timeout = timeout;
  failed = false;
  closed = false;
  valid_until = 0;
  failure_reason = none;
}

-- `_fail`
unfoldable pub fail : String → Monitor → Monitor
fail reason m =
    if m.failed || m.closed
    then m
    else record m { failed = true; valid_until = 0; failure_reason = some reason }

-- The first test of `available`: a health lease that has run out is a failure.
unfoldable pub expire_health : ℕ → Monitor → Monitor
unfolding fail
expire_health now m =
    if not (nat_eq m.valid_until 0) && leb m.valid_until now then fail "health_stale" m else m

unfoldable pub is_available : Monitor → Bool
is_available m = not m.closed && not m.failed && not (nat_eq m.valid_until 0)

-- `available`, which may fail the monitor
unfoldable pub available : ℕ → Monitor → Bool × Monitor
unfolding expire_health is_available
available now m = let m' = expire_health now m in (is_available m', m')

unfoldable pub state : ℕ → Monitor → MonitorState × Monitor
unfolding available
state now m =
    if m.closed
    then (stopped, m)
    else (let (open', m') = available now m in
        ((if open' then ready else if m'.failed then failing else starting), m'))

-- The tests of `check` on both sides of the wait: may this probe count, and the monitor after them.
unfoldable pub may_count : ℕ → Monitor → Bool × Monitor
unfolding available
may_count now m =
    if m.closed || m.failed
    then (false, m)
    else if nat_eq m.valid_until 0
    then (true, m)
    else available now m

-- The tests on the answer of a probe that began at `started`.
unfoldable pub judge : ℕ → Probe → ℕ → Monitor → Monitor
unfolding fail
judge started timed_out now m = fail "health_timeout" m
judge started broken now m = fail "health_exception" m
judge started answer now m =
    if leb m.timeout (now - started) then fail "health_timeout" m else elim answer [
      | is_ready ↦ record m { valid_until = started + m.interval + m.timeout }
      | not_ready ↦ fail "health_not_ready" m
      | _ ↦ fail "health_invalid" m
    ]

-- The second half of `check`, from the answer on: what it returns, and the monitor.
unfoldable pub finish_check : ℕ → Probe → ℕ → Monitor → Bool × Monitor
unfolding may_count judge available
finish_check started timed_out now m = available now (judge started timed_out now m)
finish_check started broken now m = available now (judge started broken now m)
finish_check started answer now m =
    let (counts, m') = may_count now m in
    if counts then available now (judge started answer now m') else (false, m')

-- `close`
unfoldable pub close : Monitor → Monitor
close m = record m { closed = true; valid_until = 0 }

-- What may happen to a monitor, in the order of the event loop.
pub data Event : Type 0 where
  begins : ℕ → Event
  answers : ℕ → Probe → ℕ → Event
  is_asked : ℕ → Event
  monitor_stops : Event
  closes : Event

unfoldable pub step : Monitor → Event → Monitor
unfolding may_count finish_check available fail close
step m (begins now) = (may_count now m).1
step m (answers started answer now) = (finish_check started answer now m).1
step m (is_asked now) = (available now m).1
step m monitor_stops = fail "monitor_stopped" m
step m closes = close m

-- The monitor after events, the newest first.
unfoldable pub after : Monitor → List Event → Monitor
unfolding step
after m [] = m
after m (e ∷ past) = step (after m past) e

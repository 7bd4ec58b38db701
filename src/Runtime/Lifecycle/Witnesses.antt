-- ===== src/Runtime/Lifecycle/Witnesses.antt =====
-- The theorems on the life cycle, at a runtime that is ready when the clock has come far enough.
use astrum_weaver.Prelude.{ℕ, ◌+◌, true, false, leb, arith, if◌then◌else◌}
use astrum_weaver.Runtime.Lifecycle.{
  ManagedRuntime, Manager, ready, starting, ensure_ready, ensure_stopped,
}
use astrum_weaver.Runtime.Lifecycle.Polling.{
  IsTimed, IsReadied, ensure_ready-IsReadied, IsDown, ensure_stopped-IsDown,
}
use astrum_weaver.Result.{ok}

-- The world is the time.
abbrev slow_runtime : ManagedRuntime ℕ
slow_runtime = record {
  health = λ now. (
    ok (record { state = if leb 500000 now then ready else starting; is_ready = leb 500000 now }),
    now,
  );
  start = λ now. (ok tt, now + 1000);
  stop = λ now. (ok tt, now);
  release = λ now. (ok tt, now);
  clock = λ now. now;
  sleep = λ interval now. now + interval;
}

abbrev manager : Manager ℕ
manager = record { poll_interval = 250000; released = true; world = 0 }

slow_runtime-IsTimed : IsTimed slow_runtime 250000
slow_runtime-IsTimed = record { probes = λ w. omega arith; sleeps = λ w. omega arith }

ensure_ready-IsReadied_example : IsReadied true (ensure_ready slow_runtime 1000000 manager)
ensure_ready-IsReadied_example =
    ensure_ready-IsReadied slow_runtime 1000000 manager slow_runtime-IsTimed

ensure_stopped-IsDown_example :
    IsDown false true (ensure_stopped slow_runtime 1000000 false manager)
ensure_stopped-IsDown_example =
    ensure_stopped-IsDown slow_runtime 1000000 false manager slow_runtime-IsTimed

-- ===== src/Worker/Supervision/Witnesses.antt =====
-- The theorems on the monitor, at a short life of one.
use astrum_weaver.Prelude.{◌≡◌, ℕ, ◌+◌, ◌<◌, refl, true, false, some, List, [], ◌∷◌, Within}
use astrum_weaver.Worker.Supervision.{
  Monitor, new_monitor, is_ready, not_ready, available, Event, begins, answers, is_asked, after,
}
use astrum_weaver.Worker.Supervision.Latch.{IsLatched, available-after}
use astrum_weaver.Worker.Supervision.Lease.{available-recent}

abbrev life : List Event
life = is_asked 3000000 ∷ answers 1000000 is_ready 2000000 ∷ begins 1000000 ∷ []

abbrev failed_life : List Event
failed_life = answers 1000000 not_ready 2000000 ∷ begins 1000000 ∷ []

abbrev failed_monitor : Monitor
failed_monitor = after (new_monitor 1000000 5000000) failed_life

failed_monitor-IsLatched : IsLatched (some "health_not_ready") failed_monitor
unfolding after new_monitor
failed_monitor-IsLatched = record { failed = refl; kept = refl }

life-available : (available 4000000 (after (new_monitor 1000000 5000000) life)).0 ≡ true
unfolding after new_monitor
life-available = refl

available-after_example :
    (available 4000000 (after failed_monitor life) ≡ (false, after failed_monitor life))
    × IsLatched (some "health_not_ready") (after failed_monitor life)
available-after_example =
    available-after (some "health_not_ready") failed_monitor life 4000000 failed_monitor-IsLatched

available-recent_example :
    (started answered : ℕ) × Within (answers started is_ready answered) life
    × (4000000 < started + 1000000 + 5000000)
available-recent_example = available-recent 1000000 5000000 life 4000000 life-available

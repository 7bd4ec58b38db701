-- ===== src/Worker/Mode/Guards.antt =====
-- When a handover starts and stops the service: what any predicate has to bear to hold throughout.
pub mod Waits
use astrum_weaver.Prelude.{[], ℕ, String, ◌≡◌, Bool, true, false, Option, some, nat_eq, ◌∙◌, ap}
use astrum_weaver.Worker.Run.{Run, call, when, continue, Leaves, continue-Leaves}
use astrum_weaver.Worker.Mode.{
  ModeReport, Machine, wait, report, drained, ready, drain_and_stop, release_gpu, drain_service,
  to_development, start_service, take_gpu, await_existing, take_existing, switch_from,
  to_astrumweaver,
}
use astrum_weaver.Worker.Mode.Handover.{wait-seen, called}
use astrum_weaver.Result.{ok, if_cases}
use astrum_weaver.Worker.Mode.Guards.Waits.{
  Tolerates, unless_busy-Leaves, when-Leaves, ready_kept, drained_kept, wait-Leaves, report-Leaves,
}

module _ {W : Type 0} (machine : Machine W) (interval fuel : ℕ) (P : W → Type 0)
    (keeps : Tolerates machine interval fuel P) where
  release_gpu-Leaves :
      (still : Bool) (w : W) → P w → Leaves P (release_gpu machine interval fuel still w)
  unfolding release_gpu
  release_gpu-Leaves true w p = p
  release_gpu-Leaves false w p =
      continue-Leaves P (call machine.require_exact_identity w) _ (keeps.identity w p) λ u w1 e1 p1.
        continue-Leaves P (call machine.active_processes w1) _ (keeps.processes w1 p1)
          λ busy w2 e2 p2.
            unless_busy-Leaves P busy _ (report machine interval fuel) w2 p2
              (λ free. report-Leaves machine interval fuel P keeps w2 p2)

  drain_and_stop-Leaves :
      (timeout : Option ℕ) (description : String) (w : W)
      → P w
      → Leaves P (drain_and_stop machine interval fuel timeout description w)
  unfolding drain_and_stop
  drain_and_stop-Leaves timeout description w p =
      continue-Leaves P
        (wait machine interval fuel timeout description (drained machine interval fuel) w) _
        (wait-Leaves machine interval fuel P keeps timeout description
          (drained machine interval fuel) w (drained_kept machine interval fuel P keeps) p)
        λ u w1 e1 p1.
          let (v, d) =
            wait-seen machine interval fuel timeout description (drained machine interval fuel) w w1
              e1 in
          continue-Leaves P (call machine.is_active w1) _ (keeps.is_active w1 p1) λ active w2 e2 p2.
            when-Leaves P active (call machine.stop) w2 p2
              λ on. keeps.stop v w1 w2 p2 d (called machine.is_active e2 ∙ ap (λ b. (ok b, w2)) on)

  drain_service-Leaves :
      (timeout : Option ℕ) (w : W) → P w → Leaves P (drain_service machine interval fuel timeout w)
  unfolding drain_service
  drain_service-Leaves timeout w p =
      continue-Leaves P (call machine.request_drain w) _ (keeps.request_drain w p)
        λ u w1 e1 p1. drain_and_stop-Leaves timeout "Worker drain" w1 p1

  to_development-Leaves :
      (timeout : Option ℕ) (w : W) → P w → Leaves P (to_development machine interval fuel timeout w)
  unfolding to_development
  to_development-Leaves timeout w p =
      continue-Leaves P (call machine.is_active w) _ (keeps.is_active w p) λ active w1 e1 p1.
        continue-Leaves P (when active (drain_service machine interval fuel timeout) w1) _
          (when-Leaves P active (drain_service machine interval fuel timeout) w1 p1
            (λ on. drain_service-Leaves timeout w1 p1))
          λ u w2 e2 p2.
            continue-Leaves P (call machine.is_active w2) (release_gpu machine interval fuel)
              (keeps.is_active w2 p2) (λ still w3 e3 p3. release_gpu-Leaves still w3 p3)

  ready_and_report :
      (timeout : Option ℕ) (description : String) (w : W)
      → P w
      → Leaves P (
          continue
            (wait machine interval fuel timeout description (ready machine interval fuel) w)
            (λ u. report machine interval fuel))
  ready_and_report timeout description w p =
      continue-Leaves P
        (wait machine interval fuel timeout description (ready machine interval fuel) w) _
        (wait-Leaves machine interval fuel P keeps timeout description (ready machine interval fuel)
          w (ready_kept machine interval fuel P keeps) p)
        (λ u w1 e1 p1. report-Leaves machine interval fuel P keeps w1 p1)

  start_service-Leaves :
      (timeout : ℕ) (w0 w : W)
      → P w
      → machine.active_processes w0 ≡ (ok [], w)
      → Leaves P (start_service machine interval fuel timeout w)
  unfolding start_service
  start_service-Leaves timeout w0 w p free =
      continue-Leaves P (call machine.start w) _ (keeps.start w0 w p free) λ u w1 e1 p1.
        continue-Leaves P
          (wait machine interval fuel (some timeout) "Worker service activation" machine.is_active
            w1)
          _
          (wait-Leaves machine interval fuel P keeps (some timeout) "Worker service activation"
            machine.is_active w1 keeps.is_active p1)
          λ v w2 e2 p2. ready_and_report (some timeout) "Worker readiness" w2 p2

  take_gpu-Leaves :
      (timeout : ℕ) (w : W) → P w → Leaves P (take_gpu machine interval fuel timeout w)
  unfolding take_gpu
  take_gpu-Leaves timeout w p =
      continue-Leaves P (call machine.require_exact_identity w) _ (keeps.identity w p) λ u w1 e1 p1.
        continue-Leaves P (call machine.active_processes w1) _ (keeps.processes w1 p1)
          λ busy w2 e2 p2.
            unless_busy-Leaves P busy _ (start_service machine interval fuel timeout) w2 p2 λ free.
              start_service-Leaves timeout w1 w2 p2
                (called machine.active_processes e2 ∙ ap (λ b. (ok b, w2)) free)

  take_existing-Leaves :
      (timeout : ℕ) (drain : Option ℕ) (drains : Bool) (w : W)
      → P w
      → Leaves P (take_existing machine interval fuel timeout drain drains w)
  unfolding take_existing await_existing
  take_existing-Leaves timeout drain false w p =
      ready_and_report (some timeout) "existing Worker readiness" w p
  take_existing-Leaves timeout drain true w p =
      continue-Leaves P (drain_and_stop machine interval fuel drain "existing Worker drain" w) _
        (drain_and_stop-Leaves drain "existing Worker drain" w p)
        (λ u w1 e1 p1. take_gpu-Leaves timeout w1 p1)

  switch_from-Leaves :
      (timeout : ℕ) (drain : Option ℕ) (active : Bool) (w : W)
      → P w
      → Leaves P (switch_from machine interval fuel timeout drain active w)
  unfolding switch_from
  switch_from-Leaves timeout drain false w p = take_gpu-Leaves timeout w p
  switch_from-Leaves timeout drain true w p =
      continue-Leaves P (call machine.snapshot w) _ (keeps.snapshot w p)
        (λ s w1 e1 p1. take_existing-Leaves timeout drain _ w1 p1)

  to_astrumweaver-Leaves :
      (timeout : ℕ) (drain : Option ℕ) (w : W)
      → P w
      → Leaves P (to_astrumweaver machine interval fuel timeout drain w)
  unfolding to_astrumweaver
  to_astrumweaver-Leaves timeout drain w p =
      if_cases (λ (m : Run W ModeReport). Leaves P (m w)) (nat_eq timeout 0) (λ e. p)
        λ e.
          continue-Leaves P (call machine.is_active w)
            (switch_from machine interval fuel timeout drain) (keeps.is_active w p)
            (λ active w1 e1 p1. switch_from-Leaves timeout drain active w1 p1)

  -- Both handovers, also where they raise, leave a predicate true that looks, drain requests and
  -- sleeps keep, that a start keeps in a world in which the GPUs were just seen free, and that a stop
  -- keeps in a world in which the Worker was seen drained and just then active. So the service is
  -- started and stopped in such worlds only.
  pub handover-Leaves :
      (timeout : ℕ) (drain : Option ℕ) (w : W)
      → P w
      → Leaves P (to_development machine interval fuel drain w)
        × Leaves P (to_astrumweaver machine interval fuel timeout drain w)
  handover-Leaves timeout drain w p =
      (to_development-Leaves drain w p, to_astrumweaver-Leaves timeout drain w p)

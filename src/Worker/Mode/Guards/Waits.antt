-- ===== src/Worker/Mode/Guards/Waits.antt =====
-- Looks, waits and reports keep what the machine's operations keep.
use astrum_weaver.Prelude.{
  ℕ, zero, suc, String, ◌≡◌, refl, Bool, true, false, Option, List, [], ◌∷◌,
}
use astrum_weaver.Value.{Mapping}
use astrum_weaver.Worker.Run.{Run, call, when, Leaves, continue-Leaves}
use astrum_weaver.Worker.Mode.{
  GpuProcess, Machine, over, after_look, wait_until, wait, report, snapshot_if, drained, ready,
  seen, inactive_or_drained, unless_busy,
}
use astrum_weaver.Result.{Result, ok, err, Method, if_cases}

pub unless_busy-Leaves :
    {W A : Type 0} (P : W → Type 0) (busy : List GpuProcess) (message : String) (next : Run W A)
    (w : W)
    → P w
    → (busy ≡ [] → Leaves P (next w))
    → Leaves P (unless_busy busy message next w)
unfolding unless_busy
unless_busy-Leaves P [] message next w p free = free refl
unless_busy-Leaves P (q ∷ qs) message next w p free = p

pub when-Leaves :
    {W : Type 0} (P : W → Type 0) (b : Bool) (m : Run W (Unit {0})) (w : W)
    → P w
    → (b ≡ true → Leaves P (m w))
    → Leaves P (when b m w)
when-Leaves P true m w p taken = taken refl
when-Leaves P false m w p taken = p

-- A predicate on worlds that looks, drain requests and sleeps keep, that a start keeps directly after
-- the GPUs were seen free, and that a stop keeps once the Worker was seen drained and then active.
pub record Tolerates {W : Type 0} (machine : Machine W) (interval fuel : ℕ) (P : W → Type 0)
    : Type 0 where
  pub is_active : (w : W) → P w → P (machine.is_active w).1
  pub snapshot : (w : W) → P w → P (machine.snapshot w).1
  pub request_drain : (w : W) → P w → P (machine.request_drain w).1
  pub identity : (w : W) → P w → P (machine.require_exact_identity w).1
  pub processes : (w : W) → P w → P (machine.active_processes w).1
  pub sleep : (w : W) → P w → P (machine.sleep interval w)
  pub start : (w v : W) → P v → machine.active_processes w ≡ (ok [], v) → P (machine.start v).1
  pub stop :
      (w v u : W)
      → P u
      → drained machine interval fuel w ≡ (ok true, v)
      → machine.is_active v ≡ (ok true, u)
      → P (machine.stop u).1

module _ {W : Type 0} (machine : Machine W) (interval fuel : ℕ) (P : W → Type 0)
    (keeps : Tolerates machine interval fuel P) where
  seen_kept :
      (test : Option Mapping → Bool) (r : Result (Option Mapping) × W) → P r.1 → P (seen test r).1
  seen_kept test (err e, w) p = p
  seen_kept test (ok s, w) p = p

  pub ready_kept : (w : W) → P w → P (ready machine interval fuel w).1
  unfolding ready
  ready_kept w p = seen_kept _ (machine.snapshot w) (keeps.snapshot w p)

  either_kept : (r : Result Bool × W) → P r.1 → P (inactive_or_drained machine interval fuel r).1
  either_kept (err e, w) p = p
  either_kept (ok false, w) p = p
  either_kept (ok true, w) p = seen_kept _ (machine.snapshot w) (keeps.snapshot w p)

  pub drained_kept : (w : W) → P w → P (drained machine interval fuel w).1
  unfolding drained
  drained_kept w p = either_kept (machine.is_active w) (keeps.is_active w p)

  after_look-Leaves :
      (deadline : Option ℕ) (description : String) (later : W → Option (Result (Unit {0}) × W))
      (r : Result Bool × W)
      → P r.1
      → ((v : W) → P v → Leaves P (later v))
      → Leaves P (after_look machine interval fuel deadline description later r)
  unfolding after_look
  after_look-Leaves deadline description later (err e, w) p h = p
  after_look-Leaves deadline description later (ok true, w) p h = p
  after_look-Leaves deadline description later (ok false, w) p h =
      if_cases (Leaves P) (over deadline (machine.clock w)) (λ e. p) (λ e. h w p)

  wait_until-Leaves :
      (n : ℕ) (deadline : Option ℕ) (description : String) (predicate : Method W Bool) (w : W)
      → ((v : W) → P v → P (predicate v).1)
      → P w
      → Leaves P (wait_until machine interval fuel n deadline description predicate w)
  unfolding wait_until
  wait_until-Leaves zero deadline description predicate w kept p = tt
  wait_until-Leaves (suc n) deadline description predicate w kept p =
      after_look-Leaves deadline description _ (predicate w) (kept w p) λ v q.
        wait_until-Leaves n deadline description predicate (machine.sleep interval v) kept
          (keeps.sleep v q)

  pub wait-Leaves :
      (timeout : Option ℕ) (description : String) (predicate : Method W Bool) (w : W)
      → ((v : W) → P v → P (predicate v).1)
      → P w
      → Leaves P (wait machine interval fuel timeout description predicate w)
  unfolding wait
  wait-Leaves timeout description predicate w kept p =
      wait_until-Leaves fuel _ description predicate w kept p

  snapshot_if-Leaves :
      (active : Bool) (w : W) → P w → Leaves P (snapshot_if machine interval fuel active w)
  unfolding snapshot_if
  snapshot_if-Leaves true w p = keeps.snapshot w p
  snapshot_if-Leaves false w p = p

  pub report-Leaves : (w : W) → P w → Leaves P (report machine interval fuel w)
  unfolding report
  report-Leaves w p =
      continue-Leaves P (call machine.is_active w) _ (keeps.is_active w p) λ active w1 e1 p1.
        continue-Leaves P (snapshot_if machine interval fuel active w1) _
          (snapshot_if-Leaves active w1 p1)
          λ s w2 e2 p2.
            continue-Leaves P (call machine.active_processes w2) _ (keeps.processes w2 p2)
              (λ ps w3 e3 p3. p3)

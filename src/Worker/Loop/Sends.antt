-- ===== src/Worker/Loop/Sends.antt =====
-- When `WorkerRuntime` claims a job and when it reports one: what any predicate has to bear to hold
-- throughout a run.
use astrum_weaver.Prelude.{ℕ, zero, suc, ◌≡◌, refl, Bool, true, false, not, Option, none, some, leb}
use astrum_weaver.Worker.Run.{Run, call, Leaves, continue-Leaves}
use astrum_weaver.Worker.Loop.{ClaimedJob, LoopSettings, control_available}
use astrum_weaver.Worker.Loop.Rounds.{
  Execution, returned, returned_other, raised, Settlement, Surroundings, Local, after, ready_now,
  lose_control, heartbeat_locked, heartbeat_if_due, locked_heartbeat, acquire_lock,
  send_registration, beat_where_draining, register, wait_for_poll, require_runtime, send_claim,
  claim_if_ready, beat_then_claim, claim_locked, recheck, send_settlement, settle_if_confirmed,
  settle, settlement_of, await_execution, attend, unless_done, run_execution,
}
use astrum_weaver.Worker.Loop.Forever.{forgotten, finish, await_stop}
use astrum_weaver.Result.{Result, if_cases}

-- A predicate that every part of the run keeps, where a claim has to keep it only if the Worker is
-- ready, and a report only if the runtime and the control plane's acknowledgement are confirmed.
pub record Bears {W : Type 0} (env : Surroundings W) (c : LoopSettings) (P : Local W → Type 0)
    : Type 0 where
  pub beats : (l : Local W) → P l → P (heartbeat_locked env c l).1
  pub enrolls : (l : Local W) → P l → P (send_registration env c l).1
  pub acquires :
      (l : Local W) → P l → P (after (env.acquire l.world).0 (env.acquire l.world).1 l.loop)
  pub sleeps :
      (n : ℕ) (l : Local W) → P l → P (after (env.sleep n l.world).0 (env.sleep n l.world).1 l.loop)
  pub executes :
      (n : ℕ) (l : Local W)
      → P l
      → P (after (env.await_execution n l.world).0.1 (env.await_execution n l.world).1 l.loop)
  pub checks :
      (l : Local W)
      → P l
      → P (after (env.check_runtime l.world).0 (env.check_runtime l.world).1 l.loop)
  pub inspects :
      (claimed : ClaimedJob) (l : Local W)
      → P l
      → P (after (env.inspect claimed l.world).0.1 (env.inspect claimed l.world).1 l.loop)
  pub cleans :
      (claimed : ClaimedJob) (l : Local W)
      → P l
      → P (
          after
            (env.clean_up claimed l.world).0
            (env.clean_up claimed l.world).1
            (forgotten l.loop))
  pub starts :
      (l : Local W)
      → P l
      → P (after (env.start_runtime l.world).0 (env.start_runtime l.world).1 l.loop)
  pub loses : (status : ℕ) (l : Local W) → P l → P (lose_control env c status l)
  pub forgets : (l : Local W) → P l → P (record l { loop = forgotten l.loop })
  pub stops : (fuel : ℕ) (l : Local W) → P l → P (await_stop env c fuel l)
  pub finishes :
      (fuel : ℕ) (r : Result (Unit {0})) (l : Local W) → P l → P (finish env c fuel r l).1
  pub claims : (l : Local W) → ready_now env c l ≡ true → P l → P (send_claim env c l).1
  pub reports :
      (claimed : ClaimedJob) (settlement : Settlement) (l : Local W)
      → (env.view l.world).available ≡ true
      → control_available (env.clock l.world) l.loop ≡ true
      → P l
      → P (send_settlement env c claimed settlement l).1

not-false : (b : Bool) → not b ≡ false → b ≡ true
not-false true h = refl
not-false false h = absurd (cc)

module _ {W : Type 0} (env : Surroundings W) (c : LoopSettings) (P : Local W → Type 0)
    (bears : Bears env c P) where
  if_due-Leaves : (l : Local W) → P l → Leaves P (heartbeat_if_due env c l)
  unfolding heartbeat_if_due
  if_due-Leaves l p =
      if_cases (Leaves P) (leb l.loop.next_heartbeat (env.clock l.world)) (λ e. bears.beats l p)
        (λ e. p)

  pub locked_heartbeat-Leaves : (l : Local W) → P l → Leaves P (locked_heartbeat env c l)
  unfolding locked_heartbeat acquire_lock
  locked_heartbeat-Leaves l p =
      continue-Leaves P (acquire_lock env c l) _ (bears.acquires l p)
        (λ u l1 e1 p1. if_due-Leaves l1 p1)

  draining-Leaves : (l : Local W) → P l → Leaves P (beat_where_draining env c l)
  unfolding beat_where_draining
  draining-Leaves l p = if_cases (Leaves P) l.loop.draining (λ e. bears.beats l p) (λ e. p)

  pub register-Leaves : (l : Local W) → P l → Leaves P (register env c l)
  unfolding register acquire_lock
  register-Leaves l p =
      continue-Leaves P (acquire_lock env c l) _ (bears.acquires l p) λ u l1 e1 p1.
        continue-Leaves P (call (send_registration env c) l1) _ (bears.enrolls l1 p1)
          (λ v l2 e2 p2. draining-Leaves l2 p2)

  pub poll-Leaves : (l : Local W) → P l → Leaves P (wait_for_poll env c l)
  unfolding wait_for_poll
  poll-Leaves l p = bears.sleeps _ l p

  pub require-Leaves : (l : Local W) → P l → Leaves P (require_runtime env c l)
  unfolding require_runtime
  require-Leaves l p = if_cases (Leaves P) (env.view l.world).available (λ e. p) (λ e. p)

  claim_if_ready-Leaves : (l : Local W) → P l → Leaves P (claim_if_ready env c l)
  unfolding claim_if_ready
  claim_if_ready-Leaves l p =
      if_cases (Leaves P) (ready_now env c l) (λ e. bears.claims l e p) (λ e. p)

  beat_then_claim-Leaves : (l : Local W) → P l → Leaves P (beat_then_claim env c l)
  unfolding beat_then_claim
  beat_then_claim-Leaves l p =
      if_cases (Leaves P) (ready_now env c l)
        (λ e.
          continue-Leaves P (heartbeat_if_due env c l) _ (if_due-Leaves l p)
            (λ u l1 e1 p1. claim_if_ready-Leaves l1 p1))
        (λ e. p)

  pub claim_locked-Leaves : (l : Local W) → P l → Leaves P (claim_locked env c l)
  unfolding claim_locked acquire_lock
  claim_locked-Leaves l p =
      continue-Leaves P (acquire_lock env c l) _ (bears.acquires l p)
        (λ u l1 e1 p1. beat_then_claim-Leaves l1 p1)

  recheck-Leaves :
      (execution : Execution) (l : Local W) → P l → Leaves P (recheck env c execution l)
  unfolding recheck
  recheck-Leaves (returned result) l p = p
  recheck-Leaves returned_other l p = p
  recheck-Leaves (raised type message) l p =
      if_cases (Leaves P) env.supervised (λ e. require-Leaves _ (bears.checks l p)) (λ e. p)

  confirmed-Leaves :
      (claimed : ClaimedJob) (settlement : Settlement) (l : Local W)
      → P l
      → Leaves P (settle_if_confirmed env c claimed settlement l)
  unfolding settle_if_confirmed
  confirmed-Leaves claimed settlement l p =
      if_cases (Leaves P) (not (env.view l.world).available) (λ e. p)
        λ up.
          if_cases (Leaves P) (not (control_available (env.clock l.world) l.loop)) (λ e. p)
            (λ valid. bears.reports claimed settlement l (not-false _ up) (not-false _ valid) p)

  pub settle-Leaves :
      (claimed : ClaimedJob) (execution : Execution) (l : Local W)
      → P l
      → Leaves P (settle env c claimed execution l)
  unfolding settle acquire_lock
  settle-Leaves claimed execution l p =
      continue-Leaves P (require_runtime env c l) _ (require-Leaves l p) λ u l1 e1 p1.
        continue-Leaves P (recheck env c execution l1) _ (recheck-Leaves execution l1 p1)
          λ u2 l2 e2 p2.
            continue-Leaves P (acquire_lock env c l2) _ (bears.acquires l2 p2) λ u3 l3 e3 p3.
              continue-Leaves P (heartbeat_if_due env c l3) _ (if_due-Leaves l3 p3)
                (λ u4 l4 e4 p4. confirmed-Leaves claimed (settlement_of env c execution) l4 p4)

  attend-Leaves : (l : Local W) → P l → Leaves P (attend env c l)
  unfolding attend await_execution
  attend-Leaves l p =
      continue-Leaves P (require_runtime env c l) _ (require-Leaves l p) λ u l1 e1 p1.
        continue-Leaves P (locked_heartbeat env c l1) _ (locked_heartbeat-Leaves l1 p1)
          λ u2 l2 e2 p2.
            continue-Leaves P (require_runtime env c l2) _ (require-Leaves l2 p2)
              (λ u3 l3 e3 p3. bears.executes _ l3 p3)

  unless_done-Leaves :
      (done : Option Execution) (again : Run (Local W) Execution) (l : Local W)
      → P l
      → Leaves P (again l)
      → Leaves P (unless_done env c done again l)
  unfolding unless_done
  unless_done-Leaves none again l p more = more
  unless_done-Leaves (some execution) again l p more = p

  pub run_execution-Leaves : (fuel : ℕ) (l : Local W) → P l → Leaves P (run_execution env c fuel l)
  unfolding run_execution
  run_execution-Leaves zero l p = tt
  run_execution-Leaves (suc fuel) l p =
      continue-Leaves P (attend env c l) _ (attend-Leaves l p) λ done l1 e1 p1.
        unless_done-Leaves done (run_execution env c fuel) l1 p1 (run_execution-Leaves fuel l1 p1)

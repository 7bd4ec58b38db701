-- ===== src/Worker/Loop/Runs.antt =====
-- A whole run of `WorkerRuntime` leaves a predicate true that its parts bear.
use astrum_weaver.Prelude.{ℕ, zero, suc, String, Option, none, some, nat_eq, ◌==◌}
use astrum_weaver.Worker.Run.{Leaves, continue-Leaves}
use astrum_weaver.Worker.Loop.{ClaimedJob, LoopSettings}
use astrum_weaver.Worker.Loop.Rounds.{
  Answer, replied, transport, Attempt, skipped, answered, Surroundings, Local, ready_now,
  lose_control, locked_heartbeat, acquire_lock, register, require_runtime, claim_locked, settle,
  run_execution,
}
use astrum_weaver.Worker.Loop.Forever.{
  inspected, inspect_job, lost_lease, clean_up, execute_claim, run_claim, forget, with_claim,
  claim_round, poll_or_claim, one_round, recover, rounds, finished, enroll, started, run_supervised,
  run_forever,
}
use astrum_weaver.Worker.Loop.Sends.{
  Bears, locked_heartbeat-Leaves, register-Leaves, poll-Leaves, require-Leaves, claim_locked-Leaves,
  settle-Leaves, run_execution-Leaves,
}
use astrum_weaver.Result.{
  Error, value_error, type_error, key_error, not_found, conflict, mapping_error,
  isolation_unavailable, runtime_error, transport_error, runtime_unavailable, Result, ok, err,
  if_cases,
}

module _ {W : Type 0} (env : Surroundings W) (c : LoopSettings) (fuel : ℕ) (P : Local W → Type 0)
    (bears : Bears env c P) where
  inspected-Leaves :
      (e : Error) (answer : Answer (Option String)) (l : Local W)
      → P l
      → Leaves P (inspected env c fuel e answer l)
  unfolding inspected
  inspected-Leaves e (transport status) l p = p
  inspected-Leaves e (replied none) l p = p
  inspected-Leaves e (replied (some status)) l p =
      if_cases (Leaves P) (status == "cancelled") (λ h. p) (λ h. p)

  inspect-Leaves :
      (claimed : ClaimedJob) (e : Error) (l : Local W)
      → P l
      → Leaves P (inspect_job env c fuel claimed e l)
  unfolding inspect_job
  inspect-Leaves claimed e l p =
      inspected-Leaves e (env.inspect claimed l.world).0.0 _ (bears.inspects claimed l p)

  lost_lease-Leaves :
      (claimed : ClaimedJob) (out : Option (Result (Unit {0}) × Local W))
      → Leaves P out
      → Leaves P (lost_lease env c fuel claimed out)
  unfolding lost_lease acquire_lock
  lost_lease-Leaves claimed none p = p
  lost_lease-Leaves claimed (some (ok u, l)) p = p
  lost_lease-Leaves claimed (some (err (value_error s), l)) p = p
  lost_lease-Leaves claimed (some (err (type_error s), l)) p = p
  lost_lease-Leaves claimed (some (err (key_error s), l)) p = p
  lost_lease-Leaves claimed (some (err (not_found s), l)) p = p
  lost_lease-Leaves claimed (some (err (conflict s), l)) p = p
  lost_lease-Leaves claimed (some (err (mapping_error s), l)) p = p
  lost_lease-Leaves claimed (some (err (isolation_unavailable s), l)) p = p
  lost_lease-Leaves claimed (some (err (runtime_error s), l)) p = p
  lost_lease-Leaves claimed (some (err runtime_unavailable, l)) p = p
  lost_lease-Leaves claimed (some (err (transport_error status), l)) p =
      let q = bears.loses status l p in
      if_cases (Leaves P) (nat_eq status 409)
        (λ e.
          continue-Leaves P (acquire_lock env c (lose_control env c status l)) _
            (bears.acquires _ q)
            (λ u l1 e1 p1. inspect-Leaves claimed (transport_error status) l1 p1))
        (λ e. q)

  clean_up-Leaves :
      (claimed : ClaimedJob) (out : Option (Result (Unit {0}) × Local W))
      → Leaves P out
      → Leaves P (clean_up env c fuel claimed out)
  unfolding clean_up
  clean_up-Leaves claimed none p = p
  clean_up-Leaves claimed (some (r, l)) p = bears.cleans claimed l p

  execute_claim-Leaves :
      (claimed : ClaimedJob) (l : Local W) → P l → Leaves P (execute_claim env c fuel claimed l)
  unfolding execute_claim
  execute_claim-Leaves claimed l p = clean_up-Leaves claimed _ (
      lost_lease-Leaves claimed _ (
        continue-Leaves P (run_execution env c fuel l) (settle env c claimed)
          (run_execution-Leaves env c P bears fuel l p)
          (λ execution l1 e1 p1. settle-Leaves env c P bears claimed execution l1 p1)))

  run_claim-Leaves :
      (claimed : ClaimedJob) (l : Local W) → P l → Leaves P (run_claim env c fuel claimed l)
  unfolding run_claim
  run_claim-Leaves claimed l p =
      continue-Leaves P (require_runtime env c l) _ (require-Leaves env c P bears l p)
        (λ u l1 e1 p1. execute_claim-Leaves claimed l1 p1)

  forget-Leaves :
      (out : Option (Result (Unit {0}) × Local W)) → Leaves P out → Leaves P (forget env c fuel out)
  unfolding forget
  forget-Leaves none p = p
  forget-Leaves (some (r, l)) p = bears.forgets l p

  with_claim-Leaves :
      (attempt : Attempt) (l : Local W) → P l → Leaves P (with_claim env c fuel attempt l)
  unfolding with_claim
  with_claim-Leaves skipped l p = p
  with_claim-Leaves (answered none) l p = poll-Leaves env c P bears l p
  with_claim-Leaves (answered (some claimed)) l p = forget-Leaves _ (run_claim-Leaves claimed l p)

  pub poll_or_claim-Leaves : (l : Local W) → P l → Leaves P (poll_or_claim env c fuel l)
  unfolding poll_or_claim claim_round
  poll_or_claim-Leaves l p =
      if_cases (Leaves P) (ready_now env c l)
        (λ e.
          continue-Leaves P (claim_locked env c l) (with_claim env c fuel)
            (claim_locked-Leaves env c P bears l p)
            (λ attempt l1 e1 p1. with_claim-Leaves attempt l1 p1))
        (λ e. poll-Leaves env c P bears l p)

  pub one_round-Leaves : (l : Local W) → P l → Leaves P (one_round env c fuel l)
  unfolding one_round
  one_round-Leaves l p =
      continue-Leaves P (locked_heartbeat env c l) _ (locked_heartbeat-Leaves env c P bears l p)
        (λ u l1 e1 p1. poll_or_claim-Leaves l1 p1)

  pub recover-Leaves :
      (out : Option (Result (Unit {0}) × Local W))
      → Leaves P out
      → Leaves P (recover env c fuel out)
  unfolding recover
  recover-Leaves none p = p
  recover-Leaves (some (ok u, l)) p = p
  recover-Leaves (some (err (value_error s), l)) p = p
  recover-Leaves (some (err (type_error s), l)) p = p
  recover-Leaves (some (err (key_error s), l)) p = p
  recover-Leaves (some (err (not_found s), l)) p = p
  recover-Leaves (some (err (conflict s), l)) p = p
  recover-Leaves (some (err (mapping_error s), l)) p = p
  recover-Leaves (some (err (isolation_unavailable s), l)) p = p
  recover-Leaves (some (err (runtime_error s), l)) p = p
  recover-Leaves (some (err runtime_unavailable, l)) p = poll-Leaves env c P bears l p
  recover-Leaves (some (err (transport_error status), l)) p =
      poll-Leaves env c P bears _ (bears.loses status l p)

  rounds-Leaves : (n : ℕ) (l : Local W) → P l → Leaves P (rounds env c fuel n l)
  unfolding rounds
  rounds-Leaves zero l p = tt
  rounds-Leaves (suc n) l p =
      if_cases (Leaves P) l.loop.stopped (λ e. p)
        λ e.
          continue-Leaves P (recover env c fuel (one_round env c fuel l)) _
            (recover-Leaves (one_round env c fuel l) (one_round-Leaves l p))
            (λ u l1 e1 p1. rounds-Leaves n l1 p1)

  enroll-Leaves : (n : ℕ) (l : Local W) → P l → Leaves P (enroll env c fuel n l)
  unfolding enroll
  enroll-Leaves n l p =
      continue-Leaves P (register env c l) _ (register-Leaves env c P bears l p)
        (λ u l1 e1 p1. rounds-Leaves n l1 p1)

  started-Leaves : (n : ℕ) (l : Local W) → P l → Leaves P (started env c fuel n l)
  unfolding started
  started-Leaves n l p =
      if_cases (Leaves P) (env.view l.world).available (λ e. enroll-Leaves n l p)
        (λ e. bears.stops fuel l p)

  supervised-Leaves : (n : ℕ) (l : Local W) → P l → Leaves P (run_supervised env c fuel n l)
  unfolding run_supervised
  supervised-Leaves n l p =
      if_cases (Leaves P) env.supervised (λ e. started-Leaves n _ (bears.starts l p))
        (λ e. enroll-Leaves n l p)

  finished-Leaves :
      (out : Option (Result (Unit {0}) × Local W))
      → Leaves P out
      → Leaves P (finished env c fuel out)
  finished-Leaves none p = p
  finished-Leaves (some (r, l)) p = bears.finishes fuel r l p

  -- A run, however long and however it ends, leaves a predicate true that holds before it and that
  -- every part of it keeps, where a claim has to keep it only in a state in which the Worker is ready,
  -- and a report only in a state in which the runtime is available and the acknowledgement of the
  -- control plane valid. So jobs are claimed and reported in such states only.
  pub run_forever-Leaves : (n : ℕ) (l : Local W) → P l → Leaves P (run_forever env c fuel n l)
  unfolding run_forever
  run_forever-Leaves n l p =
      finished-Leaves _ (if_cases (Leaves P) l.loop.stopped (λ e. p) (λ e. supervised-Leaves n l p))

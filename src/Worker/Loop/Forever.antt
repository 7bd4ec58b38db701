-- ===== src/Worker/Loop/Forever.antt =====
-- `_execute_claim` and `run_forever` of `WorkerRuntime`: rounds with their handlers, and the end.
use astrum_weaver.Prelude.{
  ℕ, zero, suc, String, Bool, true, false, Option, none, some, nat_eq, if◌then◌else◌, ◌==◌,
}
use astrum_weaver.Worker.Run.{Run, ◌>>=◌, ◌>>◌, return, raise}
use astrum_weaver.Worker.Loop.{ClaimedJob, Loop, LoopSettings, request_stop}
use astrum_weaver.Worker.Loop.Rounds.{
  Answer, replied, transport, Attempt, skipped, answered, Surroundings, Local, arrive, after,
  ready_now, lose_control, locked_heartbeat, acquire_lock, register, wait_for_poll, require_runtime,
  claim_locked, settle, run_execution,
}
use astrum_weaver.Result.{Error, Result, ok, err, transport_error, runtime_unavailable}

abbrev pub forgotten : Loop → Loop
forgotten s = record s { active = none }

module _ {W : Type 0} (env : Surroundings W) (c : LoopSettings) (fuel : ℕ) where
  -- The inspection after a lost lease: a job that was cancelled ends the attempt without an error.
  unfoldable pub inspected :
      Error → Answer (Option String) → Local W → Option (Result (Unit {0}) × Local W)
  inspected e (transport status) l = raise (transport_error status) l
  inspected e (replied none) l = raise e l
  inspected e (replied (some status)) l = if status == "cancelled" then return tt l else raise e l

  unfoldable pub inspect_job : ClaimedJob → Error → Run (Local W) (Unit {0})
  unfolding inspected arrive
  inspect_job claimed e l =
      let ((answer, signals), w) = env.inspect claimed l.world in
      inspected e answer (after signals w l.loop)

  -- The handler of `ControlTransportError` in `_execute_claim`.
  unfoldable pub lost_lease :
      ClaimedJob → Option (Result (Unit {0}) × Local W) → Option (Result (Unit {0}) × Local W)
  unfolding lose_control acquire_lock inspect_job
  lost_lease claimed (some (err (transport_error status), l)) =
      let l' = lose_control env c status l in
      if nat_eq status 409
      then (acquire_lock env c >> inspect_job claimed (transport_error status)) l'
      else some (err (transport_error status), l')
  lost_lease claimed out = out

  -- Its `finally`: an execution that goes on is cancelled, and the attempt is forgotten.
  unfoldable pub clean_up :
      ClaimedJob → Option (Result (Unit {0}) × Local W) → Option (Result (Unit {0}) × Local W)
  unfolding arrive
  clean_up claimed none = none
  clean_up claimed (some (r, l)) =
      let (signals, w) = env.clean_up claimed l.world in
      some (r, after signals w (forgotten l.loop))

  unfoldable pub execute_claim : ClaimedJob → Run (Local W) (Unit {0})
  unfolding require_runtime run_execution settle lost_lease clean_up
  execute_claim claimed l =
      clean_up claimed (lost_lease claimed ((run_execution env c fuel >>= settle env c claimed) l))

  -- A claimed job: its execution, if the runtime is still confirmed.
  unfoldable pub run_claim : ClaimedJob → Run (Local W) (Unit {0})
  unfolding require_runtime execute_claim
  run_claim claimed = require_runtime env c >> execute_claim claimed

  -- `finally: self._active = None`
  unfoldable pub forget :
      Option (Result (Unit {0}) × Local W) → Option (Result (Unit {0}) × Local W)
  forget none = none
  forget (some (r, l)) = some (r, record l { loop = forgotten l.loop })

  unfoldable pub with_claim : Attempt → Run (Local W) (Unit {0})
  unfolding wait_for_poll run_claim forget
  with_claim skipped l = return tt l
  with_claim (answered none) l = wait_for_poll env c l
  with_claim (answered (some claimed)) l = forget (run_claim claimed l)

  -- A round that found the Worker ready before it waits for the lock.
  unfoldable pub claim_round : Run (Local W) (Unit {0})
  unfolding claim_locked with_claim
  claim_round = claim_locked env c >>= with_claim

  unfoldable pub poll_or_claim : Run (Local W) (Unit {0})
  unfolding wait_for_poll claim_round
  poll_or_claim l = if ready_now env c l then claim_round l else wait_for_poll env c l

  unfoldable pub one_round : Run (Local W) (Unit {0})
  unfolding locked_heartbeat poll_or_claim
  one_round = locked_heartbeat env c >> poll_or_claim

  -- The handlers of a round: both go on.
  unfoldable pub recover :
      Option (Result (Unit {0}) × Local W) → Option (Result (Unit {0}) × Local W)
  unfolding wait_for_poll lose_control
  recover (some (err runtime_unavailable, l)) = wait_for_poll env c l
  recover (some (err (transport_error status), l)) =
      wait_for_poll env c (lose_control env c status l)
  recover out = out

  -- `while not self._stop.is_set()`; it returns `none` only where the fuel is used up.
  unfoldable pub rounds : ℕ → Run (Local W) (Unit {0})
  unfolding one_round recover
  rounds zero l = none
  rounds (suc n) l =
      let later = ((λ (v : Local W). recover (one_round v)) >> rounds n) l in
      if l.loop.stopped then return tt l else later

  -- A registered Worker is set offline; a transport error at this is suppressed.
  unfoldable pub set_offline : Bool → W → W
  set_offline true w = (env.set_offline w).1
  set_offline false w = w

  -- The supervisor, where there is one, closes and shuts down the runtime that it owns.
  unfoldable pub closed : W → Result (Unit {0}) × W
  closed w = if env.supervised then env.close_runtime w else (ok tt, w)

  -- What follows: an exception of the shutdown ends the run and leaves the registration as it is.
  unfoldable pub leave :
      Result (Unit {0}) → Loop → Result (Unit {0}) × W → Result (Unit {0}) × Local W
  unfolding set_offline
  leave r s (err e, w) = (err e, record { loop = s; world = w })
  leave r s (ok u, w) =
      (r, record { loop = record s { registered = false }; world = set_offline s.registered w })

  -- The `finally` of `run_forever`.
  unfoldable pub finish : Result (Unit {0}) → Local W → Result (Unit {0}) × Local W
  unfolding request_stop leave closed
  finish r l = leave r (record (request_stop l.loop) { valid_until = 0 }) (closed l.world)

  abbrev pub finished : Option (Result (Unit {0}) × Local W) → Option (Result (Unit {0}) × Local W)
  finished none = none
  finished (some (r, l)) = some (finish r l)

  -- `_stop.wait()`, which ends by a stop
  unfoldable pub await_stop : Local W → Local W
  unfolding request_stop
  await_stop l = record { loop = request_stop l.loop; world = env.await_stop l.world }

  unfoldable pub enroll : ℕ → Run (Local W) (Unit {0})
  unfolding register rounds
  enroll n = register env c >> rounds n

  unfoldable pub started : ℕ → Run (Local W) (Unit {0})
  unfolding await_stop enroll
  started n l = if (env.view l.world).available then enroll n l else return tt (await_stop l)

  unfoldable pub run_supervised : ℕ → Run (Local W) (Unit {0})
  unfolding started enroll arrive
  run_supervised n l =
      if env.supervised
      then (let (signals, w) = env.start_runtime l.world in started n (after signals w l.loop))
      else enroll n l

  -- `run_forever`, for at most so many rounds
  unfoldable pub run_forever : ℕ → Run (Local W) (Unit {0})
  unfolding run_supervised finish
  run_forever n l = finished (if l.loop.stopped then return tt l else run_supervised n l)

-- ===== src/Worker/Loop/Rounds.antt =====
-- The rounds of `WorkerRuntime`: heartbeats, claims, the execution of a claim and its settlement. The
-- client, the executor, the clock and the lock are operations on a world; during each the signals may
-- ask for a drain or a stop.
use astrum_weaver.Prelude.{
  ℕ, zero, suc, ◌+◌, ◌-◌, String, Bool, true, false, not, Option, none, some, leb, if◌then◌else◌,
}
use astrum_weaver.Execution.{JobResult}
use astrum_weaver.Worker.Run.{Run, ◌>>◌, call, return, raise, continue}
use astrum_weaver.Worker.Loop.{
  ClaimedJob, Loop, LoopSettings, RuntimeView, Acknowledgement, Beat, is_ready, control_available,
  request_drain, request_stop, control_failed, confirmed_state, acknowledge, beat_of, poll_delay,
}
use astrum_weaver.Result.{Result, Method, ok, err, transport_error, runtime_unavailable}

-- A reply, or a `ControlTransportError` with its status.
pub data Answer (A : Type 0) : Type 0 where
  replied : A → Answer A
  transport : ℕ → Answer A

-- What came in while the loop waited.
pub record Signals : Type 0 where
  pub drain : Bool
  pub stop : Bool

-- What the part of a round under the lock leads to: no claim, or the answer to one.
pub data Attempt : Type 0 where
  skipped : Attempt
  answered : Option ClaimedJob → Attempt

-- How an execution ended: a result, a value that is none, or an exception's type and message.
pub data Execution : Type 0 where
  returned : JobResult → Execution
  returned_other : Execution
  raised : String → String → Execution

-- What is sent at the end of an attempt.
pub data Settlement : Type 0 where
  completes : JobResult → Settlement
  fails : String → String → Bool → Settlement

pub record Surroundings (W : Type 0) : Type 0 where
  pub clock : W → ℕ
  pub view : W → RuntimeView
  pub supervised : Bool
  pub acquire : W → Signals × W
  pub register : W → (Answer Acknowledgement × Signals) × W
  pub heartbeat : Beat → W → (Answer Acknowledgement × Signals) × W
  pub claim : W → (Answer (Option ClaimedJob) × Signals) × W
  pub settle : ClaimedJob → Settlement → W → (Answer (Unit {0}) × Signals) × W
  pub inspect : ClaimedJob → W → (Answer (Option String) × Signals) × W
  pub await_execution : ℕ → W → (Option Execution × Signals) × W
  pub check_runtime : W → Signals × W
  pub clean_up : ClaimedJob → W → Signals × W
  pub sleep : ℕ → W → Signals × W
  pub start_runtime : W → Signals × W
  pub await_stop : W → W
  pub close_runtime : Method W (Unit {0})
  pub set_offline : W → Answer (Unit {0}) × W

-- The object, and the world that it acts on.
pub record Local (W : Type 0) : Type 0 where
  pub loop : Loop
  pub world : W

-- The signals' handlers.
unfoldable pub arrive : Signals → Loop → Loop
unfolding request_drain request_stop
arrive signals s =
    if signals.stop then request_stop s else if signals.drain then request_drain s else s

abbrev pub after : {W : Type 0} → Signals → W → Loop → Local W
after signals w s = record { loop = arrive signals s; world = w }

module _ {W : Type 0} (env : Surroundings W) (c : LoopSettings) where
  abbrev pub ready_now : Local W → Bool
  ready_now l = is_ready (env.clock l.world) (env.view l.world) l.loop

  -- `_control_failed`
  unfoldable pub lose_control : ℕ → Local W → Local W
  unfolding control_failed
  lose_control status l = record l { loop = control_failed c (env.clock l.world) status l.loop }

  -- The end of a registration or a heartbeat that was sent at an instant.
  unfoldable pub take_answer : ℕ → Answer Acknowledgement → Local W → Result (Unit {0}) × Local W
  unfolding lose_control acknowledge confirmed_state
  take_answer sent_at (transport status) l = (err (transport_error status), lose_control status l)
  take_answer sent_at (replied a) l =
      let (r, s) = acknowledge c sent_at (env.clock l.world) (confirmed_state c a) l.loop in
      (
        r,
        record l { loop = record s { next_heartbeat = env.clock l.world + c.heartbeat_interval } },
      )

  -- `_heartbeat_locked`
  unfoldable pub heartbeat_locked : Local W → Result (Unit {0}) × Local W
  unfolding take_answer beat_of arrive
  heartbeat_locked l =
      let beat = beat_of (env.clock l.world) (env.view l.world) l.loop in
      let ((answer, signals), w) = env.heartbeat beat l.world in
      take_answer (env.clock l.world) answer (after signals w l.loop)

  -- `_heartbeat_locked`, where it is due
  unfoldable pub heartbeat_if_due : Run (Local W) (Unit {0})
  unfolding heartbeat_locked
  heartbeat_if_due l =
      if leb l.loop.next_heartbeat (env.clock l.world) then call heartbeat_locked l else return tt l

  unfoldable pub acquire_lock : Run (Local W) (Unit {0})
  unfolding arrive
  acquire_lock l = let (signals, w) = env.acquire l.world in return tt (after signals w l.loop)

  -- `_heartbeat_if_due`
  unfoldable pub locked_heartbeat : Run (Local W) (Unit {0})
  unfolding acquire_lock heartbeat_if_due
  locked_heartbeat = acquire_lock >> heartbeat_if_due

  -- `register`
  unfoldable pub send_registration : Local W → Result (Unit {0}) × Local W
  unfolding take_answer arrive
  send_registration l =
      let ((answer, signals), w) = env.register l.world in
      take_answer (env.clock l.world) answer (after signals w l.loop)

  unfoldable pub beat_where_draining : Run (Local W) (Unit {0})
  unfolding heartbeat_locked
  beat_where_draining l = if l.loop.draining then call heartbeat_locked l else return tt l

  unfoldable pub register : Run (Local W) (Unit {0})
  unfolding send_registration acquire_lock beat_where_draining
  register = do acquire_lock; call send_registration; beat_where_draining

  -- `_wait_for_poll`
  unfoldable pub wait_for_poll : Run (Local W) (Unit {0})
  unfolding poll_delay arrive
  wait_for_poll l =
      let (signals, w) = env.sleep (poll_delay c (env.clock l.world) l.loop) l.world in
      return tt (after signals w l.loop)

  -- `_require_runtime`
  unfoldable pub require_runtime : Run (Local W) (Unit {0})
  require_runtime l =
      if (env.view l.world).available then return tt l else raise runtime_unavailable l

  unfoldable pub took : Option ClaimedJob → Loop → Loop
  took claimed s = record s { active = claimed }

  unfoldable pub claimed_by : Answer (Option ClaimedJob) → Local W → Result Attempt × Local W
  unfolding took
  claimed_by (transport status) l = (err (transport_error status), l)
  claimed_by (replied claimed) l = (ok (answered claimed), record l { loop = took claimed l.loop })

  -- The claim, once every check has passed.
  unfoldable pub send_claim : Local W → Result Attempt × Local W
  unfolding claimed_by arrive
  send_claim l =
      let ((answer, signals), w) = env.claim l.world in claimed_by answer (after signals w l.loop)

  -- A claim where the Worker is ready.
  unfoldable pub claim_if_ready : Run (Local W) Attempt
  unfolding send_claim
  claim_if_ready l = if ready_now l then call send_claim l else return skipped l

  unfoldable pub beat_then_claim : Run (Local W) Attempt
  unfolding heartbeat_if_due claim_if_ready
  beat_then_claim l =
      if ready_now l then (heartbeat_if_due >> claim_if_ready) l else return skipped l

  -- The part of a round under the lock.
  unfoldable pub claim_locked : Run (Local W) Attempt
  unfolding acquire_lock beat_then_claim
  claim_locked = acquire_lock >> beat_then_claim

  -- What an execution's end is reported as.
  unfoldable pub settlement_of : Execution → Settlement
  settlement_of (returned result) = completes result
  settlement_of returned_other =
      fails "ExecutorProtocolError" "executor returned a non-JobResult value" false
  settlement_of (raised type message) = fails type message true

  -- A failed execution makes the supervisor look at the runtime.
  unfoldable pub recheck : Execution → Run (Local W) (Unit {0})
  unfolding require_runtime arrive
  recheck (returned result) l = return tt l
  recheck returned_other l = return tt l
  recheck (raised type message) l =
      if env.supervised
      then (let (signals, w) = env.check_runtime l.world in
          require_runtime (after signals w l.loop))
      else return tt l

  unfoldable pub settled_by : Answer (Unit {0}) → Local W → Result (Unit {0}) × Local W
  unfolding took
  settled_by (transport status) l = (err (transport_error status), l)
  settled_by (replied u) l = (ok tt, record l { loop = took none l.loop })

  unfoldable pub send_settlement : ClaimedJob → Settlement → Local W → Result (Unit {0}) × Local W
  unfolding arrive settled_by
  send_settlement claimed settlement l =
      let ((answer, signals), w) = env.settle claimed settlement l.world in
      settled_by answer (after signals w l.loop)

  -- The write, under a valid acknowledgement and a confirmed runtime only.
  unfoldable pub settle_if_confirmed : ClaimedJob → Settlement → Run (Local W) (Unit {0})
  unfolding send_settlement control_available
  settle_if_confirmed claimed settlement l =
      if not (env.view l.world).available
      then raise runtime_unavailable l
      else if not (control_available (env.clock l.world) l.loop)
      then raise (transport_error 0) l
      else call (send_settlement claimed settlement) l

  unfoldable pub settle : ClaimedJob → Execution → Run (Local W) (Unit {0})
  unfolding require_runtime recheck acquire_lock heartbeat_if_due settle_if_confirmed settlement_of
  settle claimed execution = do
    require_runtime
    recheck execution
    acquire_lock
    heartbeat_if_due
    settle_if_confirmed claimed (settlement_of execution)

  -- `asyncio.wait`, until the next heartbeat is due at the latest
  unfoldable pub await_execution : Run (Local W) (Option Execution)
  unfolding arrive
  await_execution l =
      let ((done, signals), w) =
        env.await_execution (l.loop.next_heartbeat - env.clock l.world) l.world in
      return done (after signals w l.loop)

  unfoldable pub attend : Run (Local W) (Option Execution)
  unfolding require_runtime locked_heartbeat await_execution
  attend = do require_runtime; locked_heartbeat; require_runtime; await_execution

  unfoldable pub unless_done : Option Execution → Run (Local W) Execution → Run (Local W) Execution
  unless_done none again l = again l
  unless_done (some execution) again l = return execution l

  -- The loop that waits for the execution; it returns `none` only where the fuel is used up.
  unfoldable pub run_execution : ℕ → Run (Local W) Execution
  unfolding attend unless_done
  run_execution zero l = none
  run_execution (suc fuel) l = continue (attend l) (λ done. unless_done done (run_execution fuel))

-- ===== src/Worker/Loop/Bounds.antt =====
-- How long a Worker may count on an acknowledgement of the control plane.
use astrum_weaver.Prelude.{ℕ, ◌+◌, ◌≤◌, ◌<◌, ◌≡◌, refl, true, Option, none, some, arith}
use astrum_weaver.Control.Models.{WorkerState}
use astrum_weaver.Worker.Run.{Leaves}
use astrum_weaver.Worker.Loop.{
  ClaimedJob, Loop, LoopSettings, Acknowledgement, Beat, is_ready, request_drain, request_stop,
  control_failed, confirmed_state, acknowledge, beat_of, control_available,
}
use astrum_weaver.Worker.Loop.Rounds.{
  Answer, replied, transport, Signals, Settlement, Surroundings, Local, after, ready_now,
  lose_control, take_answer, heartbeat_locked, send_registration, send_claim, claimed_by, took,
  settled_by, send_settlement,
}
use astrum_weaver.Worker.Loop.Forever.{forgotten, finish, leave, await_stop, run_forever}
use astrum_weaver.Worker.Loop.Sends.{Bears}
use astrum_weaver.Worker.Loop.Runs.{run_forever-Leaves}
use astrum_weaver.Worker.Loop.Keeping.{Keeps, arrive-valid, take_answer-world, kept_finish}
use astrum_weaver.Result.{Result, ok, err}

-- When the last registration or heartbeat was sent: such a call sets it to the time at which it is
-- sent, not to the one at which its answer arrives, and no other operation changes it.
pub record Stamps {W : Type 0} (env : Surroundings W) (sent : W → ℕ) : Type 0 where
  pub register : (w : W) → sent (env.register w).1 ≡ env.clock w
  pub heartbeat : (beat : Beat) (w : W) → sent (env.heartbeat beat w).1 ≡ env.clock w
  pub acquire : (w : W) → sent (env.acquire w).1 ≡ sent w
  pub claim : (w : W) → sent (env.claim w).1 ≡ sent w
  pub settle :
      (job : ClaimedJob) (settlement : Settlement) (w : W)
      → sent (env.settle job settlement w).1 ≡ sent w
  pub inspect : (job : ClaimedJob) (w : W) → sent (env.inspect job w).1 ≡ sent w
  pub await_execution : (n : ℕ) (w : W) → sent (env.await_execution n w).1 ≡ sent w
  pub check_runtime : (w : W) → sent (env.check_runtime w).1 ≡ sent w
  pub clean_up : (job : ClaimedJob) (w : W) → sent (env.clean_up job w).1 ≡ sent w
  pub sleep : (n : ℕ) (w : W) → sent (env.sleep n w).1 ≡ sent w
  pub start_runtime : (w : W) → sent (env.start_runtime w).1 ≡ sent w
  pub await_stop : (w : W) → sent (env.await_stop w) ≡ sent w

module _ {W : Type 0} (env : Surroundings W) (c : LoopSettings) (sent : W → ℕ)
    (C : W → Type 0) where
  -- The time is within an interval and a timeout of the last request to the control plane.
  abbrev pub InTime : W → Type 0
  InTime w = env.clock w < sent w + c.heartbeat_interval + c.client_timeout

  -- The acknowledgement is not valid for longer than that, and `C` holds of the world.
  pub record IsConfirmed (l : Local W) : Type 0 where
    pub bounded : l.loop.valid_until ≤ sent l.world + c.heartbeat_interval + c.client_timeout
    pub kept : C l.world

  moved :
      (signals : Signals) (s : Loop) (w v : W)
      → s.valid_until ≤ sent w + c.heartbeat_interval + c.client_timeout
      → sent v ≡ sent w
      → C v
      → IsConfirmed (after signals v s)
  moved signals s w v h same k = record {
    bounded = omega (arith, arrive-valid signals s, h, same);
    kept = k;
  }

  acknowledged :
      (sent_at now : ℕ) (state : Option WorkerState) (s : Loop)
      → (acknowledge c sent_at now state s).1.valid_until
        ≤ sent_at + c.heartbeat_interval + c.client_timeout
  unfolding acknowledge control_failed
  acknowledged sent_at now none s = omega arith
  acknowledged sent_at now (some state) s = omega arith

  answer-bounded :
      (sent_at : ℕ) (answer : Answer Acknowledgement) (l : Local W)
      → (take_answer env c sent_at answer l).1.loop.valid_until
        ≤ sent_at + c.heartbeat_interval + c.client_timeout
  unfolding take_answer lose_control control_failed
  answer-bounded sent_at (transport status) l = omega arith
  answer-bounded sent_at (replied a) l = acknowledged sent_at _ (confirmed_state c a) l.loop

  answered :
      (sent_at : ℕ) (answer : Answer Acknowledgement) (l : Local W)
      → sent l.world ≡ sent_at
      → C l.world
      → IsConfirmed (take_answer env c sent_at answer l).1
  answered sent_at answer l same k = record {
    bounded = rw (take_answer-world env c sent_at answer l, same) (answer-bounded sent_at answer l);
    kept = rw (take_answer-world env c sent_at answer l) k;
  }

  claimed_in :
      (answer : Answer (Option ClaimedJob)) (l : Local W)
      → IsConfirmed l
      → IsConfirmed (claimed_by env c answer l).1
  unfolding claimed_by took
  claimed_in (transport status) l h = h
  claimed_in (replied job) l h = record { bounded = h.bounded; kept = h.kept }

  settled :
      (answer : Answer (Unit {0})) (l : Local W)
      → IsConfirmed l
      → IsConfirmed (settled_by env c answer l).1
  unfolding settled_by took
  settled (transport status) l h = h
  settled (replied u) l h = record { bounded = h.bounded; kept = h.kept }

  valid-InTime :
      (l : Local W)
      → IsConfirmed l
      → control_available (env.clock l.world) l.loop ≡ true
      → InTime l.world
  unfolding control_available
  valid-InTime l h valid = ground (arith, h.bounded, valid)

  ready-valid :
      (l : Local W) → ready_now env c l ≡ true → control_available (env.clock l.world) l.loop ≡ true
  unfolding is_ready
  ready-valid l ready = ground (arith, ready)

  leave-valid :
      (fuel : ℕ) (r : Result (Unit {0})) (s : Loop) (closed : Result (Unit {0}) × W)
      → (leave env c fuel r s closed).1.loop.valid_until ≡ s.valid_until
  unfolding leave
  leave-valid fuel r s (err e, w) = refl
  leave-valid fuel r s (ok u, w) = refl

  finish-valid :
      (fuel : ℕ) (r : Result (Unit {0})) (l : Local W)
      → (finish env c fuel r l).1.loop.valid_until ≡ 0
  unfolding finish
  finish-valid fuel r l = leave-valid fuel r _ _

  module _ (stamps : Stamps env sent) (k : Keeps env C)
      (claim : (w : W) → InTime w → C w → C (env.claim w).1)
      (settle : (job : ClaimedJob) (settlement : Settlement) (w : W)
        → InTime w
        → C w
        → C (env.settle job settlement w).1) where
    heartbeat-IsConfirmed : (l : Local W) → IsConfirmed l → IsConfirmed (heartbeat_locked env c l).1
    unfolding heartbeat_locked
    heartbeat-IsConfirmed l h =
        let beat = beat_of (env.clock l.world) (env.view l.world) l.loop in
        let ((answer, signals), w) = env.heartbeat beat l.world in
        answered (env.clock l.world) answer (after signals w l.loop) (stamps.heartbeat beat l.world)
          (k.heartbeat beat l.world h.kept)

    registration-IsConfirmed :
        (l : Local W) → IsConfirmed l → IsConfirmed (send_registration env c l).1
    unfolding send_registration
    registration-IsConfirmed l h =
        let ((answer, signals), w) = env.register l.world in
        answered (env.clock l.world) answer (after signals w l.loop) (stamps.register l.world)
          (k.register l.world h.kept)

    claim-IsConfirmed :
        (l : Local W)
        → ready_now env c l ≡ true
        → IsConfirmed l
        → IsConfirmed (send_claim env c l).1
    unfolding send_claim
    claim-IsConfirmed l ready h = claimed_in (env.claim l.world).0.0 _ (
        moved _ l.loop l.world _ h.bounded (stamps.claim l.world)
          (claim l.world (valid-InTime l h (ready-valid l ready)) h.kept))

    settlement-IsConfirmed :
        (job : ClaimedJob) (settlement : Settlement) (l : Local W)
        → control_available (env.clock l.world) l.loop ≡ true
        → IsConfirmed l
        → IsConfirmed (send_settlement env c job settlement l).1
    unfolding send_settlement
    settlement-IsConfirmed job settlement l valid h =
        settled (env.settle job settlement l.world).0.0 _ (
          moved _ l.loop l.world _ h.bounded (stamps.settle job settlement l.world)
            (settle job settlement l.world (valid-InTime l h valid) h.kept))

    IsConfirmed-Bears : Bears env c IsConfirmed
    unfolding lose_control control_failed await_stop request_stop request_drain
    IsConfirmed-Bears = record {
      beats = heartbeat-IsConfirmed;
      enrolls = registration-IsConfirmed;
      acquires = λ l h.
          moved _ l.loop l.world _ h.bounded (stamps.acquire l.world) (k.acquire l.world h.kept);
      sleeps = λ n l h.
          moved _ l.loop l.world _ h.bounded (stamps.sleep n l.world) (k.sleep n l.world h.kept);
      executes = λ n l h.
          moved _ l.loop l.world _ h.bounded (stamps.await_execution n l.world)
            (k.await_execution n l.world h.kept);
      checks = λ l h.
          moved _ l.loop l.world _ h.bounded (stamps.check_runtime l.world)
            (k.check_runtime l.world h.kept);
      inspects = λ job l h.
          moved _ l.loop l.world _ h.bounded (stamps.inspect job l.world)
            (k.inspect job l.world h.kept);
      cleans = λ job l h.
          moved _ (forgotten l.loop) l.world _ h.bounded (stamps.clean_up job l.world)
            (k.clean_up job l.world h.kept);
      starts = λ l h.
          moved _ l.loop l.world _ h.bounded (stamps.start_runtime l.world)
            (k.start_runtime l.world h.kept);
      loses = λ status l h. record { bounded = omega arith; kept = h.kept };
      forgets = λ l h. record { bounded = h.bounded; kept = h.kept };
      stops = λ fuel l h. record {
        bounded = omega (arith, h.bounded, stamps.await_stop l.world);
        kept = k.await_stop l.world h.kept;
      };
      finishes = λ fuel r l h. record {
        bounded = omega (arith, finish-valid fuel r l);
        kept = kept_finish env c C fuel r l k h.kept;
      };
      claims = claim-IsConfirmed;
      reports = λ job settlement l up valid h. settlement-IsConfirmed job settlement l valid h;
    }

    -- Throughout a run that starts without a longer acknowledgement, as a new Worker does, jobs are
    -- claimed and reported only within a heartbeat interval and a client timeout of the moment at
    -- which the last registration or heartbeat was sent: what every other operation on the world
    -- keeps, and a claim or a report at such a time, is kept by the whole run, and its
    -- acknowledgement is valid for no longer than that.
    pub run_forever-IsConfirmed :
        (fuel n : ℕ) (l : Local W) → IsConfirmed l → Leaves IsConfirmed (run_forever env c fuel n l)
    run_forever-IsConfirmed fuel n l h =
        run_forever-Leaves env c fuel IsConfirmed IsConfirmed-Bears n l h

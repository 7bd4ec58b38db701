-- ===== src/Worker/Loop/Drain.antt =====
-- A use of the theorem on runs: a drain that is asked for, before or during a run, ends the claims.
use astrum_weaver.Prelude.{
  ℕ, ◌≡◌, refl, sym, ◌∙◌, Bool, true, false, ◌||◌, Option, arith, Bool-cases, inl, inr,
}
use astrum_weaver.Worker.Run.{Leaves}
use astrum_weaver.Worker.Loop.{
  ClaimedJob, Loop, LoopSettings, Beat, Acknowledgement, request_drain, request_stop,
  control_failed,
}
use astrum_weaver.Worker.Loop.Rounds.{
  Answer, replied, transport, Signals, Settlement, Surroundings, Local, arrive, after, ready_now,
  lose_control, take_answer, heartbeat_locked, send_registration, took, settled_by, send_settlement,
  send_claim, claimed_by,
}
use astrum_weaver.Worker.Loop.Forever.{forgotten, await_stop, run_forever}
use astrum_weaver.Worker.Loop.Sends.{Bears}
use astrum_weaver.Worker.Loop.Runs.{run_forever-Leaves}
use astrum_weaver.Worker.Loop.Keeping.{
  Keeps, take_answer-world, take_answer-draining, not_ready, kept_finish, finish-draining,
}

arrive-draining :
    (signals : Signals) (s : Loop) (before : Bool)
    → (before ≡ true → s.draining ≡ true)
    → (before || (signals.drain || signals.stop)) ≡ true
    → (arrive signals s).draining ≡ true
unfolding arrive request_stop request_drain
arrive-draining signals s before h now = ground (arith, h, now)

-- Whether a drain or a stop has been asked for: what was asked before, or came in during the operation.
pub record Tells {W : Type 0} (env : Surroundings W) (asked : W → Bool) : Type 0 where
  pub acquire :
      (w : W)
      → let (signals, v) = env.acquire w in asked v ≡ asked w || (signals.drain || signals.stop)
  pub register :
      (w : W)
      → let ((answer, signals), v) = env.register w in
        asked v ≡ asked w || (signals.drain || signals.stop)
  pub heartbeat :
      (beat : Beat) (w : W)
      → let ((answer, signals), v) = env.heartbeat beat w in
        asked v ≡ asked w || (signals.drain || signals.stop)
  pub claim :
      (w : W)
      → let ((answer, signals), v) = env.claim w in
        asked v ≡ asked w || (signals.drain || signals.stop)
  pub settle :
      (claimed : ClaimedJob) (settlement : Settlement) (w : W)
      → let ((answer, signals), v) = env.settle claimed settlement w in
        asked v ≡ asked w || (signals.drain || signals.stop)
  pub inspect :
      (claimed : ClaimedJob) (w : W)
      → let ((answer, signals), v) = env.inspect claimed w in
        asked v ≡ asked w || (signals.drain || signals.stop)
  pub await_execution :
      (n : ℕ) (w : W)
      → let ((done, signals), v) = env.await_execution n w in
        asked v ≡ asked w || (signals.drain || signals.stop)
  pub check_runtime :
      (w : W)
      → let (signals, v) = env.check_runtime w in
        asked v ≡ asked w || (signals.drain || signals.stop)
  pub clean_up :
      (claimed : ClaimedJob) (w : W)
      → let (signals, v) = env.clean_up claimed w in
        asked v ≡ asked w || (signals.drain || signals.stop)
  pub sleep :
      (n : ℕ) (w : W)
      → let (signals, v) = env.sleep n w in asked v ≡ asked w || (signals.drain || signals.stop)
  pub start_runtime :
      (w : W)
      → let (signals, v) = env.start_runtime w in
        asked v ≡ asked w || (signals.drain || signals.stop)

module _ {W : Type 0} (env : Surroundings W) (c : LoopSettings) (asked : W → Bool)
    (C : W → Type 0) where
  -- The Worker drains if that was asked for, and `C` holds of the world.
  abbrev pub DrainsIn : Local W → Type 0
  DrainsIn l = (asked l.world ≡ true → l.loop.draining ≡ true) × C l.world

  answered :
      (sent_at : ℕ) (answer : Answer Acknowledgement) (l : Local W)
      → DrainsIn l
      → DrainsIn (take_answer env c sent_at answer l).1
  answered sent_at answer l (d, w) =
      rw (take_answer-draining env c sent_at answer l, take_answer-world env c sent_at answer l)
        (d, w)

  arrived :
      (signals : Signals) (before after' : W) (s : Loop)
      → asked after' ≡ asked before || (signals.drain || signals.stop)
      → (asked before ≡ true → s.draining ≡ true)
      → C after'
      → DrainsIn (after signals after' s)
  arrived signals before after' s told d h =
      ((λ now. arrive-draining signals s (asked before) d (sym told ∙ now)), h)

  settled :
      (answer : Answer (Unit {0})) (l : Local W)
      → DrainsIn l
      → DrainsIn (settled_by env c answer l).1
  unfolding settled_by took
  settled (transport status) l p = p
  settled (replied u) l p = p

  claimed_in :
      (answer : Answer (Option ClaimedJob)) (l : Local W)
      → DrainsIn l
      → DrainsIn (claimed_by env c answer l).1
  unfolding claimed_by took
  claimed_in (transport status) l p = p
  claimed_in (replied job) l p = p

  module _ (tells : Tells env asked) (k : Keeps env C)
      (claim : (w : W) → asked w ≡ false → C w → C (env.claim w).1)
      (settle : (job : ClaimedJob) (settlement : Settlement) (w : W)
        → C w
        → C (env.settle job settlement w).1) where
    heartbeat-DrainsIn : (l : Local W) → DrainsIn l → DrainsIn (heartbeat_locked env c l).1
    unfolding heartbeat_locked
    heartbeat-DrainsIn l (d, h) =
        answered _ _ _
          (arrived _ l.world _ l.loop (tells.heartbeat _ l.world) d (k.heartbeat _ l.world h))

    registration-DrainsIn : (l : Local W) → DrainsIn l → DrainsIn (send_registration env c l).1
    unfolding send_registration
    registration-DrainsIn l (d, h) =
        answered _ _ _
          (arrived _ l.world _ l.loop (tells.register l.world) d (k.register l.world h))

    settlement-DrainsIn :
        (job : ClaimedJob) (settlement : Settlement) (l : Local W)
        → DrainsIn l
        → DrainsIn (send_settlement env c job settlement l).1
    unfolding send_settlement
    settlement-DrainsIn job settlement l (d, h) =
        settled (env.settle job settlement l.world).0.0 _ (
          arrived _ l.world _ l.loop (tells.settle job settlement l.world) d
            (settle job settlement l.world h))

    claim-DrainsIn :
        (l : Local W) → ready_now env c l ≡ true → DrainsIn l → DrainsIn (send_claim env c l).1
    unfolding send_claim
    claim-DrainsIn l ready (d, h) =
        let unasked : asked l.world ≡ false = elim (Bool-cases (asked l.world)) [
          | inl e ↦ absurd (not_ready env c l (d e) ready)
          | inr e ↦ e
        ] in
        claimed_in (env.claim l.world).0.0 _
          (arrived _ l.world _ l.loop (tells.claim l.world) d (claim l.world unasked h))

    pub DrainsIn-Bears : Bears env c DrainsIn
    unfolding lose_control control_failed await_stop request_stop request_drain
    DrainsIn-Bears = record {
      beats = heartbeat-DrainsIn;
      enrolls = registration-DrainsIn;
      acquires = λ l p. arrived _ _ _ l.loop (tells.acquire l.world) p.0 (k.acquire l.world p.1);
      sleeps = λ n l p. arrived _ _ _ l.loop (tells.sleep n l.world) p.0 (k.sleep n l.world p.1);
      executes = λ n l p.
          arrived _ _ _ l.loop (tells.await_execution n l.world) p.0
            (k.await_execution n l.world p.1);
      checks = λ l p.
          arrived _ _ _ l.loop (tells.check_runtime l.world) p.0 (k.check_runtime l.world p.1);
      inspects = λ job l p.
          arrived _ _ _ l.loop (tells.inspect job l.world) p.0 (k.inspect job l.world p.1);
      cleans = λ job l p.
          arrived _ _ _ (forgotten l.loop) (tells.clean_up job l.world) p.0
            (k.clean_up job l.world p.1);
      starts = λ l p.
          arrived _ _ _ l.loop (tells.start_runtime l.world) p.0 (k.start_runtime l.world p.1);
      loses = λ status l p. p;
      forgets = λ l p. p;
      stops = λ fuel l p. ((λ now. refl), k.await_stop l.world p.1);
      finishes = λ fuel r l p.
          ((λ now. finish-draining env c fuel r l), kept_finish env c C fuel r l k p.1);
      claims = claim-DrainsIn;
      reports = λ job settlement l up valid p. settlement-DrainsIn job settlement l p;
    }

    -- If a drain or a stop comes in before or during a run, whenever that is, the run never withdraws
    -- it and sends no claim from then on: what every other operation on the world keeps, and a claim
    -- that is sent while nothing has been asked for, is kept by the whole run, and at its end the
    -- Worker drains if that was asked for.
    pub run_forever-DrainsIn :
        (fuel n : ℕ) (l : Local W)
        → (asked l.world ≡ true → l.loop.draining ≡ true)
        → C l.world
        → Leaves DrainsIn (run_forever env c fuel n l)
    run_forever-DrainsIn fuel n l d h =
        run_forever-Leaves env c fuel DrainsIn DrainsIn-Bears n l (d, h)

-- ===== src/Worker/Loop/Keeping.antt =====
-- What the operations of a run keep, and what its end does: lemmas that Drain and Bounds share.
use astrum_weaver.Prelude.{
  ℕ, ◌≡◌, refl, Bool, true, false, Option, none, some, arith, Bool-cases, inl, inr,
}
use astrum_weaver.Control.Models.{WorkerState}
use astrum_weaver.Worker.Loop.{
  ClaimedJob, Loop, LoopSettings, Beat, Acknowledgement, drains, is_ready, request_drain,
  request_stop, control_failed, confirmed_state, acknowledge,
}
use astrum_weaver.Worker.Loop.Rounds.{
  Answer, replied, transport, Signals, Surroundings, Local, arrive, ready_now, lose_control,
  take_answer,
}
use astrum_weaver.Worker.Loop.Forever.{finish, closed, leave, set_offline}
use astrum_weaver.Result.{Result, ok, err}

pub arrive-valid : (signals : Signals) (s : Loop) → (arrive signals s).valid_until ≡ s.valid_until
unfolding arrive request_stop request_drain
arrive-valid signals s = ground arith

-- What every operation on the world but a claim and a report keeps.
pub record Keeps {W : Type 0} (env : Surroundings W) (C : W → Type 0) : Type 0 where
  pub acquire : (w : W) → C w → C (env.acquire w).1
  pub register : (w : W) → C w → C (env.register w).1
  pub heartbeat : (beat : Beat) (w : W) → C w → C (env.heartbeat beat w).1
  pub inspect : (claimed : ClaimedJob) (w : W) → C w → C (env.inspect claimed w).1
  pub await_execution : (n : ℕ) (w : W) → C w → C (env.await_execution n w).1
  pub check_runtime : (w : W) → C w → C (env.check_runtime w).1
  pub clean_up : (claimed : ClaimedJob) (w : W) → C w → C (env.clean_up claimed w).1
  pub sleep : (n : ℕ) (w : W) → C w → C (env.sleep n w).1
  pub start_runtime : (w : W) → C w → C (env.start_runtime w).1
  pub await_stop : (w : W) → C w → C (env.await_stop w)
  pub close_runtime : (w : W) → C w → C (env.close_runtime w).1
  pub set_offline : (w : W) → C w → C (env.set_offline w).1

module _ {W : Type 0} (env : Surroundings W) (c : LoopSettings) where
  pub take_answer-world :
      (sent_at : ℕ) (answer : Answer Acknowledgement) (l : Local W)
      → (take_answer env c sent_at answer l).1.world ≡ l.world
  unfolding take_answer lose_control
  take_answer-world sent_at (transport status) l = refl
  take_answer-world sent_at (replied a) l = refl

  acknowledge-draining :
      (sent_at now : ℕ) (state : Option WorkerState) (s : Loop)
      → (acknowledge c sent_at now state s).1.draining ≡ s.draining
  unfolding acknowledge control_failed
  acknowledge-draining sent_at now none s = refl
  acknowledge-draining sent_at now (some state) s = refl

  pub take_answer-draining :
      (sent_at : ℕ) (answer : Answer Acknowledgement) (l : Local W)
      → (take_answer env c sent_at answer l).1.loop.draining ≡ l.loop.draining
  unfolding take_answer lose_control control_failed
  take_answer-draining sent_at (transport status) l = refl
  take_answer-draining sent_at (replied a) l =
      acknowledge-draining sent_at _ (confirmed_state c a) l.loop

  pub not_ready : (l : Local W) → l.loop.draining ≡ true → ready_now env c l ≡ true → ⊥
  unfolding is_ready drains
  not_ready l d h = ground (arith, d, h)

  pub kept_set_offline :
      (C : W → Type 0) (fuel : ℕ) (registered : Bool) (w : W)
      → Keeps env C
      → C w
      → C (set_offline env c fuel registered w)
  unfolding set_offline
  kept_set_offline C fuel true w k h = k.set_offline w h
  kept_set_offline C fuel false w k h = h

  kept_leave :
      (C : W → Type 0) (fuel : ℕ) (r : Result (Unit {0})) (s : Loop)
      (closed : Result (Unit {0}) × W)
      → Keeps env C
      → C closed.1
      → C (leave env c fuel r s closed).1.world
  unfolding leave
  kept_leave C fuel r s (err e, w) k h = h
  kept_leave C fuel r s (ok u, w) k h = kept_set_offline C fuel s.registered w k h

  kept_closed : (C : W → Type 0) (fuel : ℕ) (w : W) → Keeps env C → C w → C (closed env c fuel w).1
  unfolding closed
  kept_closed C fuel w k h = elim (Bool-cases env.supervised) [
    | inl e ↦ rw e (k.close_runtime w h)
    | inr e ↦ rw e h
  ]

  -- The end of a run keeps what its operations keep.
  pub kept_finish :
      (C : W → Type 0) (fuel : ℕ) (r : Result (Unit {0})) (l : Local W)
      → Keeps env C
      → C l.world
      → C (finish env c fuel r l).1.world
  unfolding finish
  kept_finish C fuel r l k h =
      kept_leave C fuel r (record (request_stop l.loop) { valid_until = 0 })
        (closed env c fuel l.world) k (kept_closed C fuel l.world k h)

  leave-draining :
      (fuel : ℕ) (r : Result (Unit {0})) (s : Loop) (closed : Result (Unit {0}) × W)
      → (leave env c fuel r s closed).1.loop.draining ≡ s.draining
  unfolding leave
  leave-draining fuel r s (err e, w) = refl
  leave-draining fuel r s (ok u, w) = refl

  pub finish-draining :
      (fuel : ℕ) (r : Result (Unit {0})) (l : Local W)
      → (finish env c fuel r l).1.loop.draining ≡ true
  unfolding finish request_stop request_drain
  finish-draining fuel r l = leave-draining fuel r _ _

-- ===== src/Worker/Loop.antt =====
-- `WorkerRuntime` of worker/runtime.py: when a Worker is ready, what a heartbeat says, and what an
-- acknowledgement changes. Times are microseconds; a time of 0 is in the past.
pub mod Rounds
pub mod Forever
pub mod Sends
pub mod Runs
pub mod Keeping
pub mod Drain
pub mod Bounds
pub mod Witnesses
use astrum_weaver.Prelude.{
  ℕ, ◌+◌, ◌-◌, String, Bool, true, false, ◌&&◌, ◌||◌, not, Option, none, some, nat_eq, ltb,
  if◌then◌else◌,
}
use astrum_weaver.Control.Models.{WorkerState, draining, is_online, is_offline}
use astrum_weaver.Contracts.{WorkerSpec}
use astrum_weaver.Contracts.Equality.{spec_eq}
use astrum_weaver.Result.{
  Result, ok, err, value_error, transport_error, ◌>>=◌, ◌>>◌, require, refuse,
}

-- `ClaimedJob`, as far as the loop reads it
pub record ClaimedJob : Type 0 where
  pub job_id : String
  pub lease_token : String

-- The fields of `WorkerRuntime` that its methods change.
pub record Loop : Type 0 where
  pub stopped : Bool
  pub draining : Bool
  pub registered : Bool
  pub control_state : Option WorkerState
  pub valid_until : ℕ
  pub next_heartbeat : ℕ
  pub active : Option ClaimedJob

-- Those that it is made with, and the client's timeout.
pub record LoopSettings : Type 0 where
  pub spec : WorkerSpec
  pub max_concurrency : ℕ
  pub poll_interval : ℕ
  pub heartbeat_interval : ℕ
  pub client_timeout : ℕ

-- `WorkerRuntime(...)`
unfoldable pub worker_runtime : LoopSettings → Result Loop
worker_runtime c = do
  require (nat_eq c.max_concurrency 1)
      (value_error "v1 WorkerRuntime currently requires max_concurrency=1")
  refuse (nat_eq c.poll_interval 0 || nat_eq c.heartbeat_interval 0)
      (value_error "worker intervals must be finite and positive")
  ok (record {
    stopped = false;
    draining = false;
    registered = false;
    control_state = none;
    valid_until = 0;
    next_heartbeat = 0;
    active = none;
  })

-- What the supervisor says of the runtime; without one it is available and has not failed.
pub record RuntimeView : Type 0 where
  pub available : Bool
  pub failed : Bool

unfoldable pub control_available : ℕ → Loop → Bool
control_available now s = ltb now s.valid_until

state_is : (WorkerState → Bool) → Option WorkerState → Bool
state_is test none = false
state_is test (some state) = test state

is_draining_state : WorkerState → Bool
is_draining_state draining = true
is_draining_state _ = false

-- The property `draining`
unfoldable pub drains : RuntimeView → Loop → Bool
unfolding state_is is_draining_state
drains view s = s.draining || (state_is is_draining_state s.control_state || view.failed)

-- The property `ready`
unfoldable pub is_ready : ℕ → RuntimeView → Loop → Bool
unfolding drains control_available state_is
is_ready now view s =
    not s.stopped
    && (s.registered
        && (not (drains view s)
            && (control_available now s && (state_is is_online s.control_state && view.available))))

unfoldable pub request_drain : Loop → Loop
request_drain s = record s { draining = true }

unfoldable pub request_stop : Loop → Loop
unfolding request_drain
request_stop s = record (request_drain s) { stopped = true }

-- `exc.status_code in (401, 403, 404)`
loses_registration : ℕ → Bool
loses_registration status = nat_eq status 401 || (nat_eq status 403 || nat_eq status 404)

-- `_control_failed`, at an instant
unfoldable pub control_failed : LoopSettings → ℕ → ℕ → Loop → Loop
unfolding loses_registration
control_failed c now status s = record s {
  valid_until = 0;
  registered = s.registered && not (loses_registration status);
  next_heartbeat = now + c.heartbeat_interval;
}

-- The answer to a registration or a heartbeat, by its fields: the state if it names one, and the
-- identity if it can be read.
pub record Acknowledgement : Type 0 where
  pub protocol_matches : Bool
  pub state : Option WorkerState
  pub spec : Option WorkerSpec
  pub max_concurrency : Option ℕ

abbrev same_capacity : Option ℕ → ℕ → Bool
same_capacity none n = false
same_capacity (some m) n = nat_eq m n

same_spec : Option WorkerSpec → WorkerSpec → Bool
unfolding spec_eq
same_spec none spec = false
same_spec (some observed) spec = spec_eq observed spec

-- The state that an acknowledgement confirms, if it is this Worker's.
unfoldable pub confirmed_state : LoopSettings → Acknowledgement → Option WorkerState
unfolding same_spec
confirmed_state c a =
    if a.protocol_matches
      && (same_spec a.spec c.spec && same_capacity a.max_concurrency c.max_concurrency)
    then a.state
    else none

-- `_acknowledge_control`, once the answer is judged
unfoldable pub acknowledge :
    LoopSettings → ℕ → ℕ → Option WorkerState → Loop → Result (Unit {0}) × Loop
unfolding control_failed
acknowledge c sent_at now none s = (err (transport_error 502), control_failed c now 502 s)
acknowledge c sent_at now (some state) s = (
  ok tt,
  record s {
    registered = true;
    control_state = some state;
    valid_until = sent_at + c.heartbeat_interval + c.client_timeout;
  },
)

-- What a heartbeat sends: the attempt's identity and token, and a state if one is asked for.
pub record Beat : Type 0 where
  pub job : Option ClaimedJob
  pub state : Option WorkerState

-- The message of `_heartbeat_locked`: DRAINING only under a valid acknowledgement and not from OFFLINE.
unfoldable pub beat_of : ℕ → RuntimeView → Loop → Beat
unfolding control_available state_is
beat_of now view s = record {
  job = s.active;
  state =
      if (s.draining || view.failed)
        && (control_available now s && not (state_is is_offline s.control_state))
      then some draining
      else none;
}

-- The seconds that `_wait_for_poll` waits.
unfoldable pub poll_delay : LoopSettings → ℕ → Loop → ℕ
poll_delay c now s =
    let due = s.next_heartbeat - now in if ltb due c.poll_interval then due else c.poll_interval

-- ===== src/Worker/Loop/Witnesses.antt =====
-- A Worker whose control plane answers, and the theorems on its runs applied to it.
use astrum_weaver.Prelude.{
  ℕ, suc, ◌+◌, ◌≡◌, refl, Bool, true, false, ◌||◌, Option, none, some, leb, ltb, arith,
  if◌then◌else◌,
}
use astrum_weaver.Control.Models.{online}
use astrum_weaver.Control.Repository.Examples.{worker_spec_of}
use astrum_weaver.Contracts.Equality.{spec_eq}
use astrum_weaver.Worker.Run.{Leaves}
use astrum_weaver.Worker.Loop.{Loop, LoopSettings, Acknowledgement, worker_runtime, is_ready}
use astrum_weaver.Worker.Loop.Rounds.{replied, Signals, Surroundings, Local}
use astrum_weaver.Worker.Loop.Forever.{run_forever, finish}
use astrum_weaver.Worker.Loop.Runs.{run_forever-Leaves}
use astrum_weaver.Worker.Loop.Keeping.{Keeps}
use astrum_weaver.Worker.Loop.Drain.{Tells, DrainsIn, DrainsIn-Bears, run_forever-DrainsIn}
use astrum_weaver.Worker.Loop.Bounds.{Stamps, InTime, IsConfirmed, run_forever-IsConfirmed}
use astrum_weaver.Result.{Result, ok, err, runtime_error}

-- The time, how many claims were sent, how many of them after a drain was asked for, how many claims
-- and reports came too late, whether a drain was asked for, and when the last heartbeat was sent.
record Room : Type 0 where
  time : ℕ
  claims : ℕ
  late : ℕ
  untimely : ℕ
  asked : Bool
  sent : ℕ

abbrev quiet : Signals
quiet = record { drain = false; stop = false }

abbrev accepted : Acknowledgement
accepted = record {
  protocol_matches = true;
  state = some online;
  spec = some (worker_spec_of "w1" "GPU-a");
  max_concurrency = some 1;
}

judged : Room → ℕ
judged w = if ltb w.time (w.sent + 10 + 20) then w.untimely else suc w.untimely

after_drain : Room → ℕ
after_drain w = if w.asked then suc w.late else w.late

-- A drain comes in once the time is 20, and a stop once it is 40.
due_signals : ℕ → Signals
due_signals time = record { drain = leb 20 time; stop = leb 40 time }

slept : ℕ → Room → Room
unfolding due_signals
slept n w = record w {
  time = w.time + n;
  asked = w.asked || ((due_signals w.time).drain || (due_signals w.time).stop);
}

abbrev requested : Room → Room
requested w = record w { time = w.time + 1; sent = w.time }

claimed_at : Room → Room
unfolding judged after_drain
claimed_at w = record w {
  time = w.time + 1;
  claims = suc w.claims;
  late = after_drain w;
  untimely = judged w;
}

abbrev surroundings : Surroundings Room
surroundings = record {
  clock = λ w. w.time;
  view = λ w. record { available = true; failed = false };
  supervised = true;
  acquire = λ w. (quiet, w);
  register = λ w. ((replied accepted, quiet), requested w);
  heartbeat = λ beat w. ((replied accepted, quiet), requested w);
  claim = λ w. ((replied none, quiet), claimed_at w);
  settle = λ claimed settlement w. ((replied tt, quiet), record w { untimely = judged w });
  inspect = λ claimed w. ((replied none, quiet), w);
  await_execution = λ n w. ((none, quiet), w);
  check_runtime = λ w. (quiet, w);
  clean_up = λ claimed w. (quiet, w);
  sleep = λ n w. (due_signals w.time, slept n w);
  start_runtime = λ w. (quiet, w);
  await_stop = λ w. w;
  close_runtime = λ w. (ok tt, w);
  set_offline = λ w. (replied tt, w);
}

abbrev settings : LoopSettings
settings = record {
  spec = worker_spec_of "w1" "GPU-a";
  max_concurrency = 1;
  poll_interval = 5;
  heartbeat_interval = 10;
  client_timeout = 20;
}

abbrev fresh : Loop
fresh = record {
  stopped = false;
  draining = false;
  registered = false;
  control_state = none;
  valid_until = 0;
  next_heartbeat = 0;
  active = none;
}

fresh_start : worker_runtime settings ≡ ok fresh
unfolding worker_runtime
fresh_start = refl

abbrev idle : Local Room
idle = record {
  loop = fresh;
  world = record { time = 1; claims = 0; late = 0; untimely = 0; asked = false; sent = 0 };
}

-- No claim was sent after a drain was asked for.
abbrev Prompt : Room → Type 0
Prompt w = w.late ≡ 0

Prompt-Keeps : Keeps surroundings Prompt
unfolding slept
Prompt-Keeps = record {
  acquire = λ w h. h;
  register = λ w h. h;
  heartbeat = λ beat w h. h;
  inspect = λ claimed w h. h;
  await_execution = λ n w h. h;
  check_runtime = λ w h. h;
  clean_up = λ claimed w h. h;
  sleep = λ n w h. h;
  start_runtime = λ w h. h;
  await_stop = λ w h. h;
  close_runtime = λ w h. h;
  set_offline = λ w h. h;
}

asked_then : Room → Bool
asked_then w = w.asked

or_false : (b : Bool) → b ≡ b || (false || false)
or_false b = ground arith

asked-Tells : Tells surroundings asked_then
unfolding asked_then slept claimed_at
asked-Tells = record {
  acquire = λ w. or_false w.asked;
  register = λ w. or_false w.asked;
  heartbeat = λ beat w. or_false w.asked;
  claim = λ w. or_false w.asked;
  settle = λ claimed settlement w. or_false w.asked;
  inspect = λ claimed w. or_false w.asked;
  await_execution = λ n w. or_false w.asked;
  check_runtime = λ w. or_false w.asked;
  clean_up = λ claimed w. or_false w.asked;
  sleep = λ n w. refl;
  start_runtime = λ w. or_false w.asked;
}

claimed_at-Prompt : (w : Room) → asked_then w ≡ false → Prompt w → Prompt (claimed_at w)
unfolding asked_then claimed_at after_drain
claimed_at-Prompt w unasked h = rw unasked h

run_forever-DrainsIn_example :
    Leaves
      (DrainsIn surroundings settings asked_then Prompt)
      (run_forever surroundings settings 3 20 idle)
run_forever-DrainsIn_example =
    run_forever-DrainsIn surroundings settings asked_then Prompt asked-Tells Prompt-Keeps
      claimed_at-Prompt (λ job settlement w h. h) 3 20 idle
      (unfold asked_then in (λ h. absurd (cc h))) refl

run_forever-Leaves_example :
    Leaves
      (DrainsIn surroundings settings asked_then Prompt)
      (run_forever surroundings settings 3 20 idle)
run_forever-Leaves_example =
    run_forever-Leaves surroundings settings 3 (DrainsIn surroundings settings asked_then Prompt)
      (DrainsIn-Bears surroundings settings asked_then Prompt asked-Tells Prompt-Keeps
        claimed_at-Prompt (λ job settlement w h. h))
      20 idle ((unfold asked_then in (λ h. absurd (cc h))), refl)

-- No claim or report came too late.
abbrev Timely : Room → Type 0
Timely w = w.untimely ≡ 0

Timely-Keeps : Keeps surroundings Timely
unfolding slept
Timely-Keeps = record {
  acquire = λ w h. h;
  register = λ w h. h;
  heartbeat = λ beat w h. h;
  inspect = λ claimed w h. h;
  await_execution = λ n w h. h;
  check_runtime = λ w h. h;
  clean_up = λ claimed w h. h;
  sleep = λ n w h. h;
  start_runtime = λ w h. h;
  await_stop = λ w h. h;
  close_runtime = λ w h. h;
  set_offline = λ w h. h;
}

sent_at : Room → ℕ
sent_at w = w.sent

sent-Stamps : Stamps surroundings sent_at
unfolding sent_at slept claimed_at
sent-Stamps = record {
  register = λ w. refl;
  heartbeat = λ beat w. refl;
  acquire = λ w. refl;
  claim = λ w. refl;
  settle = λ job settlement w. refl;
  inspect = λ job w. refl;
  await_execution = λ n w. refl;
  check_runtime = λ w. refl;
  clean_up = λ job w. refl;
  sleep = λ n w. refl;
  start_runtime = λ w. refl;
  await_stop = λ w. refl;
}

timely : (w : Room) → InTime surroundings settings sent_at Timely w → Timely w → judged w ≡ 0
unfolding sent_at judged
timely w soon h = ground (arith, soon, h)

claimed_at-Timely :
    (w : Room) → InTime surroundings settings sent_at Timely w → Timely w → Timely (claimed_at w)
unfolding claimed_at
claimed_at-Timely w soon h = timely w soon h

idle-IsConfirmed : IsConfirmed surroundings settings sent_at Timely idle
idle-IsConfirmed = record { bounded = omega arith; kept = refl }

run_forever-IsConfirmed_example :
    Leaves
      (IsConfirmed surroundings settings sent_at Timely)
      (run_forever surroundings settings 3 20 idle)
run_forever-IsConfirmed_example =
    run_forever-IsConfirmed surroundings settings sent_at Timely sent-Stamps Timely-Keeps
      claimed_at-Timely (λ job settlement w soon h. timely w soon h) 3 20 idle idle-IsConfirmed

claims_of : Option (Result (Unit {0}) × Local Room) → ℕ
claims_of none = 0
claims_of (some (r, l)) = l.world.claims

-- The Worker claims until the drain comes in, not until the stop.
few_claims : claims_of (run_forever surroundings settings 3 20 idle) ≡ 4
unfolding run_forever spec_eq claims_of is_ready slept claimed_at due_signals
few_claims = refl

-- A shutdown that fails ends the run with its error, and the Worker stays registered.
abbrev failing : Surroundings Room
failing = record surroundings { close_runtime = λ w. (err (runtime_error "shutdown failed"), w) }

stays_registered :
    finish failing settings 3 (ok tt) (record idle { loop = record fresh { registered = true } })
    ≡ (
      err (runtime_error "shutdown failed"),
      record idle { loop = record fresh { registered = true; stopped = true; draining = true } },
    )
unfolding finish
stays_registered = refl

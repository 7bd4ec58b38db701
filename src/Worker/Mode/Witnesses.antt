-- ===== src/Worker/Mode/Witnesses.antt =====
-- A machine with one Worker service, and the theorems on handovers applied to it.
use astrum_weaver.Prelude.{
  ℕ, ◌+◌, ◌≡◌, refl, sym, ap, Bool, true, false, not, ◌||◌, none, some, List, [], ◌∷◌, ◌==◌, pos,
  if◌then◌else◌, arith,
}
use astrum_weaver.Dict.{get, put}
use astrum_weaver.Value.{null, bool, Mapping}
use astrum_weaver.Worker.Run.{Ends, Leaves}
use astrum_weaver.Worker.Mode.{
  Machine, ModeReport, development, astrumweaver, GpuProcess, to_development, to_astrumweaver,
}
use astrum_weaver.Worker.Mode.Handover.{
  IsReleased, IsAtWork, to_development-IsReleased, to_astrumweaver-IsAtWork,
}
use astrum_weaver.Worker.Mode.Ending.{IsTimely, handover-Ends}
use astrum_weaver.Worker.Mode.Guards.Waits.{Tolerates}
use astrum_weaver.Worker.Mode.Guards.{handover-Leaves}
use astrum_weaver.Worker.Mode.Probes.{Runner, active_processes}
use astrum_weaver.Worker.Mode.Probes.Free.{SawFree, active_processes-SawFree}
use astrum_weaver.Result.{Result, ok}

-- The service, the time, whether the last call saw the GPUs free, and whether a start did not follow
-- such a call.
record World : Type 0 where
  active : Bool
  draining : Bool
  time : ℕ
  saw_free : Bool
  rash : Bool

abbrev health : World → Mapping
health w =
    ("ready", bool (not w.draining)) ∷ ("draining", bool w.draining) ∷ ("active_job_id", null) ∷ []

abbrev looked : World → World
looked w = record w { saw_free = false }

abbrev machine : Machine World
machine = record {
  is_active = λ w. (ok w.active, looked w);
  request_drain = λ w. (ok tt, record w { draining = true; saw_free = false });
  stop = λ w. (ok tt, record w { active = false; draining = false; saw_free = false });
  start = λ w. (
    ok tt,
    record w { active = true; draining = false; rash = w.rash || not w.saw_free; saw_free = false },
  );
  snapshot = λ w. (ok (if w.active then some (health w) else none), looked w);
  require_exact_identity = λ w. (ok tt, looked w);
  active_processes = λ w. (ok [], record w { saw_free = true });
  clock = λ w. w.time;
  sleep = λ n w. record w { time = w.time + n; saw_free = false };
  text_of = λ v. "job";
}

abbrev working : World
working = record { active = true; draining = false; time = 5; saw_free = false; rash = false }

abbrev resting : World
resting = record { active = false; draining = false; time = 5; saw_free = false; rash = false }

abbrev at_rest : ModeReport
at_rest = record {
  mode = development;
  service_active = false;
  worker_ready = false;
  worker_draining = false;
  active_job_id = none;
  gpu_processes = [];
}

abbrev at_work : ModeReport
at_work = record {
  mode = astrumweaver;
  service_active = true;
  worker_ready = true;
  worker_draining = false;
  active_job_id = none;
  gpu_processes = [];
}

to_development-IsReleased_example :
    IsReleased machine 1 9 at_rest (record resting { saw_free = true })
unfolding to_development get
to_development-IsReleased_example =
    to_development-IsReleased machine 1 9 (some 8) working (record resting { saw_free = true })
      at_rest refl

to_astrumweaver-IsAtWork_example : IsAtWork machine 1 9 at_work (record working { saw_free = true })
unfolding to_astrumweaver get
to_astrumweaver-IsAtWork_example =
    to_astrumweaver-IsAtWork machine 1 9 8 none resting (record working { saw_free = true }) at_work
      refl

machine-IsTimely : IsTimely machine 1
machine-IsTimely = record {
  active_later = λ w. omega arith;
  snapshot_later = λ w. omega arith;
  sleep_later = λ w. omega arith;
}

handover-Ends_example :
    Ends (to_development machine 1 9 (some 8) working)
    × Ends (to_astrumweaver machine 1 9 7 (some 8) working)
handover-Ends_example =
    handover-Ends machine 1 9 machine-IsTimely 7 8 working (omega arith) (omega arith)

careful_start :
    (w v : World)
    → v.rash ≡ false
    → machine.active_processes w ≡ (ok [], v)
    → (machine.start v).1.rash ≡ false
careful_start w v calm seen =
    let same : record w { saw_free = true } ≡ v =
      ap (λ (x : Result (List GpuProcess) × World). x.1) seen in
    let free : v.saw_free ≡ true = sym (ap (λ (x : World). x.saw_free) same) in
    ground (arith, calm, free)

machine-Tolerates : Tolerates machine 1 9 (λ w. w.rash ≡ false)
machine-Tolerates = record {
  is_active = λ w p. p;
  snapshot = λ w p. p;
  request_drain = λ w p. p;
  identity = λ w p. p;
  processes = λ w p. p;
  sleep = λ w p. p;
  start = careful_start;
  stop = λ w v u p d a. p;
}

handover-Leaves_example :
    Leaves (λ w. w.rash ≡ false) (to_development machine 1 9 none working)
    × Leaves (λ w. w.rash ≡ false) (to_astrumweaver machine 1 9 7 none working)
handover-Leaves_example =
    handover-Leaves machine 1 9 (λ w. w.rash ≡ false) machine-Tolerates 7 none working refl

abbrev nvidia_smi : Runner
nvidia_smi arguments = elim arguments [
  | [] ↦ none
  | first ∷ rest ↦ some (record {
    returncode = pos 0;
    stdout =
        if first == "pmon"
        then "# gpu pid type\n 0 - -\n 1 4711 C - - - - trainer\n"
        else "0, GPU-a\n1, GPU-b\n";
    stderr = "";
  })
]

active_processes-SawFree_example : SawFree nvidia_smi ("GPU-a" ∷ [])
unfolding active_processes get put
active_processes-SawFree_example = active_processes-SawFree nvidia_smi ("GPU-a" ∷ []) refl

busy :
    active_processes nvidia_smi ("GPU-b" ∷ [])
    ≡ ok (
        record { pid = pos 4711; gpu_uuid = "GPU-b"; process_type = "C"; process_name = "trainer" }
        ∷ [])
unfolding active_processes get put
busy = refl

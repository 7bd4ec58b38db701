-- ===== src/Contracts/Witnesses.antt =====
-- The theorems on the contracts and on matching, at small workers.
use astrum_weaver.Prelude.{◌≡◌, refl, ◌↔◌, true, none, List, [], ◌∷◌, pos}
use astrum_weaver.Sets.{contains, tuple_eq}
use astrum_weaver.Dict.{put}
use astrum_weaver.Text.{strip}
use astrum_weaver.Contracts.{
  ResourceShape, resource_shape, AcceleratorDevice, WorkerSpec, WorkerSpecArgs, worker_spec,
  JobRequirements, many, unique_strings, require_nonblank, normalize_labels, collect, check_devices,
  sum_memory, max_memory,
}
use astrum_weaver.Contracts.Shapes.{
  IsShape, resource_shape_iff, IsConsistent, worker_spec-IsConsistent,
}
use astrum_weaver.Contracts.Names.{unique_strings-unique_strings}
use astrum_weaver.Scheduling.{worker_matches}
use astrum_weaver.Scheduling.Matching.{Satisfies, worker_matches_iff}
use astrum_weaver.Result.{ok}

abbrev two_gpus : ResourceShape
two_gpus = record { gpu_count = 2; total_vram_mb = 40000; max_single_gpu_vram_mb = 24000 }

abbrev two_devices : List AcceleratorDevice
two_devices =
    record { uuid = "GPU-A"; memory_mb = 24000; compute_capability = none; device_class = none }
    ∷ record { uuid = "GPU-B"; memory_mb = 16000; compute_capability = none; device_class = none }
    ∷ []

abbrev raw_worker : WorkerSpecArgs
raw_worker = record {
  worker_id = " w1 ";
  worker_class = "gpu-worker";
  resources = two_gpus;
  gpu_uuids = many ("GPU-A" ∷ "GPU-B " ∷ []);
  accelerators = two_devices;
  capabilities = many ("encode" ∷ []);
  labels = ("zone", "b") ∷ [];
}

abbrev worker : WorkerSpec
worker = record {
  worker_id = "w1";
  worker_class = "gpu-worker";
  resources = two_gpus;
  gpu_uuids = "GPU-A" ∷ "GPU-B" ∷ [];
  accelerators = two_devices;
  capabilities = "encode" ∷ [];
  labels = ("zone", "b") ∷ [];
}

abbrev needs : JobRequirements
needs = record {
  worker_class = none;
  required_capabilities = "encode" ∷ [];
  required_labels = ("zone", "b") ∷ [];
  required_gpu_uuids = [];
  min_gpu_count = 1;
  min_total_vram_mb = 30000;
  min_single_gpu_vram_mb = 20000;
}

raw_worker-accepted : worker_spec raw_worker ≡ ok worker
unfolding worker_spec require_nonblank strip unique_strings collect contains normalize_labels
    check_devices tuple_eq sum_memory max_memory put
raw_worker-accepted = refl

names-accepted :
    unique_strings (many (" encode" ∷ "decode " ∷ [])) "capabilities"
    ≡ ok ("encode" ∷ "decode" ∷ [])
unfolding unique_strings collect strip contains
names-accepted = refl

resource_shape_iff_example : (resource_shape (pos 2) (pos 40000) (pos 24000) ≡ ok two_gpus) ↔ (
    (pos 2 ≡ pos two_gpus.gpu_count)
    × (pos 40000 ≡ pos two_gpus.total_vram_mb)
    × (pos 24000 ≡ pos two_gpus.max_single_gpu_vram_mb)
    × IsShape two_gpus)
resource_shape_iff_example = resource_shape_iff (pos 2) (pos 40000) (pos 24000) two_gpus

worker_spec-IsConsistent_example : IsConsistent worker
worker_spec-IsConsistent_example = worker_spec-IsConsistent raw_worker worker raw_worker-accepted

unique_strings-unique_strings_example :
    unique_strings (many ("encode" ∷ "decode" ∷ [])) "capabilities" ≡ ok ("encode" ∷ "decode" ∷ [])
unique_strings-unique_strings_example =
    unique_strings-unique_strings (many (" encode" ∷ "decode " ∷ [])) "capabilities"
      ("encode" ∷ "decode" ∷ []) names-accepted

worker_matches_iff_example : (worker_matches worker needs ≡ true) ↔ Satisfies worker needs
worker_matches_iff_example = worker_matches_iff worker needs

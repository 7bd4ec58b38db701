-- ===== src/Runtime/Planner/Witnesses.antt =====
-- The theorems on the planner, at a small host with one provider.
use astrum_weaver.Prelude.{◌≡◌, refl, ◌↔◌, false, some, none, [], ◌∷◌}
use astrum_weaver.Dict.{Dict, get}
use astrum_weaver.Sets.{option_eq}
use astrum_weaver.Contracts.{WorkerSpec}
use astrum_weaver.Runtime.Demand.{
  RuntimeCompatibilityContext, RuntimeProvider, RuntimeSelection, explicit, prefer_vram, single_gpu,
  dense, compatible, effective_min_gpu_count,
}
use astrum_weaver.Runtime.Planner.{
  RuntimeResolution, resolved, resolve_runtime, generic_reasons, evaluate_all, evaluate_provider,
  sort_entries, select_runtime, runtime_resolution,
}
use astrum_weaver.Runtime.Planner.Compatibility.{FitsDemand, blocks, generic_reasons_iff}
use astrum_weaver.Runtime.Planner.Resolution.{Selected, resolve_runtime-Selected}

abbrev one_gpu : WorkerSpec
one_gpu = record {
  worker_id = "w1";
  worker_class = "gpu-worker";
  resources = record { gpu_count = 1; total_vram_mb = 24000; max_single_gpu_vram_mb = 24000 };
  gpu_uuids = "GPU-A" ∷ [];
  accelerators = [];
  capabilities = [];
  labels = [];
}

abbrev context : RuntimeCompatibilityContext
context = record {
  worker = one_gpu;
  host = record { cpu_count = 8; host_ram_mb = 32000; architecture = "x86_64"; labels = [] };
  demand = record {
    model = record {
      model_ref = "m";
      model_format = "gguf";
      topology = dense;
      estimated_size_mb = none;
      metadata = [];
    };
    residency_policy = prefer_vram;
    gpu_topology = single_gpu;
    min_gpu_count = 1;
    min_total_vram_mb = 16000;
    min_single_gpu_vram_mb = 16000;
    min_host_ram_mb = 8000;
    preferred_host_ram_mb = 64000;
    metadata = [];
  };
}

abbrev provider : RuntimeProvider
provider = record {
  info = record { provider_id = "vllm"; display_name = "vLLM"; description = "" };
  compatibility = λ c. record { provider_id = "vllm"; reasons = [] };
}

abbrev catalog : Dict RuntimeProvider
catalog = ("vllm", provider) ∷ []

abbrev selection : RuntimeSelection
selection = record { mode = explicit; provider_id = some "vllm" }

abbrev resolution : RuntimeResolution
resolution = record {
  selection = selection;
  selected_provider_id = some "vllm";
  compatible_provider_ids = "vllm" ∷ [];
  reports = ("vllm", record { provider_id = "vllm"; reasons = generic_reasons context }) ∷ [];
}

resolution-found : resolve_runtime catalog context selection ≡ resolved resolution
unfolding resolve_runtime evaluate_all sort_entries evaluate_provider select_runtime get compatible
    generic_reasons effective_min_gpu_count runtime_resolution option_eq
resolution-found = refl

generic_reasons_iff_example : (blocks (generic_reasons context) ≡ false) ↔ FitsDemand context
generic_reasons_iff_example = generic_reasons_iff context

resolve_runtime-Selected_example :
    (selection ≡ selection) × Selected catalog context explicit (some "vllm") (some "vllm")
resolve_runtime-Selected_example =
    resolve_runtime-Selected catalog context selection resolution resolution-found

-- ===== src/Runtime/Demand.antt =====
-- runtime/contracts.py: the demand on a runtime, the facts of the host, and compatibility reports.
use astrum_weaver.Prelude.{
  ℕ, String, Bool, true, false, ◌||◌, not, Option, none, some, List, [], ◌∷◌, nat_eq, ltb, any,
  if◌then◌else◌, ℤ,
}
use astrum_weaver.Dict.{Dict, put}
use astrum_weaver.Text.{strip}
use astrum_weaver.Value.{Mapping}
use astrum_weaver.Contracts.{WorkerSpec, require_nonblank, nonnegative}
use astrum_weaver.Result.{Result, ok, err, value_error, ◌>>=◌, ◌>>◌, refuse}

pub data RuntimeSelectionMode : Type 0 where
  explicit recommend : RuntimeSelectionMode

pub data ResidencyPolicy : Type 0 where
  vram_only prefer_vram cpu_gpu_hybrid : ResidencyPolicy

pub data GpuTopology : Type 0 where
  no_gpu single_gpu multi_gpu : GpuTopology

pub data ModelTopology : Type 0 where
  dense moe : ModelTopology

pub record RuntimeSelection : Type 0 where
  pub mode : RuntimeSelectionMode
  pub provider_id : Option String

unfoldable pub runtime_selection : RuntimeSelectionMode → Option String → Result RuntimeSelection
runtime_selection explicit none = err (value_error "provider_id")
runtime_selection explicit (some id) = do
  normalized ← require_nonblank id "provider_id"
  ok (record { mode = explicit; provider_id = some normalized })
runtime_selection recommend none = ok (record { mode = recommend; provider_id = none })
runtime_selection recommend (some id) = err (value_error "provider_id")

pub record ModelDemand : Type 0 where
  pub model_ref : String
  pub model_format : String
  pub topology : ModelTopology
  pub estimated_size_mb : Option ℕ
  pub metadata : Mapping

pub record ExecutionDemand : Type 0 where
  pub model : ModelDemand
  pub residency_policy : ResidencyPolicy
  pub gpu_topology : GpuTopology
  pub min_gpu_count : ℕ
  pub min_total_vram_mb : ℕ
  pub min_single_gpu_vram_mb : ℕ
  pub min_host_ram_mb : ℕ
  pub preferred_host_ram_mb : ℕ
  pub metadata : Mapping

is_vram_only : ResidencyPolicy → Bool
is_vram_only vram_only = true
is_vram_only _ = false

-- The checks on the topology of a demand whose numbers are not negative.
unfoldable pub check_topology : GpuTopology → ExecutionDemand → Result ExecutionDemand
unfolding is_vram_only
check_topology no_gpu d =
    if not (nat_eq d.min_gpu_count 0)
      || not (nat_eq d.min_total_vram_mb 0)
      || not (nat_eq d.min_single_gpu_vram_mb 0)
    then err (value_error "gpu_topology")
    else if is_vram_only d.residency_policy
    then err (value_error "residency_policy")
    else ok d
check_topology single_gpu d =
    if not (nat_eq d.min_gpu_count 0 || nat_eq d.min_gpu_count 1)
    then err (value_error "min_gpu_count")
    else ok d
check_topology multi_gpu d =
    if ltb d.min_gpu_count 2 then err (value_error "min_gpu_count") else ok d

-- The arguments of `ExecutionDemand(...)`, before they are checked.
pub record ExecutionDemandArgs : Type 0 where
  pub model : ModelDemand
  pub residency_policy : ResidencyPolicy
  pub gpu_topology : GpuTopology
  pub min_gpu_count : ℤ
  pub min_total_vram_mb : ℤ
  pub min_single_gpu_vram_mb : ℤ
  pub min_host_ram_mb : ℤ
  pub preferred_host_ram_mb : ℤ
  pub metadata : Mapping

unfoldable pub execution_demand : ExecutionDemandArgs → Result ExecutionDemand
unfolding check_topology nonnegative
execution_demand a = do
  count ← nonnegative a.min_gpu_count "min_gpu_count"
  total ← nonnegative a.min_total_vram_mb "min_total_vram_mb"
  single ← nonnegative a.min_single_gpu_vram_mb "min_single_gpu_vram_mb"
  ram ← nonnegative a.min_host_ram_mb "min_host_ram_mb"
  preferred ← nonnegative a.preferred_host_ram_mb "preferred_host_ram_mb"
  refuse (ltb preferred ram) (value_error "preferred_host_ram_mb")
  check_topology a.gpu_topology (record {
    model = a.model;
    residency_policy = a.residency_policy;
    gpu_topology = a.gpu_topology;
    min_gpu_count = count;
    min_total_vram_mb = total;
    min_single_gpu_vram_mb = single;
    min_host_ram_mb = ram;
    preferred_host_ram_mb = preferred;
    metadata = a.metadata;
  })

count_for : GpuTopology → ℕ → ℕ
count_for no_gpu n = 0
count_for single_gpu n = 1
count_for multi_gpu n = n

unfoldable pub effective_min_gpu_count : ExecutionDemand → ℕ
unfolding count_for
effective_min_gpu_count d = count_for d.gpu_topology d.min_gpu_count

pub record RuntimeHostFacts : Type 0 where
  pub cpu_count : ℕ
  pub host_ram_mb : ℕ
  pub architecture : String
  pub labels : Dict String

-- `{_nonblank(key): _nonblank(value) for ...}`
unfoldable pub nonblank_labels : Dict String → Dict String → Result (Dict String)
nonblank_labels [] normalized = ok normalized
nonblank_labels ((raw_key, raw_value) ∷ rest) normalized = do
  key ← require_nonblank raw_key "label key"
  value ← require_nonblank raw_value "label value"
  nonblank_labels rest (put key value normalized)

unfoldable pub runtime_host_facts : ℤ → ℤ → String → Dict String → Result RuntimeHostFacts
unfolding nonnegative nonblank_labels
runtime_host_facts cpu_count host_ram_mb architecture labels = do
  cpus ← nonnegative cpu_count "cpu_count"
  ram ← nonnegative host_ram_mb "host_ram_mb"
  refuse (nat_eq cpus 0) (value_error "cpu_count")
  refuse (nat_eq ram 0) (value_error "host_ram_mb")
  architecture' ← require_nonblank architecture "architecture"
  labels' ← nonblank_labels labels []
  ok (record {
    cpu_count = cpus;
    host_ram_mb = ram;
    architecture = architecture';
    labels = labels';
  })

pub record RuntimeCompatibilityContext : Type 0 where
  pub worker : WorkerSpec
  pub host : RuntimeHostFacts
  pub demand : ExecutionDemand

pub record RuntimeProviderInfo : Type 0 where
  pub provider_id : String
  pub display_name : String
  pub description : String

unfoldable pub runtime_provider_info : String → String → String → Result RuntimeProviderInfo
runtime_provider_info provider_id display_name description = do
  id ← require_nonblank provider_id "provider_id"
  name ← require_nonblank display_name "display_name"
  ok (record { provider_id = id; display_name = name; description = strip description })

pub record CompatibilityReason : Type 0 where
  pub code : String
  pub message : String
  pub blocking : Bool

unfoldable pub compatibility_reason : String → String → Bool → Result CompatibilityReason
compatibility_reason code message blocking = do
  code' ← require_nonblank code "code"
  message' ← require_nonblank message "message"
  ok (record { code = code'; message = message'; blocking = blocking })

pub record RuntimeCompatibility : Type 0 where
  pub provider_id : String
  pub reasons : List CompatibilityReason

unfoldable pub runtime_compatibility :
    String → List CompatibilityReason → Result RuntimeCompatibility
runtime_compatibility provider_id reasons = do
  id ← require_nonblank provider_id "provider_id"
  ok (record { provider_id = id; reasons = reasons })

unfoldable pub compatible : RuntimeCompatibility → Bool
compatible report = not (any (λ r. r.blocking) report.reasons)

-- The protocol `RuntimeProvider`, as the planner uses it.
pub record RuntimeProvider : Type 0 where
  pub info : RuntimeProviderInfo
  pub compatibility : RuntimeCompatibilityContext → RuntimeCompatibility

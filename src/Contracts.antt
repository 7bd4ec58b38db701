-- ===== src/Contracts.antt =====
-- contracts.py: the resource shape of a worker, what a worker is, and what a job needs. A
-- constructor checks and normalises its arguments, as `__post_init__` does, and may raise.
pub mod Capability
pub mod Equality
pub mod Shapes
pub mod Names
pub mod Witnesses
use astrum_weaver.Prelude.{
  ℕ, zero, suc, ◌+◌, String, ◌||◌, not, Option, none, some, List, [], ◌∷◌, ◌++◌, ltb, nat_eq,
  length, map, if◌then◌else◌, ℤ, pos, negsuc,
}
use astrum_weaver.Text.{strip, is_blank}
use astrum_weaver.Dict.{Dict, put}
use astrum_weaver.Sets.{contains, tuple_eq}
use astrum_weaver.Result.{Result, ok, err, value_error, ◌>>=◌, ◌>>◌, require}
use Capability.{normalize_compute_capability}

pub record AcceleratorDevice : Type 0 where
  pub uuid : String
  pub memory_mb : ℕ
  pub compute_capability : Option String
  pub device_class : Option String

pub record ResourceShape : Type 0 where
  pub gpu_count : ℕ
  pub total_vram_mb : ℕ
  pub max_single_gpu_vram_mb : ℕ

pub record WorkerSpec : Type 0 where
  pub worker_id : String
  pub worker_class : String
  pub resources : ResourceShape
  pub gpu_uuids : List String
  pub accelerators : List AcceleratorDevice
  pub capabilities : List String
  pub labels : Dict String

pub record JobRequirements : Type 0 where
  pub worker_class : Option String
  pub required_capabilities : List String
  pub required_labels : Dict String
  pub required_gpu_uuids : List String
  pub min_gpu_count : ℕ
  pub min_total_vram_mb : ℕ
  pub min_single_gpu_vram_mb : ℕ

-- One text, or a collection of texts, where `_unique_strings` takes either.
pub data Strings : Type 0 where
  one : String → Strings
  many : List String → Strings

unfoldable pub raw_values : Strings → List String
raw_values (one s) = s ∷ []
raw_values (many xs) = xs

unfoldable pub require_nonblank : String → String → Result String
require_nonblank value field_name =
    let normalized = strip value in
    if is_blank normalized then err (value_error field_name) else ok normalized

-- The loop of `_unique_strings`; `seen` holds the items of `normalized`.
unfoldable pub collect : String → List String → List String → Result (List String)
collect field_name [] normalized = ok normalized
collect field_name (value ∷ rest) normalized =
    let item = strip value in
    let next = collect field_name rest (normalized ++ item ∷ []) in
    if is_blank item
    then err (value_error field_name)
    else if contains item normalized
    then err (value_error field_name)
    else next

unfoldable pub unique_strings : Strings → String → Result (List String)
unfolding raw_values
unique_strings values field_name = collect field_name (raw_values values) []

unfoldable pub collect_labels : Dict String → Dict String → Result (Dict String)
collect_labels [] normalized = ok normalized
collect_labels ((raw_key, raw_value) ∷ rest) normalized =
    let key = strip raw_key in
    let value = strip raw_value in
    let next = collect_labels rest (put key value normalized) in
    if is_blank key || is_blank value then err (value_error "labels") else next

unfoldable pub normalize_labels : Dict String → Result (Dict String)
unfolding collect_labels
normalize_labels labels = collect_labels labels []

-- `if value < 0: raise`
unfoldable pub nonnegative : ℤ → String → Result ℕ
nonnegative (pos n) field_name = ok n
nonnegative (negsuc n) field_name = err (value_error field_name)

-- `if value <= 0: raise`
unfoldable pub positive : ℤ → String → Result ℕ
positive (pos zero) field_name = err (value_error field_name)
positive (pos (suc n)) field_name = ok (suc n)
positive (negsuc n) field_name = err (value_error field_name)

unfoldable pub optional_capability : Option String → Result (Option String)
optional_capability none = ok none
optional_capability (some value) = do
  normalized ← normalize_compute_capability value
  ok (some normalized)

-- `value or None`
unfoldable pub nonblank_or_none : Option String → Option String
nonblank_or_none none = none
nonblank_or_none (some value) =
    let stripped = strip value in if is_blank stripped then none else some stripped

unfoldable pub accelerator_device :
    String → ℤ → Option String → Option String → Result AcceleratorDevice
accelerator_device uuid memory_mb compute_capability device_class = do
  uuid' ← require_nonblank uuid "accelerator uuid"
  memory ← positive memory_mb "memory_mb"
  capability ← optional_capability compute_capability
  ok (record {
    uuid = uuid';
    memory_mb = memory;
    compute_capability = capability;
    device_class = nonblank_or_none device_class;
  })

-- The checks on a shape whose numbers are not negative.
unfoldable pub check_shape : ResourceShape → Result ResourceShape
check_shape s =
    if nat_eq s.gpu_count 0
    then (if not (nat_eq s.total_vram_mb 0) || not (nat_eq s.max_single_gpu_vram_mb 0)
        then err (value_error "gpu_count")
        else ok s)
    else if nat_eq s.total_vram_mb 0
    then err (value_error "total_vram_mb")
    else if nat_eq s.max_single_gpu_vram_mb 0
    then err (value_error "max_single_gpu_vram_mb")
    else if ltb s.total_vram_mb s.max_single_gpu_vram_mb
    then err (value_error "max_single_gpu_vram_mb")
    else ok s

unfoldable pub resource_shape : ℤ → ℤ → ℤ → Result ResourceShape
unfolding check_shape nonnegative
resource_shape gpu_count total_vram_mb max_single_gpu_vram_mb = do
  count ← nonnegative gpu_count "gpu_count"
  total ← nonnegative total_vram_mb "total_vram_mb"
  single ← nonnegative max_single_gpu_vram_mb "max_single_gpu_vram_mb"
  check_shape (record { gpu_count = count; total_vram_mb = total; max_single_gpu_vram_mb = single })

unfoldable pub sum_memory : List AcceleratorDevice → ℕ
sum_memory [] = 0
sum_memory (d ∷ ds) = d.memory_mb + sum_memory ds

unfoldable pub max_memory : List AcceleratorDevice → ℕ
max_memory [] = 0
max_memory (d ∷ ds) = let m = max_memory ds in if ltb d.memory_mb m then m else d.memory_mb

-- The checks under `if accelerators`.
unfoldable pub check_devices : List AcceleratorDevice → WorkerSpec → Result WorkerSpec
check_devices [] w = ok w
check_devices (d ∷ ds) w =
    let devices = d ∷ ds in
    if not (nat_eq (length devices) w.resources.gpu_count)
    then err (value_error "accelerators")
    else if not (tuple_eq (map (λ a. a.uuid) devices) w.gpu_uuids)
    then err (value_error "accelerator UUID order")
    else if not (nat_eq (sum_memory devices) w.resources.total_vram_mb)
    then err (value_error "accelerator memory sum")
    else if not (nat_eq (max_memory devices) w.resources.max_single_gpu_vram_mb)
    then err (value_error "accelerator max memory")
    else ok w

-- The arguments of `WorkerSpec(...)`, before they are checked.
pub record WorkerSpecArgs : Type 0 where
  pub worker_id : String
  pub worker_class : String
  pub resources : ResourceShape
  pub gpu_uuids : Strings
  pub accelerators : List AcceleratorDevice
  pub capabilities : Strings
  pub labels : Dict String

unfoldable pub worker_spec : WorkerSpecArgs → Result WorkerSpec
worker_spec a = do
  worker_id ← require_nonblank a.worker_id "worker_id"
  worker_class ← require_nonblank a.worker_class "worker_class"
  gpu_uuids ← unique_strings a.gpu_uuids "gpu_uuids"
  capabilities ← unique_strings a.capabilities "capabilities"
  labels ← normalize_labels a.labels
  require (nat_eq (length gpu_uuids) a.resources.gpu_count) (value_error "gpu_uuids count")
  check_devices a.accelerators (record {
    worker_id = worker_id;
    worker_class = worker_class;
    resources = a.resources;
    gpu_uuids = gpu_uuids;
    accelerators = a.accelerators;
    capabilities = capabilities;
    labels = labels;
  })

unfoldable pub optional_nonblank : Option String → String → Result (Option String)
optional_nonblank none field_name = ok none
optional_nonblank (some value) field_name = do
  normalized ← require_nonblank value field_name
  ok (some normalized)

-- The arguments of `JobRequirements(...)`, before they are checked.
pub record JobRequirementsArgs : Type 0 where
  pub worker_class : Option String
  pub required_capabilities : Strings
  pub required_labels : Dict String
  pub required_gpu_uuids : Strings
  pub min_gpu_count : ℤ
  pub min_total_vram_mb : ℤ
  pub min_single_gpu_vram_mb : ℤ

unfoldable pub job_requirements : JobRequirementsArgs → Result JobRequirements
job_requirements a = do
  worker_class ← optional_nonblank a.worker_class "worker_class"
  capabilities ← unique_strings a.required_capabilities "required_capabilities"
  gpu_uuids ← unique_strings a.required_gpu_uuids "required_gpu_uuids"
  labels ← normalize_labels a.required_labels
  min_gpu_count ← nonnegative a.min_gpu_count "min_gpu_count"
  min_total ← nonnegative a.min_total_vram_mb "min_total_vram_mb"
  min_single ← nonnegative a.min_single_gpu_vram_mb "min_single_gpu_vram_mb"
  ok (record {
    worker_class = worker_class;
    required_capabilities = capabilities;
    required_labels = labels;
    required_gpu_uuids = gpu_uuids;
    min_gpu_count = min_gpu_count;
    min_total_vram_mb = min_total;
    min_single_gpu_vram_mb = min_single;
  })

-- ===== src/Contracts/Equality.antt =====
-- `==` of the frozen dataclasses of contracts.py, field by field: sets without their order, labels
-- as dictionaries, tuples in order.
use astrum_weaver.Prelude.{Bool, true, false, ◌&&◌, List, [], ◌∷◌, ◌==◌, nat_eq}
use astrum_weaver.Sets.{set_eq, tuple_eq, option_eq, labels_eq}
use astrum_weaver.Contracts.{AcceleratorDevice, ResourceShape, WorkerSpec, JobRequirements}

device_eq : AcceleratorDevice → AcceleratorDevice → Bool
device_eq a b =
    a.uuid == b.uuid
    && nat_eq a.memory_mb b.memory_mb
    && option_eq a.compute_capability b.compute_capability
    && option_eq a.device_class b.device_class

devices_eq : List AcceleratorDevice → List AcceleratorDevice → Bool
unfolding device_eq
devices_eq [] [] = true
devices_eq [] (b ∷ bs) = false
devices_eq (a ∷ as') [] = false
devices_eq (a ∷ as') (b ∷ bs) = device_eq a b && devices_eq as' bs

shape_eq : ResourceShape → ResourceShape → Bool
shape_eq a b =
    nat_eq a.gpu_count b.gpu_count
    && nat_eq a.total_vram_mb b.total_vram_mb
    && nat_eq a.max_single_gpu_vram_mb b.max_single_gpu_vram_mb

unfoldable pub spec_eq : WorkerSpec → WorkerSpec → Bool
unfolding devices_eq shape_eq set_eq tuple_eq labels_eq option_eq
spec_eq a b =
    a.worker_id == b.worker_id
    && a.worker_class == b.worker_class
    && shape_eq a.resources b.resources
    && tuple_eq a.gpu_uuids b.gpu_uuids
    && devices_eq a.accelerators b.accelerators
    && set_eq a.capabilities b.capabilities
    && labels_eq a.labels b.labels

unfoldable pub requirements_eq : JobRequirements → JobRequirements → Bool
unfolding set_eq labels_eq option_eq
requirements_eq a b =
    option_eq a.worker_class b.worker_class
    && set_eq a.required_capabilities b.required_capabilities
    && labels_eq a.required_labels b.required_labels
    && set_eq a.required_gpu_uuids b.required_gpu_uuids
    && nat_eq a.min_gpu_count b.min_gpu_count
    && nat_eq a.min_total_vram_mb b.min_total_vram_mb
    && nat_eq a.min_single_gpu_vram_mb b.min_single_gpu_vram_mb

-- ===== src/Worker/Preflight/Witnesses.antt =====
-- A Worker that has the second of two GPUs passes its checks.
use astrum_weaver.Prelude.{String, ◌≡◌, refl, Option, some, [], ◌∷◌}
use astrum_weaver.Text.{text_ltb}
use astrum_weaver.Dict.{get, put}
use astrum_weaver.Contracts.{many}
use astrum_weaver.GpuMapping.Review.{verify_isolated_gpu_access, load_reviewed_gpu_map}
use astrum_weaver.GpuMapping.Nodes.{discover_gpu_mapping}
use astrum_weaver.GpuMapping.Program.Witnesses.{two_gpus, kernel_files, second_only}
use astrum_weaver.Worker.Preflight.{
  require_exact_gpu_set, require_executor_capabilities, require_isolated_gpu_access,
}
use astrum_weaver.Worker.Preflight.Confined.{IsConfined, require_isolated_gpu_access-IsConfined}
use astrum_weaver.Result.{ok, err, runtime_error}

abbrev map_file : String → Option String
map_file path = some "GPU-b=/dev/nvidia1\n"

require_isolated_gpu_access-IsConfined_example :
    IsConfined two_gpus kernel_files second_only map_file ("GPU-b" ∷ []) "/etc/map" (some "GPU-b") 0
unfolding require_isolated_gpu_access discover_gpu_mapping load_reviewed_gpu_map
    verify_isolated_gpu_access get put text_ltb
require_isolated_gpu_access-IsConfined_example =
    require_isolated_gpu_access-IsConfined two_gpus kernel_files second_only map_file "GPU-b" []
      "/etc/map" (some "GPU-b") 0 refl

one_of_two :
    require_exact_gpu_set two_gpus ("GPU-b" ∷ []) ≡ err (runtime_error "GPU UUID set mismatch")
unfolding require_exact_gpu_set text_ltb
one_of_two = refl

able : require_executor_capabilities (some (many ("echo" ∷ " text " ∷ []))) ("text" ∷ []) ≡ ok tt
unfolding require_executor_capabilities
able = refl

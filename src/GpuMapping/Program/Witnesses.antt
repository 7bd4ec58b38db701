-- ===== src/GpuMapping/Program/Witnesses.antt =====
-- A host with two GPUs, of which the Worker has the second, and the theorems applied to it.
use astrum_weaver.Prelude.{
  ℕ, suc, ◌-◌, String, ◌≡◌, refl, true, Option, none, some, List, [], ◌∷◌, ◌==◌, pos, if◌then◌else◌,
  arith,
}
use astrum_weaver.Text.{text_ltb}
use astrum_weaver.Text.Order.{sort, pair_ltb}
use astrum_weaver.Dict.{Dict, get, put}
use astrum_weaver.GpuMapping.{is_gpu_uuid, is_device_path}
use astrum_weaver.GpuMapping.Query.{Commands, CompletedProcess}
use astrum_weaver.GpuMapping.Nodes.{Kernel, NodeStat, Minor, text, integer, validate_mapping}
use astrum_weaver.GpuMapping.Nodes.Laws.{MapsDevices, validate_mapping-MapsDevices}
use astrum_weaver.GpuMapping.Review.{
  listed, Devices, descriptor, denied, print_map, load_reviewed_gpu_map, verify_isolated_gpu_access,
}
use astrum_weaver.GpuMapping.Review.RoundTrip.{load_reviewed_gpu_map-print_map}
use astrum_weaver.GpuMapping.Program.{Host, main, discover_visible, code}
use astrum_weaver.GpuMapping.Program.Guarantee.{IsProven, main-IsProven}
use astrum_weaver.Result.{ok}

abbrev pub answer : String → CompletedProcess
answer output = record { returncode = pos 0; stdout = output; stderr = "" }

abbrev pub two_gpus : Commands
two_gpus = record {
  run = λ fields.
      some (answer (if fields == "uuid" then "GPU-b\nGPU-a\n" else "GPU-b, 1\nGPU-a, 0\n"));
  casefold = λ s. s;
}

abbrev pub node : ℕ → NodeStat
node minor = record { is_character_device = true; major = 195; minor = minor }

abbrev pub stat : String → Option NodeStat
stat name =
    if name == "nvidia0" then some (node 0) else if name == "nvidia1" then some (node 1) else none

abbrev pub kernel_files : Kernel
kernel_files = record {
  information_files = [];
  proc_devices = some "Character devices:\n195 nvidia-frontend\n\nBlock devices:\n";
  device_stat = stat;
}

-- The world counts the descriptors that are open; only the second device may be opened.
abbrev pub second_only : Devices ℕ
second_only = record {
  open_device = λ path w. if path == "/dev/nvidia1" then (descriptor 3, suc w) else (denied, w);
  close_device = λ fd w. w - 1;
}

abbrev host : Host ℕ
host = record {
  commands = two_gpus;
  kernel = kernel_files;
  read_text = λ path.
      if path == "expected"
      then some "GPU-b\n"
      else if path == "reviewed"
      then some "GPU-b=/dev/nvidia1\n"
      else none;
  read_order = λ path. some (listed ("GPU-b" ∷ []));
  cuda_visible_devices = some "GPU-b";
  devices = second_only;
}

prints_map :
    main host discover_visible [] 0 ≡ (("GPU-a=/dev/nvidia0\nGPU-b=/dev/nvidia1\n", code 0), 0)
unfolding main get put text_ltb
prints_map = refl

main-IsProven_example : IsProven host "expected" "reviewed" "order" 0
unfolding main get put text_ltb verify_isolated_gpu_access
main-IsProven_example = main-IsProven host "expected" "reviewed" "order" 0 refl

abbrev both : List (String × String)
both = ("GPU-a", "/dev/nvidia0") ∷ ("GPU-b", "/dev/nvidia1") ∷ []

abbrev minors : Dict (List Minor)
minors = ("GPU-b", text "01" ∷ []) ∷ ("GPU-a", integer (pos 0) ∷ []) ∷ []

validate_mapping-MapsDevices_example :
    MapsDevices stat (pos 195) minors ("GPU-a" ∷ "GPU-b" ∷ []) both
unfolding validate_mapping get put text_ltb
validate_mapping-MapsDevices_example =
    validate_mapping-MapsDevices stat (pos 195) minors ("GPU-a" ∷ "GPU-b" ∷ []) both refl

load_reviewed_gpu_map-print_map_example :
    load_reviewed_gpu_map (some (print_map both)) ≡ ok (sort pair_ltb both)
unfolding get is_gpu_uuid is_device_path
load_reviewed_gpu_map-print_map_example =
    load_reviewed_gpu_map-print_map both (omega arith) (refl, (refl, tt))
      ((refl, refl), ((refl, refl), tt))

-- ===== src/Worker/Preflight.antt =====
-- The checks of worker/runtime.py before a Worker starts: the visible GPUs, the isolation of its own,
-- and what its executor can do.
pub mod Confined
pub mod Witnesses
use astrum_weaver.Prelude.{
  String, Bool, not, Option, none, some, List, [], ◌∷◌, nat_eq, length, any, if◌then◌else◌,
}
use astrum_weaver.Text.{is_blank, strip, text_ltb}
use astrum_weaver.Text.Lines.{splitlines, after_prefix, has_prefix}
use astrum_weaver.Text.Order.{sort}
use astrum_weaver.Sets.{contains, subset, tuple_eq}
use astrum_weaver.Contracts.{Strings, raw_values}
use astrum_weaver.GpuMapping.{has_repeats}
use astrum_weaver.GpuMapping.Query.{CompletedProcess, Commands, succeeded}
use astrum_weaver.GpuMapping.Nodes.{Kernel, discover_gpu_mapping}
use astrum_weaver.GpuMapping.Review.{Devices, load_reviewed_gpu_map, verify_isolated_gpu_access}
use astrum_weaver.Result.{
  Result, ok, err, value_error, type_error, runtime_error, ◌>>=◌, ◌>>◌, require, refuse, Method,
  checked,
}

-- `sorted(line.strip() for line in lines if line.strip())`, before it is sorted
stripped_lines : List String → List String
unfolding strip
stripped_lines [] = []
stripped_lines (line ∷ lines) =
    let rest = stripped_lines lines in if is_blank (strip line) then rest else strip line ∷ rest

-- The output of a command that must exit with 0; `none` is an `OSError`.
preflight_output : Option CompletedProcess → Result String
unfolding succeeded
preflight_output none = err (runtime_error "nvidia-smi preflight failed")
preflight_output (some completed) =
    if succeeded completed
    then ok completed.stdout
    else err (runtime_error "nvidia-smi preflight failed")

unfoldable pub discover_nvidia_gpu_uuids : Commands → Result (List String)
unfolding stripped_lines preflight_output splitlines sort has_repeats
discover_nvidia_gpu_uuids c = do
  output ← preflight_output (c.run "uuid")
  let uuids = sort text_ltb (stripped_lines (splitlines output))
  refuse (nat_eq (length uuids) 0) (runtime_error "no NVIDIA GPUs observed")
  refuse (has_repeats uuids) (runtime_error "observed duplicate GPU UUIDs")
  ok uuids

unfoldable pub require_exact_gpu_set : Commands → List String → Result (Unit {0})
unfolding discover_nvidia_gpu_uuids sort has_repeats tuple_eq
require_exact_gpu_set c [] = ok tt
require_exact_gpu_set c (uuid ∷ uuids) = do
  let expected = sort text_ltb (uuid ∷ uuids)
  refuse (has_repeats expected) (runtime_error "configured GPU UUIDs contain duplicates")
  observed ← discover_nvidia_gpu_uuids c
  require (tuple_eq observed expected) (runtime_error "GPU UUID set mismatch")

-- `Path(path).is_absolute()`
unfoldable pub is_absolute : String → Bool
unfolding has_prefix after_prefix
is_absolute path = has_prefix (after_prefix "/" path)

strip_all : List String → List String
unfolding strip
strip_all [] = []
strip_all (value ∷ values) = strip value ∷ strip_all values

-- `executor_capabilities`, from what the executor declares
unfoldable pub executor_capabilities : Option Strings → Result (List String)
unfolding strip_all raw_values
executor_capabilities none = err (type_error "configured executor must declare capabilities")
executor_capabilities (some raw) = do
  let capabilities = strip_all (raw_values raw)
  refuse (nat_eq (length capabilities) 0) (value_error "executor capabilities")
  refuse (any is_blank capabilities) (value_error "executor capabilities")
  ok capabilities

unfoldable pub require_executor_capabilities : Option Strings → List String → Result (Unit {0})
unfolding executor_capabilities subset contains
require_executor_capabilities declared advertised = do
  supported ← executor_capabilities declared
  require (subset advertised supported)
      (runtime_error "executor does not support advertised capabilities")

-- What the discovery of the mapping and the reading of the reviewed map give for a path.
abbrev pub reviewed_mapping :
    Commands
    → Kernel
    → Option String
    → String
    → Result (List (String × String) × List (String × String))
reviewed_mapping c k file path = do
  require (is_absolute path) (runtime_error "isolated GPU device map path must be absolute")
  mapping ← discover_gpu_mapping c k
  reviewed ← load_reviewed_gpu_map file
  ok (mapping, reviewed)

module _ {W : Type 0} (c : Commands) (k : Kernel) (devices : Devices W)
    (read : String → Option String) where
  -- `require_isolated_gpu_access`, by the path of the reviewed map and CUDA_VISIBLE_DEVICES
  unfoldable pub require_isolated_gpu_access :
      List String → String → Option String → Method W (Unit {0})
  unfolding is_absolute
  require_isolated_gpu_access [] path cuda w = (ok tt, w)
  require_isolated_gpu_access (uuid ∷ uuids) path cuda w =
      checked w (reviewed_mapping c k (read path) path)
        (λ m. verify_isolated_gpu_access devices m.0 (uuid ∷ uuids) m.1 (uuid ∷ uuids) cuda w)

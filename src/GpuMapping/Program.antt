-- ===== src/GpuMapping/Program.antt =====
-- The command of gpu_mapping.py: its modes, its arguments and its exit codes. The command line is
-- parsed already; the message on standard error is the error's text.
pub mod Guarantee
pub mod Witnesses
use Prim.Native.String as Str
use astrum_weaver.Prelude.{ℕ, String, Option, List, [], ◌∷◌, length}
use astrum_weaver.Text.Lines.{prepend}
use astrum_weaver.Text.Number.{decimal}
use astrum_weaver.GpuMapping.Query.{Commands}
use astrum_weaver.GpuMapping.Nodes.{Kernel, discover_gpu_mapping}
use astrum_weaver.GpuMapping.Review.{
  GpuOrder, Devices, load_expected, load_worker_gpu_order, load_reviewed_gpu_map, select_mapping,
  pairs_eq, print_map, verify_isolated_gpu_access,
}
use astrum_weaver.Result.{
  Error, Result, ok, err, mapping_error, isolation_unavailable, ◌>>=◌, ◌>>◌, require, Method,
  checked,
}

pub data Mode : Type 0 where
  discover discover_visible verify verify_isolated_access : Mode

-- What a run meets: the commands, the kernel's files, the files of the paths, CUDA_VISIBLE_DEVICES,
-- and the devices.
pub record Host (W : Type 0) : Type 0 where
  pub commands : Commands
  pub kernel : Kernel
  pub read_text : String → Option String
  pub read_order : String → Option GpuOrder
  pub cuda_visible_devices : Option String
  pub devices : Devices W

pub data Exit : Type 0 where
  code : ℕ → Exit
  uncaught : Error → Exit

unfoldable pub exit_code : Error → Exit
exit_code (isolation_unavailable message) = code 3
exit_code (mapping_error message) = code 1
exit_code e = uncaught e

-- `verify`: the selected mapping is the reviewed one.
unfoldable pub verify_reviewed : Option String → List (String × String) → Result String
unfolding load_reviewed_gpu_map pairs_eq
verify_reviewed file selected = do
  reviewed ← load_reviewed_gpu_map file
  require (pairs_eq selected reviewed) (mapping_error "reviewed GPU device map changed")
  ok (prepend "[astrumweaver-gpu-device-map] ok count=" (decimal (length selected) "\n"))

unfoldable pub report_exit : Result String → String × Exit
unfolding exit_code
report_exit (ok output) = (output, code 0)
report_exit (err e) = ("", exit_code e)

module _ {W : Type 0} (host : Host W) where
  isolated_report : List (String × String) → List (String × String) → String
  isolated_report mapping selected =
      prepend "[astrumweaver-gpu-device-map] isolated-access ok selected_count="
        (decimal (length selected) (prepend " host_count=" (decimal (length mapping) "\n")))

  -- `verify-isolated-access`, with the files of its three paths.
  unfoldable pub verify_isolated :
      List (String × String)
      → List String
      → String
      → String
      → List (String × String)
      → Method W String
  unfolding load_worker_gpu_order load_reviewed_gpu_map isolated_report
  verify_isolated mapping expected reviewed_path order_path selected w =
      checked w (load_worker_gpu_order (host.read_order order_path)) (λ order.
        checked w (load_reviewed_gpu_map (host.read_text reviewed_path)) (λ reviewed.
          let (verified, w') =
            verify_isolated_gpu_access host.devices mapping expected reviewed order
              host.cuda_visible_devices w in
          checked w' verified (λ u. (ok (isolated_report mapping selected), w'))))

  -- The mapping of the expected UUIDs in a file.
  unfoldable pub expected_selection :
      List (String × String) → String → Result (List String × List (String × String))
  unfolding load_expected select_mapping
  expected_selection mapping path = do
    expected ← load_expected (host.read_text path)
    selected ← select_mapping mapping expected
    ok (expected, selected)

  -- What the modes do with the discovered mapping and the paths.
  unfoldable pub run_mode : Mode → List String → List (String × String) → Method W String
  unfolding expected_selection verify_reviewed verify_isolated print_map
  run_mode discover_visible [] mapping w = (ok (print_map mapping), w)
  run_mode discover_visible paths mapping w =
      (err (mapping_error "discover-visible arguments are invalid"), w)
  run_mode discover (expected_path ∷ []) mapping w =
      checked w (expected_selection mapping expected_path) (λ s. (ok (print_map s.1), w))
  run_mode discover paths mapping w = (err (mapping_error "discover arguments are invalid"), w)
  run_mode verify (expected_path ∷ reviewed_path ∷ []) mapping w =
      checked w (expected_selection mapping expected_path)
        (λ s. (verify_reviewed (host.read_text reviewed_path) s.1, w))
  run_mode verify paths mapping w = (err (mapping_error "mapping arguments are invalid"), w)
  run_mode verify_isolated_access (expected_path ∷ reviewed_path ∷ order_path ∷ []) mapping w =
      checked w (expected_selection mapping expected_path)
        (λ s. verify_isolated mapping s.0 reviewed_path order_path s.1 w)
  run_mode verify_isolated_access paths mapping w =
      (err (mapping_error "isolated-access arguments are invalid"), w)

  -- `main`: what stands on standard output, and how it exits.
  unfoldable pub main : Mode → List String → W → (String × Exit) × W
  unfolding run_mode report_exit discover_gpu_mapping
  main mode paths w =
      let (result, w') =
        checked w (discover_gpu_mapping host.commands host.kernel)
          (λ mapping. run_mode mode paths mapping w) in
      (report_exit result, w')

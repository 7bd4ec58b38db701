-- ===== src/Worker/Mode/Probes.antt =====
-- The probes of worker/mode.py: `SystemdServiceManager`, by the exit codes of systemctl, and
-- `NvidiaGPUProbe`, by the two tables of nvidia-smi. `subprocess.run` is a parameter: what it gives
-- for the arguments behind the command, where `none` is an `OSError`.
pub mod Free
use astrum_weaver.Prelude.{
  ℕ, zero, suc, String, Bool, true, false, ◌||◌, Option, none, some, List, [], ◌∷◌, ◌==◌, nat_eq,
  any, if◌then◌else◌, ℤ, pos, negsuc,
}
use astrum_weaver.Text.{is_blank, strip, text_ltb}
use astrum_weaver.Text.Lines.{splitlines, partition_at, split_word, after_prefix, has_prefix}
use astrum_weaver.Text.Number.{python_int}
use astrum_weaver.Text.Order.{sort}
use astrum_weaver.Dict.{Dict, get, put}
use astrum_weaver.GpuMapping.{has_repeats}
use astrum_weaver.GpuMapping.Query.{CompletedProcess, succeeded}
use astrum_weaver.Worker.Mode.{GpuProcess}
use astrum_weaver.Result.{Result, ok, err, value_error, runtime_error, ◌>>=◌, ◌>>◌, require}

abbrev pub Runner : Type 0
Runner = List String → Option CompletedProcess

-- `_run`: an `OSError` becomes an error of the transition.
unfoldable pub run_command : Runner → String → List String → Result CompletedProcess
run_command run message arguments = elim (run arguments) [
  | none ↦ err (runtime_error message)
  | some completed ↦ ok completed
]

abbrev exit_is : ℕ → ℤ → Bool
exit_is code (pos n) = nat_eq n code
exit_is code (negsuc n) = false

-- `SystemdServiceManager.is_active`: 0 is active, 3 is not, and any other code tells nothing.
unfoldable pub is_active : Runner → String → Result Bool
unfolding run_command
is_active run service_name = do
  result ← run_command run "systemctl is unavailable" ("is-active" ∷ "--quiet" ∷ service_name ∷ [])
  if exit_is 0 result.returncode
      then ok true
      else if exit_is 3 result.returncode
      then ok false
      else err (runtime_error "cannot determine service state")

-- A command of systemctl that must exit with 0.
unfoldable pub must_succeed : Runner → String → List String → Result (Unit {0})
unfolding run_command
must_succeed run message arguments = do
  result ← run_command run "systemctl is unavailable" arguments
  require (exit_is 0 result.returncode) (runtime_error message)

unfoldable pub request_drain : Runner → String → Result (Unit {0})
unfolding must_succeed
request_drain run service_name =
    must_succeed run "failed to request Worker drain"
      ("kill" ∷ "--kill-whom=main" ∷ "--signal=SIGUSR1" ∷ service_name ∷ [])

unfoldable pub stop : Runner → String → Result (Unit {0})
unfolding must_succeed
stop run service_name =
    must_succeed run "failed to stop Worker service" ("stop" ∷ service_name ∷ [])

unfoldable pub start : Runner → String → Result (Unit {0})
unfolding must_succeed
start run service_name =
    must_succeed run "failed to start Worker service" ("start" ∷ service_name ∷ [])

abbrev stripped : List String → List String
stripped [] = []
stripped (value ∷ values) = strip value ∷ stripped values

-- `NvidiaGPUProbe(...)`: the expected UUIDs, stripped, sorted and all different.
unfoldable pub nvidia_gpu_probe : List String → Result (List String)
unfolding sort has_repeats strip
nvidia_gpu_probe [] = err (value_error "borrowable GPU mode requires expected GPU UUIDs")
nvidia_gpu_probe (uuid ∷ uuids) =
    let expected = sort text_ltb (stripped (uuid ∷ uuids)) in
    if any is_blank expected
    then err (value_error "borrowable GPU mode requires expected GPU UUIDs")
    else if has_repeats expected
    then err (value_error "expected GPU UUIDs must be unique")
    else ok expected

-- The rows `index, uuid` as a map from UUIDs to indices.
unfoldable pub add_indices : List String → Dict String → Result (Dict String)
unfolding strip partition_at
add_indices [] mapping = ok mapping
add_indices (raw_line ∷ lines) mapping =
    let line = strip raw_line in
    let (index, uuid) = partition_at 44 line in
    if is_blank line then add_indices lines mapping else elim uuid [
      | none ↦ err (runtime_error "unexpected nvidia-smi GPU output")
      | some gpu_uuid ↦ add_indices lines (put (strip gpu_uuid) (strip index) mapping)
    ]

unfoldable pub gpu_index_map : Runner → Result (Dict String)
unfolding run_command succeeded add_indices splitlines
gpu_index_map run = do
  result ←
      run_command run "nvidia-smi is unavailable"
        ("--query-gpu=index,uuid" ∷ "--format=csv,noheader,nounits" ∷ [])
  require (succeeded result) (runtime_error "cannot inspect NVIDIA GPU identity")
  add_indices (splitlines result.stdout) []

-- `{index_map[u]: u for u in expected if u in index_map}`, over the items before
unfoldable pub expected_indexes : Dict String → List String → Dict String → Dict String
expected_indexes index_map [] indexes = indexes
expected_indexes index_map (uuid ∷ uuids) indexes = elim (get uuid index_map) [
  | none ↦ expected_indexes index_map uuids indexes
  | some index ↦ expected_indexes index_map uuids (put index uuid indexes)
]

-- `s.split(maxsplit=n)` for a stripped text that is not blank
unfoldable pub split_words : ℕ → String → List String
unfolding split_word
split_words zero s = s ∷ []
split_words (suc n) s =
    let (word, rest) = split_word s in
    let more = split_words n rest in if is_blank rest then word ∷ [] else word ∷ more

-- `parts[7] if len(parts) >= 8 else ""`, of what follows the third part
process_name : List String → String
process_name (a ∷ b ∷ c ∷ d ∷ name ∷ more) = name
process_name _ = ""

-- The process in the row of an expected GPU.
unfoldable pub process_in : String → String → String → List String → Result (Option GpuProcess)
unfolding process_name python_int
process_in uuid raw_pid process_type more =
    if raw_pid == "-" then ok none else elim (python_int raw_pid) [
      | none ↦ err (runtime_error "unexpected nvidia-smi process PID")
      | some pid ↦ ok (
          some (record {
            pid = pid;
            gpu_uuid = uuid;
            process_type = process_type;
            process_name = process_name more;
          }))
    ]

-- What a row tells, by its parts.
unfoldable pub process_of : Dict String → List String → Result (Option GpuProcess)
unfolding process_in
process_of indexes (gpu_index ∷ raw_pid ∷ process_type ∷ more) = elim (get gpu_index indexes) [
  | none ↦ ok none
  | some uuid ↦ process_in uuid raw_pid process_type more
]
process_of indexes _ = err (runtime_error "unexpected nvidia-smi pmon output")

-- A line that tells of no row.
unfoldable pub is_silent : String → Bool
unfolding after_prefix has_prefix
is_silent line = is_blank line || has_prefix (after_prefix "#" line)

abbrev pub with_process : Option GpuProcess → List GpuProcess → List GpuProcess
with_process none ps = ps
with_process (some p) ps = p ∷ ps

-- A row, and the rows behind it.
unfoldable pub row_then :
    Result (Option GpuProcess) → Result (List GpuProcess) → Result (List GpuProcess)
row_then row later = do found ← row; processes ← later; ok (with_process found processes)

unfoldable pub processes_in : Dict String → List String → Result (List GpuProcess)
unfolding strip is_silent process_of split_words row_then
processes_in indexes [] = ok []
processes_in indexes (raw_line ∷ lines) =
    let line = strip raw_line in
    let later = processes_in indexes lines in
    if is_silent line then later else row_then (process_of indexes (split_words 7 line)) later

unfoldable pub active_processes : Runner → List String → Result (List GpuProcess)
unfolding gpu_index_map expected_indexes run_command succeeded processes_in splitlines
active_processes run expected = do
  index_map ← gpu_index_map run
  let indexes = expected_indexes index_map expected []
  result ← run_command run "nvidia-smi is unavailable" ("pmon" ∷ "-c" ∷ "1" ∷ [])
  require (succeeded result) (runtime_error "cannot inspect NVIDIA GPU processes")
  processes_in indexes (splitlines result.stdout)

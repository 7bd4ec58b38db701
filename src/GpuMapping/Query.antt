-- ===== src/GpuMapping/Query.antt =====
-- The two queries of the visibility command, and when a refused one may be answered by the kernel's
-- files. `subprocess.run` and `str.casefold` are parameters.
use Prim.Native.String as Str
use astrum_weaver.Prelude.{
  ℕ, String, ◌≡◌, refl, Bool, true, false, ◌||◌, not, Option, none, some, List, [], ◌∷◌, nat_eq,
  any, if◌then◌else◌, ℤ, pos, negsuc,
}
use astrum_weaver.Text.{is_blank, strip}
use astrum_weaver.Text.Lines.{splitlines, partition_at, occurs_in}
use astrum_weaver.GpuMapping.{is_gpu_uuid, parse_visible_uuids, parse_uuid_minor_rows}
use astrum_weaver.Dict.{Dict}
use astrum_weaver.Result.{Result, ok, err, mapping_error, ◌>>=◌}

-- `subprocess.CompletedProcess[str]`
pub record CompletedProcess : Type 0 where
  pub returncode : ℤ
  pub stdout : String
  pub stderr : String

-- What the queries call: the command with the fields of a query, where `none` is an `OSError`, and
-- `str.casefold`.
pub record Commands : Type 0 where
  pub run : String → Option CompletedProcess
  pub casefold : String → String

unfoldable pub succeeded : CompletedProcess → Bool
succeeded completed = elim completed.returncode [ pos n ↦ nat_eq n 0 | negsuc n ↦ false ]

unfoldable pub run_nvidia_query : Commands → String → Result CompletedProcess
run_nvidia_query c fields = elim (c.run fields) [
  | none ↦ err (mapping_error "NVIDIA visibility command is unavailable")
  | some completed ↦ ok completed
]

unfoldable pub query_visible_uuids : Commands → Result (List String)
unfolding run_nvidia_query succeeded parse_visible_uuids
query_visible_uuids c = do
  completed ← run_nvidia_query c "uuid"
  if not (succeeded completed)
      then err (mapping_error "NVIDIA GPU UUID visibility query failed")
      else parse_visible_uuids completed.stdout

-- A line whose first field, up to a comma, is a UUID.
is_gpu_line : String → Bool
unfolding partition_at strip is_gpu_uuid
is_gpu_line raw_line = is_gpu_uuid (strip (partition_at 44 (strip raw_line)).0)

unfoldable pub stdout_contains_gpu_data : String → Bool
unfolding is_gpu_line splitlines
stdout_contains_gpu_data output = any is_gpu_line (splitlines output)

-- `"\n".join(part for part in (stdout, stderr) if part)`
join_parts : String → String → String
join_parts stdout Str.[] = stdout
join_parts Str.[] stderr = stderr
join_parts (Str.◌∷◌ c s) stderr = Str.◌++◌ (Str.◌∷◌ c s) (Str.◌∷◌ "\n" stderr)

abbrev pub runtime_failure_markers : List String
runtime_failure_markers =
    "failed to initialize nvml" ∷ "driver/library version mismatch"
    ∷ "couldn't communicate with the nvidia driver" ∷ "could not communicate with the nvidia driver"
    ∷ "failed to communicate with the nvidia driver" ∷ "permission denied" ∷ "not permitted"
    ∷ "insufficient permission" ∷ []

abbrev rejection_markers : List String
rejection_markers =
    "unknown" ∷ "unsupported" ∷ "not supported" ∷ "unrecognized" ∷ "not recognized" ∷ []

-- Some marker stands in the text.
unfoldable pub mentions : List String → String → Bool
unfolding occurs_in
mentions [] diagnostic = false
mentions (marker ∷ markers) diagnostic = occurs_in marker diagnostic || mentions markers diagnostic

-- The tests on the folded diagnostic.
unfoldable pub rejects_minor_field : String → Bool
unfolding mentions strip
rejects_minor_field diagnostic =
    if is_blank (strip diagnostic)
    then false
    else if mentions runtime_failure_markers diagnostic
    then false
    else if not (mentions ("minor_number" ∷ "minor number" ∷ []) diagnostic)
    then false
    else if occurs_in "not a valid field to query" diagnostic
    then true
    else if not (occurs_in "field" diagnostic)
    then false
    else mentions rejection_markers diagnostic

unfoldable pub minor_query_is_explicitly_unsupported : Commands → CompletedProcess → Bool
unfolding succeeded stdout_contains_gpu_data rejects_minor_field join_parts
minor_query_is_explicitly_unsupported c completed =
    if succeeded completed
    then false
    else if stdout_contains_gpu_data completed.stdout
    then false
    else rejects_minor_field (c.casefold (join_parts completed.stdout completed.stderr))

-- The rows of the command, or `none` where the kernel's files are to be asked.
unfoldable pub query_primary_mapping : Commands → Result (Option (Dict ℕ))
unfolding run_nvidia_query succeeded minor_query_is_explicitly_unsupported parse_uuid_minor_rows
query_primary_mapping c = do
  completed ← run_nvidia_query c "uuid,minor_number"
  if succeeded completed
      then parse_uuid_minor_rows completed.stdout >>= (λ rows. ok (some rows))
      else if minor_query_is_explicitly_unsupported c completed
      then ok none
      else err (mapping_error "NVIDIA GPU UUID/minor query failed")

old_utility : rejects_minor_field "field \"minor_number\" is not a valid field to query." ≡ true
unfolding rejects_minor_field
old_utility = refl

no_driver : rejects_minor_field "minor_number field unknown: failed to initialize nvml" ≡ false
unfolding rejects_minor_field
no_driver = refl

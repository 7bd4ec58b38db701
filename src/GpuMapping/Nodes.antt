-- ===== src/GpuMapping/Nodes.antt =====
-- The device nodes of gpu_mapping.py: what the kernel's files say of them, and the check of each
-- visible GPU against its node. File reads and `device_stat` are parameters.
pub mod Laws
pub mod Sources
use Prim.Native.String as Str
use astrum_weaver.Prelude.{
  ℕ, String, ◌≡◌, refl, Bool, true, false, ◌&&◌, ◌||◌, not, Option, none, some, List, [], ◌∷◌, ◌++◌,
  ◌==◌, nat_eq, if◌then◌else◌, ℤ, pos, negsuc, all, pos_part, neg_part, ◌+◌,
}
use astrum_weaver.Text.{strip}
use astrum_weaver.Text.Lines.{splitlines, partition_at, split_word}
use astrum_weaver.Text.Number.{is_number, int_from, decimal, python_int}
use astrum_weaver.Text.Order.{sort, pair_ltb}
use astrum_weaver.Sets.{contains}
use astrum_weaver.Dict.{Dict, get, put, values}
use astrum_weaver.GpuMapping.{is_device_path}
use astrum_weaver.GpuMapping.Query.{Commands, query_visible_uuids, query_primary_mapping}
use astrum_weaver.Result.{Result, ok, err, mapping_error, ◌>>=◌, ◌>>◌, require, refuse}

-- A minor before its check: `absent` is `None`.
pub data Minor : Type 0 where
  integer : ℤ → Minor
  truth : Bool → Minor
  text : String → Minor
  absent : Minor

-- `os.stat_result`, as far as it is read
pub record NodeStat : Type 0 where
  pub is_character_device : Bool
  pub major : ℕ
  pub minor : ℕ

-- What the discovery reads, where `none` is an `OSError` or a `UnicodeError`: the sorted
-- `*/information` files, /proc/devices, and the node of a name below the device root.
pub record Kernel : Type 0 where
  pub information_files : List (Option String)
  pub proc_devices : Option String
  pub device_stat : String → Option NodeStat

-- The values of a field in an information file.
unfoldable pub field_values : String → List String → List String
unfolding partition_at strip
field_values key [] = []
field_values key (line ∷ lines) =
    let more = field_values key lines in
    let (name, value) = partition_at 58 line in
    elim value [
      | none ↦ more
      | some raw_value ↦ if strip name == key then strip raw_value ∷ more else more
    ]

-- The first UUID of a file, with its minor where both fields stand once.
unfoldable pub entry_of : List String → List String → Option (String × Minor)
entry_of [] minors = none
entry_of (uuid ∷ []) (minor ∷ []) = some (uuid, text minor)
entry_of (uuid ∷ []) [] = some (uuid, absent)
entry_of (uuid ∷ []) (m ∷ n ∷ minors) = some (uuid, absent)
entry_of (uuid ∷ v ∷ uuids) minors = some (uuid, absent)

abbrev pub rows_of : Option (List Minor) → List Minor
rows_of none = []
rows_of (some ms) = ms

add_entry : Option (String × Minor) → Dict (List Minor) → Dict (List Minor)
add_entry none rows = rows
add_entry (some (uuid, minor)) rows = put uuid (rows_of (get uuid rows) ++ minor ∷ []) rows

unfoldable pub read_files : List (Option String) → Dict (List Minor) → Dict (List Minor)
unfolding add_entry entry_of field_values splitlines
read_files [] rows = rows
read_files (none ∷ files) rows = read_files files rows
read_files (some file ∷ files) rows =
    let lines = splitlines file in
    read_files files (
      add_entry (entry_of (field_values "GPU UUID" lines) (field_values "Device Minor" lines)) rows)

unfoldable pub proc_mapping_rows : List (Option String) → Result (Dict (List Minor))
unfolding read_files
proc_mapping_rows [] = err (mapping_error "NVIDIA GPU information entries are unavailable")
proc_mapping_rows (file ∷ files) = ok (read_files (file ∷ files) [])

-- The checks that make a number of a minor.
unfoldable pub checked_minor : List Minor → Result ℕ
unfolding is_number int_from
checked_minor (integer (pos n) ∷ []) = ok n
checked_minor (integer (negsuc n) ∷ []) = err (mapping_error "an invalid device minor")
checked_minor (truth b ∷ []) = err (mapping_error "an invalid device minor")
checked_minor (text s ∷ []) =
    if is_number s then ok (int_from 0 s) else err (mapping_error "an invalid device minor")
checked_minor (absent ∷ []) = err (mapping_error "an invalid device minor")
checked_minor _ = err (mapping_error "a visible GPU lacks exactly one device mapping")

-- `f"nvidia{minor}"`
unfoldable pub node_name : ℕ → String
unfolding decimal
node_name minor = Str.◌++◌ "nvidia" (decimal minor "")

-- `f"/dev/nvidia{minor}"`
unfoldable pub device_path : ℕ → String
unfolding node_name
device_path minor = Str.◌++◌ "/dev/" (node_name minor)

-- `os.major(...) == nvidia_major`; no node has a negative one.
unfoldable pub is_major : ℤ → ℕ → Bool
is_major (pos n) major = nat_eq major n
is_major (negsuc n) major = false

-- The node is a character device with these numbers.
unfoldable pub check_node : ℤ → ℕ → Option NodeStat → Result (Unit {0})
unfolding is_major
check_node nvidia_major minor none = err (mapping_error "a visible GPU device node is unavailable")
check_node nvidia_major minor (some node) = do
  require node.is_character_device (mapping_error "not a character device")
  require (is_major nvidia_major node.major && nat_eq node.minor minor)
      (mapping_error "a visible GPU device node does not match the NVIDIA major/minor")

module _ (device_stat : String → Option NodeStat) (nvidia_major : ℤ)
    (rows : Dict (List Minor)) where
  -- One visible GPU: its path, where it may be added to the mapping.
  unfoldable pub device_of : String → Dict String → Result String
  unfolding checked_minor device_path check_node is_device_path contains values
  device_of uuid mapping = do
    minor ← checked_minor (rows_of (get uuid rows))
    require (is_device_path (device_path minor)) (mapping_error "an invalid device path")
    check_node nvidia_major minor (device_stat (node_name minor))
    refuse (contains (device_path minor) (values mapping))
        (mapping_error "visible GPUs reuse one device minor")
    ok (device_path minor)

  -- The loop of `_validate_mapping`.
  unfoldable pub map_devices : List String → Dict String → Result (Dict String)
  unfolding device_of
  map_devices [] mapping = ok mapping
  map_devices (uuid ∷ uuids) mapping =
      device_of uuid mapping >>= (λ path. map_devices uuids (put uuid path mapping))

  unfoldable pub validate_mapping : List String → Result (List (String × String))
  unfolding map_devices sort pair_ltb
  validate_mapping visible_uuids = do
    mapping ← map_devices visible_uuids []
    ok (sort pair_ltb mapping)

-- `majors.add(int(...))` for each line of the character devices that names the driver.
unfoldable pub driver_majors : Bool → List String → Result (List ℤ)
unfolding strip split_word python_int
driver_majors started [] = ok []
driver_majors started (line ∷ lines) =
    let stripped = strip line in
    let begun = driver_majors true lines in
    let later = driver_majors started lines in
    let (number, name) = split_word stripped in
    if stripped == "Character devices:"
    then begun
    else if stripped == "Block devices:"
    then ok []
    else if not started || not (name == "nvidia-frontend" || name == "nvidia")
    then later
    else elim (python_int number) [
      | none ↦ err (mapping_error "NVIDIA character device registry is malformed")
      | some n ↦ later >>= (λ majors. ok (n ∷ majors))
    ]

int_eq : ℤ → ℤ → Bool
int_eq a b = nat_eq (pos_part a + neg_part b) (pos_part b + neg_part a)

-- `next(iter(majors))`, where the set has one item
unfoldable pub only_major : List ℤ → Result ℤ
unfolding int_eq
only_major [] = err (mapping_error "NVIDIA character device major is unavailable or ambiguous")
only_major (n ∷ majors) =
    if all (int_eq n) majors
    then ok n
    else err (mapping_error "NVIDIA character device major is unavailable or ambiguous")

unfoldable pub nvidia_character_device_major : Option String → Result ℤ
unfolding driver_majors only_major splitlines
nvidia_character_device_major none =
    err (mapping_error "NVIDIA character device registry is unavailable")
nvidia_character_device_major (some registry) =
    driver_majors false (splitlines registry) >>= only_major

-- `{uuid: [minor] for uuid, minor in primary.items()}`
pub as_rows : Dict ℕ → Dict (List Minor)
as_rows [] = []
as_rows ((uuid, minor) ∷ primary) = (uuid, integer (pos minor) ∷ []) ∷ as_rows primary

unfoldable pub rows_for : Kernel → Option (Dict ℕ) → Result (Dict (List Minor))
unfolding as_rows proc_mapping_rows
rows_for k none = proc_mapping_rows k.information_files
rows_for k (some primary) = ok (as_rows primary)

unfoldable pub discover_gpu_mapping : Commands → Kernel → Result (List (String × String))
unfolding rows_for query_visible_uuids query_primary_mapping nvidia_character_device_major
    validate_mapping
discover_gpu_mapping c k = do
  visible_uuids ← query_visible_uuids c
  primary ← query_primary_mapping c
  rows ← rows_for k primary
  nvidia_major ← nvidia_character_device_major k.proc_devices
  validate_mapping k.device_stat nvidia_major rows visible_uuids

registry :
    nvidia_character_device_major (
      some
        "Character devices:\n 10 misc\n195 nvidia-frontend\n195 nvidia\n\nBlock devices:\n  8 nvidia\n")
    ≡ ok (pos 195)
unfolding nvidia_character_device_major
registry = refl

information :
    proc_mapping_rows (some "Model: \t X\nGPU UUID: \t GPU-a\nDevice Minor: \t 3\n" ∷ none ∷ [])
    ≡ ok (("GPU-a", text "3" ∷ []) ∷ [])
unfolding proc_mapping_rows get put
information = refl

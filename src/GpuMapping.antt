-- ===== src/GpuMapping.antt =====
-- gpu_mapping.py: which device node belongs to which physical GPU. Here are its texts: the UUIDs, and
-- the answers of the visibility command.
pub mod Query
pub mod Nodes
pub mod Review
pub mod Program
use Prim.Native.Char.{code}
use Prim.Native.String as Str
use astrum_weaver.Prelude.{
  ℕ, String, ◌≡◌, refl, Bool, true, false, ◌&&◌, ◌||◌, not, Option, none, some, List, [], ◌∷◌,
  nat_eq, length, if◌then◌else◌,
}
use astrum_weaver.Text.{is_space, is_blank, strip, text_ltb}
use astrum_weaver.Text.Lines.{splitlines, split_at, after_prefix}
use astrum_weaver.Text.Number.{is_number, int_from}
use astrum_weaver.Text.Order.{sort}
use astrum_weaver.Sets.{contains}
use astrum_weaver.Dict.{Dict, get, put}
use astrum_weaver.Result.{Result, ok, err, mapping_error, ◌>>=◌}

-- `[^\s,=]*`, matched whole
unfoldable pub is_plain : String → Bool
unfolding is_space
is_plain Str.[] = true
is_plain (Str.◌∷◌ c s) = not (is_space c || nat_eq (code c) 44 || nat_eq (code c) 61) && is_plain s

-- What follows the prefix, where it is not empty and passes a test.
abbrev pub rest_passes : (String → Bool) → Option String → Bool
rest_passes test none = false
rest_passes test (some s) = not (is_blank s) && test s

-- `_GPU_UUID_RE`
unfoldable pub is_gpu_uuid : String → Bool
unfolding is_plain after_prefix
is_gpu_uuid s = rest_passes is_plain (after_prefix "GPU-" s)

-- `_DEVICE_PATH_RE`
unfoldable pub is_device_path : String → Bool
unfolding is_number after_prefix
is_device_path s = rest_passes is_number (after_prefix "/dev/nvidia" s)

unfoldable pub validate_uuid : String → Result String
unfolding is_gpu_uuid strip
validate_uuid value =
    let normalized = strip value in
    if is_gpu_uuid normalized then ok normalized else err (mapping_error "GPU UUID data is invalid")

-- The lines that are not blank, each a UUID.
unfoldable pub uuids_of_lines : List String → Result (List String)
unfolding strip validate_uuid
uuids_of_lines [] = ok []
uuids_of_lines (line ∷ lines) =
    let more = uuids_of_lines lines in
    if is_blank (strip line)
    then more
    else (do uuid ← validate_uuid line; uuids ← more; ok (uuid ∷ uuids))

-- `len(set(values)) != len(values)`
unfoldable pub has_repeats : List String → Bool
unfolding contains
has_repeats [] = false
has_repeats (x ∷ xs) = contains x xs || has_repeats xs

-- The end that `_parse_visible_uuids` and `_load_expected` share.
unfoldable pub distinct_sorted : List String → Result (List String)
unfolding has_repeats sort
distinct_sorted values =
    if nat_eq (length values) 0
    then err (mapping_error "no GPU UUIDs")
    else if has_repeats values
    then err (mapping_error "GPU UUIDs are not unique")
    else ok (sort text_ltb values)

unfoldable pub parse_visible_uuids : String → Result (List String)
unfolding uuids_of_lines distinct_sorted splitlines
parse_visible_uuids output = do values ← uuids_of_lines (splitlines output); distinct_sorted values

add_minor : String → String → Dict ℕ → Result (Dict ℕ)
unfolding is_number int_from
add_minor uuid minor rows =
    if not (is_number minor)
    then err (mapping_error "NVIDIA GPU minor data is malformed")
    else elim (get uuid rows) [
      | some n ↦ err (mapping_error "NVIDIA GPU UUID/minor data is ambiguous")
      | none ↦ ok (put uuid (int_from 0 minor) rows)
    ]

-- One row, `uuid, minor`, among the rows that were read before.
unfoldable pub add_row : List String → Dict ℕ → Result (Dict ℕ)
unfolding validate_uuid add_minor strip
add_row (first ∷ second ∷ []) rows = do
  uuid ← validate_uuid (strip first)
  add_minor uuid (strip second) rows
add_row _ rows = err (mapping_error "NVIDIA GPU UUID/minor data is malformed")

unfoldable pub add_rows : List String → Dict ℕ → Result (Dict ℕ)
unfolding add_row split_at strip
add_rows [] rows = ok rows
add_rows (line ∷ lines) rows =
    if is_blank (strip line)
    then add_rows lines rows
    else add_row (split_at 44 line) rows >>= add_rows lines

unfoldable pub parse_uuid_minor_rows : String → Result (Dict ℕ)
unfolding add_rows splitlines
parse_uuid_minor_rows output = do
  rows ← add_rows (splitlines output) []
  if nat_eq (length rows) 0
      then err (mapping_error "NVIDIA GPU UUID/minor data is empty")
      else ok rows

visible : parse_visible_uuids "GPU-b\n\n GPU-a \n" ≡ ok ("GPU-a" ∷ "GPU-b" ∷ [])
unfolding parse_visible_uuids text_ltb
visible = refl

rows : parse_uuid_minor_rows "GPU-b, 1\nGPU-a, 00\n" ≡ ok (("GPU-b", 1) ∷ ("GPU-a", 0) ∷ [])
unfolding parse_uuid_minor_rows put get
rows = refl

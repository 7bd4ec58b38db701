-- ===== src/GpuMapping/Review.antt =====
-- The reviewed side of gpu_mapping.py: the expected UUIDs, the reviewed map, the Worker's order, and
-- the probe that only the selected devices can be opened. Opening and closing a device are operations
-- on a world.
pub mod Isolation
pub mod Plain
pub mod RoundTrip
use Prim.Native.String as Str
use astrum_weaver.Prelude.{
  ℕ, String, Bool, true, false, ◌&&◌, not, Option, none, some, List, [], ◌∷◌, ◌==◌, nat_eq, length,
  if◌then◌else◌,
}
use astrum_weaver.Text.{strip, text_ltb}
use astrum_weaver.Text.Lines.{splitlines, partition_at, prepend}
use astrum_weaver.Text.Order.{sort, pair_ltb}
use astrum_weaver.Sets.{contains, tuple_eq, option_eq}
use astrum_weaver.Dict.{Dict, get, put}
use astrum_weaver.GpuMapping.{
  validate_uuid, is_device_path, uuids_of_lines, distinct_sorted, has_repeats,
}
use astrum_weaver.Result.{
  Result, ok, err, mapping_error, isolation_unavailable, ◌>>=◌, ◌>>◌, require, refuse, Method,
  checked,
}

-- `_load_expected`, on the file's text; `none` is an `OSError` or a `UnicodeError`
unfoldable pub load_expected : Option String → Result (List String)
unfolding uuids_of_lines splitlines distinct_sorted
load_expected none = err (mapping_error "expected GPU UUID file is unavailable")
load_expected (some file) = uuids_of_lines (splitlines file) >>= distinct_sorted

-- `tuple(_validate_uuid(value) for value in values)`
unfoldable pub validate_uuids : List String → Result (List String)
unfolding validate_uuid
validate_uuids [] = ok []
validate_uuids (value ∷ values) = do
  uuid ← validate_uuid value
  uuids ← validate_uuids values
  ok (uuid ∷ uuids)

-- What the Worker's configuration has for `gpu_uuids`: the texts of a list, or a value of another type.
pub data GpuOrder : Type 0 where
  listed : List String → GpuOrder
  malformed : GpuOrder

-- `_load_worker_gpu_order`, on the configuration as it was read; `none` is an unreadable one
unfoldable pub load_worker_gpu_order : Option GpuOrder → Result (List String)
unfolding validate_uuids has_repeats
load_worker_gpu_order none = err (mapping_error "Worker GPU configuration is unavailable")
load_worker_gpu_order (some malformed) = err (mapping_error "Worker GPU UUID order is invalid")
load_worker_gpu_order (some (listed raw_values)) = do
  values ← validate_uuids raw_values
  refuse (nat_eq (length values) 0) (mapping_error "Worker GPU UUID order is empty")
  refuse (has_repeats values) (mapping_error "Worker GPU UUID order is not unique")
  ok values

-- The loop of `_select_mapping`.
unfoldable pub select_entries : Dict String → List String → Dict String → Result (Dict String)
select_entries available [] selected = ok selected
select_entries available (uuid ∷ uuids) selected = elim (get uuid available) [
  | none ↦ err (mapping_error "a configured GPU UUID is not visible")
  | some path ↦ select_entries available uuids (put uuid path selected)
]

-- `dict(pairs)`
unfoldable pub dict_of : List (String × String) → Dict String → Dict String
dict_of [] d = d
dict_of ((uuid, path) ∷ pairs) d = dict_of pairs (put uuid path d)

unfoldable pub select_mapping :
    List (String × String) → List String → Result (List (String × String))
unfolding select_entries dict_of sort pair_ltb
select_mapping mapping expected = do
  selected ← select_entries (dict_of mapping []) expected []
  ok (sort pair_ltb selected)

-- A line of the reviewed map: `uuid=path`, with a UUID that stands for the first time.
unfoldable pub add_pair : String → String → Dict String → Result (Dict String)
unfolding validate_uuid is_device_path strip
add_pair uuid_raw path mapping = do
  uuid ← validate_uuid (strip uuid_raw)
  require (is_device_path (strip path)) (mapping_error "reviewed GPU device map is malformed")
  require (option_eq (get uuid mapping) none) (mapping_error "reviewed GPU device map is ambiguous")
  ok (put uuid (strip path) mapping)

unfoldable pub add_line : String → Dict String → Result (Dict String)
unfolding add_pair partition_at
add_line line mapping =
    let (uuid_raw, path) = partition_at 61 line in
    elim path [
      | none ↦ err (mapping_error "reviewed GPU device map is malformed")
      | some device_path ↦ add_pair uuid_raw device_path mapping
    ]

unfoldable pub add_lines : List String → Dict String → Result (Dict String)
unfolding add_line
add_lines [] mapping = ok mapping
add_lines (line ∷ lines) mapping = add_line line mapping >>= add_lines lines

unfoldable pub load_reviewed_gpu_map : Option String → Result (List (String × String))
unfolding add_lines splitlines sort pair_ltb
load_reviewed_gpu_map none = err (mapping_error "reviewed GPU device map is unavailable")
load_reviewed_gpu_map (some file) = do
  mapping ← add_lines (splitlines file) []
  refuse (nat_eq (length mapping) 0) (mapping_error "reviewed GPU device map is empty")
  ok (sort pair_ltb mapping)

-- `print(f"{uuid}={device_path}")` for each entry
unfoldable pub print_map : List (String × String) → String
unfolding prepend
print_map [] = ""
print_map ((uuid, path) ∷ mapping) =
    prepend uuid (Str.◌∷◌ "=" (prepend path (Str.◌∷◌ "\n" (print_map mapping))))

-- `a == b`, for tuples of pairs
unfoldable pub pairs_eq : List (String × String) → List (String × String) → Bool
pairs_eq [] [] = true
pairs_eq [] (q ∷ qs) = false
pairs_eq (p ∷ ps) [] = false
pairs_eq ((a, b) ∷ ps) ((c, d) ∷ qs) = a == c && (b == d && pairs_eq ps qs)

-- The set of the paths, as a list.
unfoldable pub paths_of : List (String × String) → List String
paths_of [] = []
paths_of ((uuid, path) ∷ pairs) = path ∷ paths_of pairs

-- `a - b`, for sets
unfoldable pub set_minus : List String → List String → List String
unfolding contains
set_minus [] b = []
set_minus (x ∷ a) b = let rest = set_minus a b in if contains x b then rest else x ∷ rest

-- The items of a set in order, each once.
unfoldable pub once_each : List String → List String
unfolding contains
once_each [] = []
once_each (x ∷ xs) = let rest = once_each xs in if contains x xs then rest else x ∷ rest

-- `",".join(values)`
unfoldable pub join_comma : List String → String
join_comma [] = ""
join_comma (x ∷ []) = x
join_comma (x ∷ y ∷ values) = Str.◌++◌ x (Str.◌∷◌ "," (join_comma (y ∷ values)))

-- What `os.open` does: a descriptor, or an `OSError`, where `denied` is EACCES or EPERM.
pub data Opened : Type 0 where
  descriptor : ℕ → Opened
  denied : Opened
  failed : Opened

-- Opening the node of a logical path below the device root, and closing a descriptor.
pub record Devices (W : Type 0) : Type 0 where
  pub open_device : String → W → Opened × W
  pub close_device : ℕ → W → W

module _ {W : Type 0} (devices : Devices W) where
  -- The probes of the selected devices.
  unfoldable pub open_selected : List String → Method W (Unit {0})
  open_selected [] w = (ok tt, w)
  open_selected (path ∷ paths) w =
      let (opened, w') = devices.open_device path w in
      elim opened [
        | descriptor fd ↦ open_selected paths (devices.close_device fd w')
        | denied ↦ (err (mapping_error "selected GPU device access is unavailable"), w')
        | failed ↦ (err (mapping_error "selected GPU device access is unavailable"), w')
      ]

  -- The probes of all other devices.
  unfoldable pub probe_unselected : List String → Method W (Unit {0})
  probe_unselected [] w = (ok tt, w)
  probe_unselected (path ∷ paths) w =
      let (opened, w') = devices.open_device path w in
      elim opened [
        | descriptor fd ↦ (
          err (isolation_unavailable "GPU subset isolation is not enforceable"),
          devices.close_device fd w',
        )
        | denied ↦ probe_unselected paths w'
        | failed ↦ (err (mapping_error "unselected GPU device access probe failed ambiguously"), w')
      ]

-- The checks before the probes; the result is the selected mapping.
unfoldable pub reviewed_selection :
    List (String × String)
    → List String
    → List (String × String)
    → List String
    → Option String
    → Result (List (String × String))
unfolding select_mapping pairs_eq validate_uuids has_repeats tuple_eq option_eq join_comma sort
    pair_ltb
reviewed_selection mapping expected reviewed_mapping worker_gpu_order cuda_visible_devices = do
  selected ← select_mapping mapping expected
  require (pairs_eq selected (sort pair_ltb reviewed_mapping))
      (mapping_error "reviewed GPU device map changed")
  ordered ← validate_uuids worker_gpu_order
  refuse (has_repeats ordered) (mapping_error "Worker GPU UUID order is not unique")
  require (tuple_eq (sort text_ltb ordered) (sort text_ltb expected))
      (mapping_error "Worker GPU UUID order does not match selected set")
  require (option_eq cuda_visible_devices (some (join_comma ordered)))
      (mapping_error "CUDA visible-device order does not match Worker GPU order")
  ok selected

module _ {W : Type 0} (devices : Devices W) where
  -- The two rounds of probes, the second where the first has passed.
  unfoldable pub probe_devices : List String → List String → Method W (Unit {0})
  unfolding open_selected probe_unselected
  probe_devices selected others w =
      let (opened, w') = open_selected devices selected w in
      checked w' opened (λ u. probe_unselected devices others w')

  unfoldable pub verify_isolated_gpu_access :
      List (String × String)
      → List String
      → List (String × String)
      → List String
      → Option String
      → Method W (Unit {0})
  unfolding reviewed_selection probe_devices paths_of set_minus once_each sort
  verify_isolated_gpu_access mapping expected reviewed worker_gpu_order cuda_visible_devices w =
      checked w (reviewed_selection mapping expected reviewed worker_gpu_order cuda_visible_devices)
        (λ selected.
          let selected_paths = paths_of selected in
          probe_devices (sort text_ltb (once_each selected_paths))
            (sort text_ltb (once_each (set_minus (paths_of mapping) selected_paths))) w)

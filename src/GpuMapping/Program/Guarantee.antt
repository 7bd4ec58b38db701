-- ===== src/GpuMapping/Program/Guarantee.antt =====
-- What an exit with code 0 of the isolation check means for the host.
use astrum_weaver.Prelude.{ℕ, Within, Option, String, ◌≡◌, refl, sym, ap, List, [], ◌∷◌, ℤ, arith}
use astrum_weaver.Dict.{Dict}
use astrum_weaver.GpuMapping.Query.{Commands, query_visible_uuids, query_primary_mapping}
use astrum_weaver.GpuMapping.Nodes.{
  Kernel, Minor, discover_gpu_mapping, rows_for, device_path, nvidia_character_device_major,
}
use astrum_weaver.GpuMapping.Nodes.Laws.{MapsDevices, validate_mapping-MapsDevices}
use astrum_weaver.GpuMapping.Nodes.Sources.{Source, rows_for-Source}
use astrum_weaver.GpuMapping.Review.{
  load_expected, load_worker_gpu_order, load_reviewed_gpu_map, select_mapping,
  verify_isolated_gpu_access,
}
use astrum_weaver.GpuMapping.Review.Isolation.{IsIsolated, verify_isolated_gpu_access-IsIsolated}
use astrum_weaver.GpuMapping.Program.{
  verify_isolated_access, Host, code, exit_code, report_exit, main, run_mode, verify_isolated,
  expected_selection,
}
use astrum_weaver.Result.{
  Error, Result, ok, err, value_error, type_error, key_error, not_found, conflict, mapping_error,
  isolation_unavailable, runtime_error, transport_error, runtime_unavailable, >>=-eq-ok,
  checked-eq-ok,
}

-- A discovery that succeeded: what it went by, and what its mapping proves. Each path has the minor that
-- the command's row of its GPU, or the kernel's file of it, says.
pub record IsDiscovered (c : Commands) (k : Kernel) (mapping : List (String × String))
    : Type 0 where
  pub visible : List String
  pub seen : query_visible_uuids c ≡ ok visible
  pub primary : Option (Dict ℕ)
  pub queried : query_primary_mapping c ≡ ok primary
  pub rows : Dict (List Minor)
  pub gathered : rows_for k primary ≡ ok rows
  pub nvidia_major : ℤ
  pub registered : nvidia_character_device_major k.proc_devices ≡ ok nvidia_major
  pub maps : MapsDevices k.device_stat nvidia_major rows visible mapping
  pub sources :
      (uuid path : String)
      → Within (uuid, path) mapping
      → (minor : ℕ) × (path ≡ device_path minor) × Source c k uuid minor

pub discover_gpu_mapping-IsDiscovered :
    (c : Commands) (k : Kernel) (mapping : List (String × String))
    → discover_gpu_mapping c k ≡ ok mapping
    → IsDiscovered c k mapping
unfolding discover_gpu_mapping
discover_gpu_mapping-IsDiscovered c k mapping h =
    let (visible, seen, h1) = >>=-eq-ok (query_visible_uuids c) _ h in
    let (primary, queried, h2) = >>=-eq-ok (query_primary_mapping c) _ h1 in
    let (rows, found, h3) = >>=-eq-ok (rows_for k primary) _ h2 in
    let (major, registered, valid) =
      >>=-eq-ok (nvidia_character_device_major k.proc_devices) _ h3 in
    let maps = validate_mapping-MapsDevices k.device_stat major rows visible mapping valid in
    record {
      visible = visible;
      seen = seen;
      primary = primary;
      queried = queried;
      rows = rows;
      gathered = found;
      nvidia_major = major;
      registered = registered;
      maps = maps;
      sources = λ uuid path p.
          let (seen', device) = maps.each uuid path p in
          (
            device.minor,
            device.named,
            rows_for-Source c k primary rows uuid device.minor queried found device.listed,
          );
    }

exit_code-ne_zero : (e : Error) → exit_code e ≡ code 0 → ⊥
unfolding exit_code
exit_code-ne_zero (value_error s) h = cc (h)
exit_code-ne_zero (type_error s) h = cc (h)
exit_code-ne_zero (key_error s) h = cc (h)
exit_code-ne_zero (not_found s) h = cc (h)
exit_code-ne_zero (conflict s) h = cc (h)
exit_code-ne_zero (mapping_error s) h = ground (arith, h)
exit_code-ne_zero (isolation_unavailable s) h = ground (arith, h)
exit_code-ne_zero (runtime_error s) h = cc (h)
exit_code-ne_zero (transport_error s) h = cc (h)
exit_code-ne_zero runtime_unavailable h = cc (h)

report_exit-zero :
    (r : Result String) → (report_exit r).1 ≡ code 0 → (output : String) × (r ≡ ok output)
unfolding report_exit
report_exit-zero (ok output) h = (output, refl)
report_exit-zero (err e) h = absurd (exit_code-ne_zero e h)

module _ {W : Type 0} (host : Host W) where
  -- The host as an exit with code 0 proves it, for the three paths.
  pub record IsProven (expected_path reviewed_path order_path : String) (w : W) : Type 0 where
    pub mapping : List (String × String)
    pub discovered : IsDiscovered host.commands host.kernel mapping
    pub expected : List String
    pub wanted : load_expected (host.read_text expected_path) ≡ ok expected
    pub order : List String
    pub ordered : load_worker_gpu_order (host.read_order order_path) ≡ ok order
    pub reviewed : List (String × String)
    pub read : load_reviewed_gpu_map (host.read_text reviewed_path) ≡ ok reviewed
    pub isolated :
        IsIsolated host.devices mapping expected reviewed order host.cuda_visible_devices w

  -- An exit with code 0 of verify-isolated-access proves that exactly the visible GPUs are mapped, each
  -- to the node of the minor that its own row of the command or its own file of the kernel says, no two
  -- to the same one; and that, for the UUIDs, the map and the order that the three files hold, the
  -- selected devices opened and all others were denied, each in a state of the world that the probes
  -- of this run reached.
  pub main-IsProven :
      (expected_path reviewed_path order_path : String) (w : W)
      → (main host verify_isolated_access (expected_path ∷ reviewed_path ∷ order_path ∷ []) w).0.1
        ≡ code 0
      → IsProven expected_path reviewed_path order_path w
  unfolding main run_mode verify_isolated expected_selection
  main-IsProven expected_path reviewed_path order_path w h =
      let (output, done) = report_exit-zero _ h in
      let (mapping, found, h1) =
        checked-eq-ok w (discover_gpu_mapping host.commands host.kernel)
          (λ mapping.
            run_mode host verify_isolated_access (expected_path ∷ reviewed_path ∷ order_path ∷ [])
              mapping w)
          done in
      let (s, chosen, h2) =
        checked-eq-ok w (expected_selection host mapping expected_path)
          (λ s. verify_isolated host mapping s.0 reviewed_path order_path s.1 w) h1 in
      let (expected, wanted, h3) =
        >>=-eq-ok (load_expected (host.read_text expected_path)) _ chosen in
      let (selected, picked, h4) = >>=-eq-ok (select_mapping mapping expected) _ h3 in
      let (order, ordered, h5) =
        checked-eq-ok w (load_worker_gpu_order (host.read_order order_path)) _ h2 in
      let (reviewed, read, h6) =
        checked-eq-ok w (load_reviewed_gpu_map (host.read_text reviewed_path)) _ h5 in
      let (u, verified, h7) =
        checked-eq-ok _
          (verify_isolated_gpu_access host.devices mapping s.0 reviewed order
            host.cuda_visible_devices w).0
          _ h6 in
      let same : expected ≡ s.0 =
        (let p : (expected, selected) ≡ s = cc (h4) in
          ap (λ (x : List String × List (String × String)). x.0) p) in
      record {
        mapping = mapping;
        discovered = discover_gpu_mapping-IsDiscovered host.commands host.kernel mapping found;
        expected = s.0;
        wanted = rw (sym same) wanted;
        order = order;
        ordered = ordered;
        reviewed = reviewed;
        read = read;
        isolated =
            verify_isolated_gpu_access-IsIsolated host.devices mapping s.0 reviewed order
              host.cuda_visible_devices w verified;
      }

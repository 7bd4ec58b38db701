-- ===== src/Worker/Preflight/Confined.antt =====
-- A Worker that passes the check of worker/runtime.py is confined to its own GPUs.
use astrum_weaver.Prelude.{String, ◌≡◌, ap, ◌∙◌, List, ◌∷◌, Option, true}
use astrum_weaver.GpuMapping.Query.{Commands}
use astrum_weaver.GpuMapping.Nodes.{Kernel, discover_gpu_mapping}
use astrum_weaver.GpuMapping.Review.{Devices, load_reviewed_gpu_map}
use astrum_weaver.GpuMapping.Review.Isolation.{IsIsolated, verify_isolated_gpu_access-IsIsolated}
use astrum_weaver.GpuMapping.Program.Guarantee.{IsDiscovered, discover_gpu_mapping-IsDiscovered}
use astrum_weaver.Worker.Preflight.{is_absolute, reviewed_mapping, require_isolated_gpu_access}
use astrum_weaver.Result.{ok, >>=-eq-ok, require->>, checked-eq-ok, ok_inj}

module _ {W : Type 0} (c : Commands) (k : Kernel) (devices : Devices W)
    (read : String → Option String) where
  -- The host's GPUs are mapped to devices of their own, and for the reviewed map behind the path only
  -- the expected ones can be opened, listed in their order.
  pub record IsConfined (expected : List String) (path : String) (cuda : Option String) (w : W)
      : Type 0 where
    pub mapping : List (String × String)
    pub discovered : IsDiscovered c k mapping
    pub absolute : is_absolute path ≡ true
    pub reviewed : List (String × String)
    pub loaded : load_reviewed_gpu_map (read path) ≡ ok reviewed
    pub isolated : IsIsolated devices mapping expected reviewed expected cuda w

  -- A Worker with GPUs that passes the check of its isolation is confined to them: the host's visible
  -- GPUs are mapped to the nodes of the minors that their own rows or files say, the selected ones are
  -- those of the reviewed map behind the absolute path, CUDA_VISIBLE_DEVICES lists the Worker's UUIDs
  -- in their order, and in the states that the probes of this check reached each selected device
  -- opened and each other one was denied.
  pub require_isolated_gpu_access-IsConfined :
      (uuid : String) (uuids : List String) (path : String) (cuda : Option String) (w : W)
      → (require_isolated_gpu_access c k devices read (uuid ∷ uuids) path cuda w).0 ≡ ok tt
      → IsConfined (uuid ∷ uuids) path cuda w
  unfolding require_isolated_gpu_access
  require_isolated_gpu_access-IsConfined uuid uuids path cuda w h =
      let (m, found, verified) = checked-eq-ok w (reviewed_mapping c k (read path) path) _ h in
      let (absolute, h1) = require->> _ _ _ found in
      let (mapping, discovered, h2) = >>=-eq-ok (discover_gpu_mapping c k) _ h1 in
      let (reviewed, loaded, h3) = >>=-eq-ok (load_reviewed_gpu_map (read path)) _ h2 in
      let first : mapping ≡ m.0 =
        ap (λ (x : List (String × String) × List (String × String)). x.0) (ok_inj h3) in
      let second : reviewed ≡ m.1 =
        ap (λ (x : List (String × String) × List (String × String)). x.1) (ok_inj h3) in
      record {
        mapping = m.0;
        discovered = discover_gpu_mapping-IsDiscovered c k m.0 (discovered ∙ ap ok first);
        absolute = absolute;
        reviewed = m.1;
        loaded = loaded ∙ ap ok second;
        isolated =
            verify_isolated_gpu_access-IsIsolated devices m.0 (uuid ∷ uuids) m.1 (uuid ∷ uuids) cuda
              w verified;
      }

-- ===== src/GpuMapping/Nodes/Sources.antt =====
-- Where the minor of a discovered GPU comes from: the row of the command that names the GPU, or the
-- information file of the kernel that does.
pub mod Rows
pub mod Files
use astrum_weaver.Prelude.{ℕ, String, ◌≡◌, sym, Option, none, some, List, Within, subst}
use astrum_weaver.Text.Lines.{splitlines}
use astrum_weaver.Dict.{Dict, get}
use astrum_weaver.GpuMapping.Query.{Commands, CompletedProcess, query_primary_mapping}
use astrum_weaver.GpuMapping.Nodes.{Minor, Kernel, rows_of, checked_minor, rows_for}
use astrum_weaver.Result.{ok, ok_inj}
use astrum_weaver.GpuMapping.Nodes.Sources.Rows.{IsListed, primary-source, as_rows-minor}
use astrum_weaver.GpuMapping.Nodes.Sources.Files.{Informs, kernel-source}

-- What says that the GPU has the minor.
pub data Source (c : Commands) (k : Kernel) (uuid : String) (minor : ℕ) : Type 0 where
  by_command :
      (completed : CompletedProcess)
      → c.run "uuid,minor_number" ≡ some completed
      → IsListed (splitlines completed.stdout) uuid minor
      → Source c k uuid minor
  by_kernel :
      (file : String)
      → Within (some file) k.information_files
      → Informs file uuid minor
      → Source c k uuid minor

-- The minor of a GPU that the discovery goes by is the one that the command's row or, where the command
-- cannot tell minors, the kernel's file of this GPU says.
pub rows_for-Source :
    (c : Commands) (k : Kernel) (primary : Option (Dict ℕ)) (rows : Dict (List Minor))
    (uuid : String) (minor : ℕ)
    → query_primary_mapping c ≡ ok primary
    → rows_for k primary ≡ ok rows
    → checked_minor (rows_of (get uuid rows)) ≡ ok minor
    → Source c k uuid minor
unfolding rows_for
rows_for-Source c k none rows uuid minor queried found h =
    let (file, here, informs) = kernel-source k rows uuid minor found h in
    by_kernel file here informs
rows_for-Source c k (some d) rows uuid minor queried found h =
    let (completed, answered, all) = primary-source c d queried in
    by_command completed answered (
      all uuid minor (
        as_rows-minor d uuid minor
          (subst (λ r. checked_minor (rows_of (get uuid r)) ≡ ok minor) (sym (ok_inj found)) h)))

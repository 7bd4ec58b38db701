-- ===== src/Runtime/Planner.antt =====
-- runtime/planner.py: which of the installed runtime providers may serve a demand. The messages of
-- the reasons carry no numbers here.
pub mod Compatibility
pub mod Resolution
pub mod Witnesses
use astrum_weaver.Prelude.{
  ℕ, String, Bool, true, false, ◌&&◌, not, Option, none, some, List, [], ◌∷◌, ◌++◌, ◌==◌, nat_eq,
  ltb, if◌then◌else◌,
}
use astrum_weaver.Dict.{Dict, get, put}
use astrum_weaver.Text.{text_ltb}
use astrum_weaver.Sets.{option_eq}
use astrum_weaver.Runtime.Demand.{
  RuntimeSelection, RuntimeSelectionMode, explicit, recommend, GpuTopology, no_gpu, single_gpu,
  multi_gpu, ExecutionDemand, effective_min_gpu_count, RuntimeCompatibilityContext,
  CompatibilityReason, RuntimeCompatibility, compatible, RuntimeProvider,
}
use astrum_weaver.Result.{Error, Result, ok, err, value_error, key_error, ◌>>=◌}

pub record RuntimeResolution : Type 0 where
  pub selection : RuntimeSelection
  pub selected_provider_id : Option String
  pub compatible_provider_ids : List String
  pub reports : Dict RuntimeCompatibility

-- What `resolve_runtime` returns or raises; the two selection errors are `RuntimeSelectionError`.
pub data Outcome : Type 0 where
  resolved : RuntimeResolution → Outcome
  not_installed : String → Outcome
  incompatible : String → List CompatibilityReason → Outcome
  raised : Error → Outcome

reason_when : Bool → String → Bool → List CompatibilityReason
reason_when true code blocking = record { code = code; message = code; blocking = blocking } ∷ []
reason_when false code blocking = []

topology_differs : GpuTopology → ℕ → Bool
topology_differs no_gpu n = not (nat_eq n 0)
topology_differs single_gpu n = not (nat_eq n 1)
topology_differs multi_gpu n = ltb n 2

ram_reasons : ℕ → ExecutionDemand → List CompatibilityReason
unfolding reason_when
ram_reasons ram d =
    if ltb ram d.min_host_ram_mb
    then reason_when true "insufficient-host-ram" true
    else reason_when (not (nat_eq d.preferred_host_ram_mb 0) && ltb ram d.preferred_host_ram_mb)
        "below-preferred-host-ram" false

unfoldable pub generic_reasons : RuntimeCompatibilityContext → List CompatibilityReason
unfolding reason_when topology_differs ram_reasons
generic_reasons c =
    let shape = c.worker.resources in
    let d = c.demand in
    reason_when (topology_differs d.gpu_topology shape.gpu_count) "gpu-topology-mismatch" true
    ++ (reason_when (ltb shape.gpu_count (effective_min_gpu_count d)) "insufficient-gpu-count" true
        ++ (reason_when (ltb shape.total_vram_mb d.min_total_vram_mb) "insufficient-total-vram" true
            ++ (reason_when (ltb shape.max_single_gpu_vram_mb d.min_single_gpu_vram_mb)
                  "insufficient-single-gpu-vram" true
                ++ ram_reasons c.host.host_ram_mb d)))

unfoldable pub evaluate_provider :
    RuntimeProvider → RuntimeCompatibilityContext → Result RuntimeCompatibility
evaluate_provider provider context =
    let report = provider.compatibility context in
    if not (report.provider_id == provider.info.provider_id)
    then err (value_error "provider_id")
    else ok (record {
      provider_id = provider.info.provider_id;
      reasons = generic_reasons context ++ report.reasons;
    })

-- `RuntimeCatalog(providers)`: the providers by their identities, which must differ.
unfoldable pub index_providers :
    List RuntimeProvider → Dict RuntimeProvider → Result (Dict RuntimeProvider)
index_providers [] indexed = ok indexed
index_providers (p ∷ ps) indexed =
    let id = p.info.provider_id in
    let rest = index_providers ps (put id p indexed) in
    elim (get id indexed) [ none ↦ rest | some q ↦ err (value_error "duplicate runtime provider") ]

unfoldable pub runtime_catalog : List RuntimeProvider → Result (Dict RuntimeProvider)
runtime_catalog providers = index_providers providers []

-- `evaluate_catalog`: the reports in the order of the list; the catalog keeps the identities apart.
unfoldable pub evaluate_all :
    Dict RuntimeProvider → RuntimeCompatibilityContext → Result (Dict RuntimeCompatibility)
evaluate_all [] context = ok []
evaluate_all ((id, provider) ∷ rest) context = do
  report ← evaluate_provider provider context
  more ← evaluate_all rest context
  ok ((provider.info.provider_id, report) ∷ more)

-- `sorted(d)`, with the values
insert_entry {ℓ} : {V : Type ℓ} → String → V → Dict V → Dict V
insert_entry id v [] = (id, v) ∷ []
insert_entry id v ((k, w) ∷ d) =
    if text_ltb k id then (k, w) ∷ insert_entry id v d else (id, v) ∷ (k, w) ∷ d

unfoldable pub sort_entries {ℓ} : {V : Type ℓ} → Dict V → Dict V
unfolding insert_entry
sort_entries [] = []
sort_entries ((id, v) ∷ d) = insert_entry id v (sort_entries d)

compatible_ids : Dict RuntimeCompatibility → List String
compatible_ids [] = []
compatible_ids ((id, report) ∷ rest) =
    let ids = compatible_ids rest in if compatible report then id ∷ ids else ids

-- The check of `RuntimeResolution(...)`: an explicit choice is kept, and a recommendation selects nothing.
unfoldable pub keeps_choice : RuntimeSelectionMode → Option String → Option String → Bool
keeps_choice explicit selected chosen = option_eq selected chosen
keeps_choice recommend selected chosen = option_eq selected none

-- `RuntimeResolution(...)`
unfoldable pub runtime_resolution :
    RuntimeSelection → Option String → Dict RuntimeCompatibility → Outcome
unfolding keeps_choice compatible_ids
runtime_resolution selection selected reports =
    if keeps_choice selection.mode selected selection.provider_id
    then resolved (record {
      selection = selection;
      selected_provider_id = selected;
      compatible_provider_ids = compatible_ids (sort_entries reports);
      reports = reports;
    })
    else raised (value_error "selected_provider_id")

-- The explicit choice of `id`, with what the catalog and the reports have for it.
unfoldable pub choose :
    RuntimeSelection
    → String
    → Dict RuntimeCompatibility
    → Option RuntimeProvider
    → Option RuntimeCompatibility
    → Outcome
choose selection id reports none found = not_installed id
choose selection id reports (some provider) none = raised (key_error id)
choose selection id reports (some provider) (some report) =
    if not (compatible report)
    then incompatible id report.reasons
    else runtime_resolution selection (some id) reports

unfoldable pub select_runtime :
    RuntimeSelectionMode
    → Option String
    → Dict RuntimeProvider
    → RuntimeSelection
    → Dict RuntimeCompatibility
    → Outcome
unfolding choose
select_runtime recommend chosen catalog selection reports =
    runtime_resolution selection none reports
select_runtime explicit none catalog selection reports = raised (value_error "assert")
select_runtime explicit (some id) catalog selection reports =
    choose selection id reports (get id catalog) (get id reports)

-- The providers are evaluated in the order of their identities.
unfoldable pub resolve_runtime :
    Dict RuntimeProvider → RuntimeCompatibilityContext → RuntimeSelection → Outcome
resolve_runtime catalog context selection = elim (evaluate_all (sort_entries catalog) context) [
  | err e ↦ raised e
  | ok reports ↦ select_runtime selection.mode selection.provider_id catalog selection reports
]

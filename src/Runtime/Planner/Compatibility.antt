-- ===== src/Runtime/Planner/Compatibility.antt =====
-- What the generic reasons of the planner test.
use astrum_weaver.Prelude.{
  ℕ, String, ◌≡◌, refl, ◌≤◌, ◌↔◌, Bool, true, false, ◌||◌, ◌&&◌, not, List, [], ◌∷◌, ◌++◌, any, ltb,
  nat_eq, arith, Bool-cases, inl, inr, ◌∙◌,
}
use astrum_weaver.Runtime.Demand.{
  GpuTopology, no_gpu, single_gpu, multi_gpu, ExecutionDemand, effective_min_gpu_count,
  CompatibilityReason, RuntimeCompatibilityContext,
}
use astrum_weaver.Runtime.Planner.{generic_reasons, reason_when, topology_differs, ram_reasons}

abbrev pub TopologyFits : GpuTopology → ℕ → Type 0
TopologyFits no_gpu n = n ≡ 0
TopologyFits single_gpu n = n ≡ 1
TopologyFits multi_gpu n = 2 ≤ n

-- The worker and its host have what the demand requires.
pub record FitsDemand (c : RuntimeCompatibilityContext) : Type 0 where
  pub topology : TopologyFits c.demand.gpu_topology c.worker.resources.gpu_count
  pub gpu_count : effective_min_gpu_count c.demand ≤ c.worker.resources.gpu_count
  pub total_vram : c.demand.min_total_vram_mb ≤ c.worker.resources.total_vram_mb
  pub single_vram : c.demand.min_single_gpu_vram_mb ≤ c.worker.resources.max_single_gpu_vram_mb
  pub host_ram : c.demand.min_host_ram_mb ≤ c.host.host_ram_mb

abbrev pub blocks : List CompatibilityReason → Bool
blocks reasons = any (λ (r : CompatibilityReason). r.blocking) reasons

pub blocks-append :
    (xs ys : List CompatibilityReason) → blocks (xs ++ ys) ≡ (blocks xs || blocks ys)
blocks-append [] ys = refl
blocks-append (x ∷ xs) ys = ground (arith, blocks-append xs ys)

blocks-reason_when :
    (b : Bool) (code : String) (blocking : Bool)
    → blocks (reason_when b code blocking) ≡ (b && blocking)
unfolding reason_when
blocks-reason_when true code blocking = ground arith
blocks-reason_when false code blocking = refl

blocks-hard : (b : Bool) (code : String) → blocks (reason_when b code true) ≡ b
blocks-hard b code = blocks-reason_when b code true ∙ ground arith

blocks-soft : (b : Bool) → blocks (reason_when b "below-preferred-host-ram" false) ≡ false
blocks-soft b = blocks-reason_when b "below-preferred-host-ram" false ∙ ground arith

blocks-ram_reasons :
    (ram : ℕ) (d : ExecutionDemand) → blocks (ram_reasons ram d) ≡ ltb ram d.min_host_ram_mb
unfolding ram_reasons
blocks-ram_reasons ram d = elim (Bool-cases (ltb ram d.min_host_ram_mb)) [
  | inl e ↦ rw e (blocks-reason_when true "insufficient-host-ram" true)
  | inr e ↦
      rw e (blocks-soft (not (nat_eq d.preferred_host_ram_mb 0) && ltb ram d.preferred_host_ram_mb))
]

TopologyFits-differs : (t : GpuTopology) (n : ℕ) → (topology_differs t n ≡ false) ↔ TopologyFits t n
unfolding topology_differs
TopologyFits-differs no_gpu n = (λ h. ground (arith, h), λ h. ground (arith, h))
TopologyFits-differs single_gpu n = (λ h. ground (arith, h), λ h. ground (arith, h))
TopologyFits-differs multi_gpu n = (λ h. ground (arith, h), λ h. ground (arith, h))

blocks-generic_reasons :
    (c : RuntimeCompatibilityContext)
    → blocks (generic_reasons c) ≡ (
        topology_differs c.demand.gpu_topology c.worker.resources.gpu_count
        || (ltb c.worker.resources.gpu_count (effective_min_gpu_count c.demand)
            || (ltb c.worker.resources.total_vram_mb c.demand.min_total_vram_mb
                || (ltb c.worker.resources.max_single_gpu_vram_mb c.demand.min_single_gpu_vram_mb
                    || ltb c.host.host_ram_mb c.demand.min_host_ram_mb))))
unfolding generic_reasons
blocks-generic_reasons c = simp (blocks-append, blocks-hard, blocks-ram_reasons)

-- The generic reasons block a provider exactly when the worker or its host lacks what is required.
pub generic_reasons_iff :
    (c : RuntimeCompatibilityContext) → (blocks (generic_reasons c) ≡ false) ↔ FitsDemand c
generic_reasons_iff c =
    let topology = TopologyFits-differs c.demand.gpu_topology c.worker.resources.gpu_count in
    (
      λ h.
          let t = rw (blocks-generic_reasons c) at h in
          record {
            topology = topology.0 (ground (arith, t));
            gpu_count = ground (arith, t);
            total_vram = ground (arith, t);
            single_vram = ground (arith, t);
            host_ram = ground (arith, t);
          },
      λ f. rw (blocks-generic_reasons c) (
          ground
            (arith, topology.1 f.topology, f.gpu_count, f.total_vram, f.single_vram, f.host_ram)),
    )

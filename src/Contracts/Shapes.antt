-- ===== src/Contracts/Shapes.antt =====
-- What `ResourceShape` and `WorkerSpec` accept.
use astrum_weaver.Prelude.{
  ◌≤◌, ◌≡◌, ◌⊎◌, inl, inr, ◌↔◌, not, ◌||◌, List, [], ◌∷◌, ltb, nat_eq, ℤ, pos, negsuc, arith,
  length, map, subst, ap,
}
use astrum_weaver.Contracts.{
  AcceleratorDevice, sum_memory, max_memory, ResourceShape, check_shape, resource_shape,
  nonnegative, WorkerSpec, WorkerSpecArgs, check_devices, worker_spec, require_nonblank,
  unique_strings, normalize_labels,
}
use astrum_weaver.Sets.{tuple_eq}
use astrum_weaver.Sets.Laws.{tuple_eq_sound}
use astrum_weaver.Result.{Result, ok, value_error, >>=-eq-ok, require, require-ok, if_cases}

-- No GPU and no memory, or at least one GPU, memory, and no GPU with more than all of it.
abbrev pub IsShape : ResourceShape → Type 0
IsShape s =
    ((s.gpu_count ≡ 0) × (s.total_vram_mb ≡ 0) × (s.max_single_gpu_vram_mb ≡ 0))
    ⊎ ((1 ≤ s.gpu_count)
        × (1 ≤ s.max_single_gpu_vram_mb)
        × (s.max_single_gpu_vram_mb ≤ s.total_vram_mb))

check_shape-ok : (s r : ResourceShape) → check_shape s ≡ ok r → (s ≡ r) × IsShape s
unfolding check_shape
check_shape-ok s r =
    let P : Result ResourceShape → Type 0 = λ x. x ≡ ok r → (s ≡ r) × IsShape s in
    if_cases P (nat_eq s.gpu_count 0)
      (λ none'.
        if_cases P (not (nat_eq s.total_vram_mb 0) || not (nat_eq s.max_single_gpu_vram_mb 0))
          (λ _ h. absurd (cc h))
          (λ zero' h.
            (cc h, inl (ground (arith, none'), ground (arith, zero'), ground (arith, zero')))))
      (λ some'.
        if_cases P (nat_eq s.total_vram_mb 0) (λ _ h. absurd (cc h))
          λ total.
            if_cases P (nat_eq s.max_single_gpu_vram_mb 0) (λ _ h. absurd (cc h))
              λ single.
                if_cases P (ltb s.total_vram_mb s.max_single_gpu_vram_mb) (λ _ h. absurd (cc h))
                  λ within h. (
                    cc h,
                    inr (ground (arith, some'), ground (arith, single), ground (arith, within)),
                  ))

shape-check : (s : ResourceShape) → IsShape s → check_shape s ≡ ok s
unfolding check_shape
shape-check s (inl h) = ground (arith, h)
shape-check s (inr h) = ground (arith, h)

IsShape-accepted :
    (count total single : ℤ) (r : ResourceShape)
    → resource_shape count total single ≡ ok r
    → (count ≡ pos r.gpu_count)
      × (total ≡ pos r.total_vram_mb)
      × (single ≡ pos r.max_single_gpu_vram_mb)
      × IsShape r
unfolding resource_shape nonnegative
IsShape-accepted (pos a) (pos c) (pos d) r h =
    let shape : ResourceShape = record {
      gpu_count = a;
      total_vram_mb = c;
      max_single_gpu_vram_mb = d;
    } in
    let (e, fits) = check_shape-ok shape r h in
    (
      ap (λ (x : ResourceShape). pos x.gpu_count) e,
      ap (λ (x : ResourceShape). pos x.total_vram_mb) e,
      ap (λ (x : ResourceShape). pos x.max_single_gpu_vram_mb) e,
      subst IsShape e fits,
    )
IsShape-accepted (pos a) (pos c) (negsuc d) r h = absurd (cc h)
IsShape-accepted (pos a) (negsuc c) d r h = absurd (cc h)
IsShape-accepted (negsuc a) c d r h = absurd (cc h)

-- `ResourceShape` accepts exactly the numbers of a shape, which are not negative, and keeps them: no GPU
-- and no memory, or at least one GPU, memory, and no single GPU with more memory than all of them.
pub resource_shape_iff :
    (count total single : ℤ) (r : ResourceShape)
    → (resource_shape count total single ≡ ok r) ↔ (
        (count ≡ pos r.gpu_count)
        × (total ≡ pos r.total_vram_mb)
        × (single ≡ pos r.max_single_gpu_vram_mb)
        × IsShape r)
unfolding resource_shape nonnegative
resource_shape_iff count total single r =
    (IsShape-accepted count total single r, λ (c, t, m, fits). rw (c, t, m) (shape-check r fits))

abbrev DescribesDevices : List AcceleratorDevice → WorkerSpec → Type 0
DescribesDevices [] w = Unit
DescribesDevices (d ∷ ds) w =
    (map (λ a. a.uuid) (d ∷ ds) ≡ w.gpu_uuids)
    × (sum_memory (d ∷ ds) ≡ w.resources.total_vram_mb)
    × (max_memory (d ∷ ds) ≡ w.resources.max_single_gpu_vram_mb)

-- A worker names as many devices as its shape counts; where it describes the devices, they are those,
-- in order, and their memory adds up to its shape.
pub record IsConsistent (w : WorkerSpec) : Type 0 where
  pub counted : length w.gpu_uuids ≡ w.resources.gpu_count
  pub described : DescribesDevices w.accelerators w

check_devices-ok :
    (ds : List AcceleratorDevice) (w r : WorkerSpec)
    → check_devices ds w ≡ ok r
    → (w ≡ r) × DescribesDevices ds w
unfolding check_devices
check_devices-ok [] w r = λ h. (cc h, tt)
check_devices-ok (d ∷ ds) w r =
    let P : Result WorkerSpec → Type 0 = λ x. x ≡ ok r → (w ≡ r) × DescribesDevices (d ∷ ds) w in
    if_cases P (not (nat_eq (length (d ∷ ds)) w.resources.gpu_count)) (λ _ h. absurd (cc h))
      λ _.
        if_cases P (not (tuple_eq (map (λ a. a.uuid) (d ∷ ds)) w.gpu_uuids)) (λ _ h. absurd (cc h))
          λ order.
            if_cases P (not (nat_eq (sum_memory (d ∷ ds)) w.resources.total_vram_mb))
              (λ _ h. absurd (cc h))
              λ total.
                if_cases P (not (nat_eq (max_memory (d ∷ ds)) w.resources.max_single_gpu_vram_mb))
                  (λ _ h. absurd (cc h))
                  λ single h. (
                    cc h,
                    (
                      tuple_eq_sound (map (λ a. a.uuid) (d ∷ ds)) w.gpu_uuids
                          (ground (arith, order)),
                      ground (arith, total),
                      ground (arith, single),
                    ),
                  )

-- `WorkerSpec` accepts only a consistent worker: as many device names as its shape counts, and, where
-- devices are described, exactly those, in order, with the memory of the shape in all and at most.
pub worker_spec-IsConsistent :
    (a : WorkerSpecArgs) (w : WorkerSpec) → worker_spec a ≡ ok w → IsConsistent w
unfolding worker_spec
worker_spec-IsConsistent a w h =
    let (worker_id, _, h₁) = >>=-eq-ok (require_nonblank a.worker_id "worker_id") _ h in
    let (worker_class, _, h₂) = >>=-eq-ok (require_nonblank a.worker_class "worker_class") _ h₁ in
    let (gpu_uuids, _, h₃) = >>=-eq-ok (unique_strings a.gpu_uuids "gpu_uuids") _ h₂ in
    let (capabilities, _, h₄) = >>=-eq-ok (unique_strings a.capabilities "capabilities") _ h₃ in
    let (labels, _, h₅) = >>=-eq-ok (normalize_labels a.labels) _ h₄ in
    let (u, counted, h₆) =
      >>=-eq-ok
        (require (nat_eq (length gpu_uuids) a.resources.gpu_count) (value_error "gpu_uuids count"))
        _ h₅ in
    let (e, described) = check_devices-ok a.accelerators _ w h₆ in
    subst IsConsistent e
      (record { counted = ground (arith, require-ok _ _ u counted); described = described })

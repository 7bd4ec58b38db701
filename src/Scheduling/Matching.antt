-- ===== src/Scheduling/Matching.antt =====
-- What it means that a worker matches, said without the list of reasons.
use mathlib.Core.List.{append_assoc}
use astrum_weaver.Prelude.{
  String, ◌≡◌, refl, ◌≤◌, ◌↔◌, Bool, true, false, ◌&&◌, not, Option, none, some, List, [], ◌∷◌,
  ◌++◌, eq_iff, ltb, arith, Bool-cases, inl, inr,
}
use astrum_weaver.Text.{is_blank}
use astrum_weaver.Dict.{Dict, get, Entries}
use astrum_weaver.Sets.{contains, subset, option_eq}
use astrum_weaver.Sets.Laws.{subset_sound, subset_complete, option_eq_iff}
use astrum_weaver.Contracts.{WorkerSpec, JobRequirements}
use astrum_weaver.Scheduling.{
  Reason, reason_if, class_differs, label_reasons, reasons_of, no_reasons, worker_matches,
}

abbrev ClassFits : String → Option String → Type 0
ClassFits c none = Unit
ClassFits c (some required) = (is_blank required ≡ false) → c ≡ required

pub record Satisfies (w : WorkerSpec) (r : JobRequirements) : Type 0 where
  pub class : ClassFits w.worker_class r.worker_class
  pub capabilities :
      (c : String) → contains c r.required_capabilities ≡ true → contains c w.capabilities ≡ true
  pub labels : Entries (λ key value. get key w.labels ≡ some value) r.required_labels
  pub gpus : (u : String) → contains u r.required_gpu_uuids ≡ true → contains u w.gpu_uuids ≡ true
  pub gpu_count : r.min_gpu_count ≤ w.resources.gpu_count
  pub total_vram : r.min_total_vram_mb ≤ w.resources.total_vram_mb
  pub single_vram : r.min_single_gpu_vram_mb ≤ w.resources.max_single_gpu_vram_mb

labels_fit : Dict String → Dict String → Bool
labels_fit labels [] = true
labels_fit labels ((key, value) ∷ required) =
    option_eq (get key labels) (some value) && labels_fit labels required

no_reasons-if :
    (b : Bool) (r : Reason) (rs : List Reason)
    → no_reasons (reason_if b r ++ rs) ≡ (not b && no_reasons rs)
unfolding no_reasons reason_if
no_reasons-if true r rs = refl
no_reasons-if false r rs = refl

no_reasons-one : (b : Bool) (r : Reason) → no_reasons (reason_if b r) ≡ not b
unfolding no_reasons reason_if
no_reasons-one true r = refl
no_reasons-one false r = refl

and-assoc-not : (a b c : Bool) → (not (not a) && (b && c)) ≡ ((a && b) && c)
and-assoc-not a b c = ground arith

not-not : (a : Bool) → not (not a) ≡ a
not-not a = ground arith

no_reasons-labels :
    (labels required : Dict String) (rs : List Reason)
    → no_reasons (label_reasons labels required ++ rs)
      ≡ (labels_fit labels required && no_reasons rs)
unfolding label_reasons labels_fit
no_reasons-labels labels [] rs = refl
no_reasons-labels labels ((key, value) ∷ required) rs =
    simp (append_assoc, no_reasons-if, no_reasons-labels labels required rs)
      (and-assoc-not (option_eq (get key labels) (some value)) _ _)

labels_fit_iff :
    (labels required : Dict String)
    → (labels_fit labels required ≡ true)
      ↔ Entries (λ key value. get key labels ≡ some value) required
unfolding labels_fit
labels_fit_iff labels [] = (λ h. tt, λ h. refl)
labels_fit_iff labels ((key, value) ∷ required) =
    let ih = labels_fit_iff labels required in
    let here = option_eq_iff (get key labels) value in
    (
      λ h. (here.0 (ground (arith, h)), ih.0 (ground (arith, h))),
      λ h. ground (arith, here.1 h.0, ih.1 h.1),
    )

-- The tests of `match_worker` as one conjunction.
worker_matches-tests :
    (w : WorkerSpec) (r : JobRequirements)
    → worker_matches w r ≡ (
        not (class_differs w.worker_class r.worker_class)
        && (subset r.required_capabilities w.capabilities
            && (labels_fit w.labels r.required_labels
                && (subset r.required_gpu_uuids w.gpu_uuids
                    && (not (ltb w.resources.gpu_count r.min_gpu_count)
                        && (not (ltb w.resources.total_vram_mb r.min_total_vram_mb)
                            && not (
                                ltb w.resources.max_single_gpu_vram_mb
                                  r.min_single_gpu_vram_mb)))))))
unfolding worker_matches reasons_of
worker_matches-tests w r = simp (no_reasons-if, no_reasons-labels, no_reasons-one, not-not)

class_fits : (c : String) (o : Option String) → class_differs c o ≡ false → ClassFits c o
unfolding class_differs
class_fits c none h = tt
class_fits c (some required) h = λ nonblank. ground (arith, eq_iff c required, h, nonblank)

ClassFits-conv : (c : String) (o : Option String) → ClassFits c o → class_differs c o ≡ false
unfolding class_differs
ClassFits-conv c none h = refl
ClassFits-conv c (some required) h = elim (Bool-cases (is_blank required)) [
  | inl e ↦ rw e
  | inr e ↦ rw (e, (eq_iff c required).1 (h e))
]

sound : (w : WorkerSpec) (r : JobRequirements) → worker_matches w r ≡ true → Satisfies w r
sound w r h =
    let t = rw (worker_matches-tests w r) at h in
    record {
      class = class_fits w.worker_class r.worker_class (ground (arith, t));
      capabilities = λ c. subset_sound r.required_capabilities w.capabilities c (ground (arith, t));
      labels = (labels_fit_iff w.labels r.required_labels).0 (ground (arith, t));
      gpus = λ u. subset_sound r.required_gpu_uuids w.gpu_uuids u (ground (arith, t));
      gpu_count = ground (arith, t);
      total_vram = ground (arith, t);
      single_vram = ground (arith, t);
    }

complete : (w : WorkerSpec) (r : JobRequirements) → Satisfies w r → worker_matches w r ≡ true
complete w r s = rw (worker_matches-tests w r) (
    ground (
      arith,
      ClassFits-conv w.worker_class r.worker_class s.class,
      subset_complete r.required_capabilities w.capabilities s.capabilities,
      (labels_fit_iff w.labels r.required_labels).1 s.labels,
      subset_complete r.required_gpu_uuids w.gpu_uuids s.gpus,
      s.gpu_count,
      s.total_vram,
      s.single_vram,
    ))

-- A worker matches exactly when it has the class, the capabilities, the labels, the devices and the
-- memory that the job requires.
pub worker_matches_iff :
    (w : WorkerSpec) (r : JobRequirements) → (worker_matches w r ≡ true) ↔ Satisfies w r
worker_matches_iff w r = (sound w r, complete w r)

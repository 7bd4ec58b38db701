-- ===== src/Scheduling.antt =====
-- scheduling.py: which jobs a worker may run.
pub mod Matching
use astrum_weaver.Prelude.{
  String, Bool, true, false, ◌&&◌, not, Option, none, some, List, [], ◌∷◌, ◌++◌, ◌==◌, ltb,
}
use astrum_weaver.Text.{is_blank}
use astrum_weaver.Dict.{Dict, get}
use astrum_weaver.Sets.{subset, option_eq}
use astrum_weaver.Contracts.{WorkerSpec, JobRequirements}

-- The texts that `match_worker` appends.
pub data Reason : Type 0 where
  worker_class capabilities gpu_uuids gpu_count total_vram_mb max_single_gpu_vram_mb : Reason
  label : String → Reason

pub record MatchResult : Type 0 where
  pub matched : Bool
  pub reasons : List Reason

reason_if : Bool → Reason → List Reason
reason_if true r = r ∷ []
reason_if false r = []

-- `requirements.worker_class and worker.worker_class != requirements.worker_class`
class_differs : String → Option String → Bool
class_differs c none = false
class_differs c (some required) = not (is_blank required) && not (c == required)

label_reasons : Dict String → Dict String → List Reason
unfolding reason_if
label_reasons labels [] = []
label_reasons labels ((key, value) ∷ required) =
    reason_if (not (option_eq (get key labels) (some value))) (label key)
    ++ label_reasons labels required

reasons_of : WorkerSpec → JobRequirements → List Reason
unfolding reason_if class_differs label_reasons
reasons_of w r =
    reason_if (class_differs w.worker_class r.worker_class) worker_class
    ++ (reason_if (not (subset r.required_capabilities w.capabilities)) capabilities
        ++ (label_reasons w.labels r.required_labels
            ++ (reason_if (not (subset r.required_gpu_uuids w.gpu_uuids)) gpu_uuids
                ++ (reason_if (ltb w.resources.gpu_count r.min_gpu_count) gpu_count
                    ++ (reason_if (ltb w.resources.total_vram_mb r.min_total_vram_mb) total_vram_mb
                        ++ reason_if
                            (ltb w.resources.max_single_gpu_vram_mb r.min_single_gpu_vram_mb)
                            max_single_gpu_vram_mb)))))

no_reasons : List Reason → Bool
no_reasons [] = true
no_reasons (r ∷ rs) = false

unfoldable pub match_worker : WorkerSpec → JobRequirements → MatchResult
unfolding reasons_of no_reasons
match_worker w r =
    let reasons = reasons_of w r in record { matched = no_reasons reasons; reasons = reasons }

unfoldable pub worker_matches : WorkerSpec → JobRequirements → Bool
unfolding match_worker
worker_matches w r = (match_worker w r).matched

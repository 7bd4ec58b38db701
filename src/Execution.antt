-- ===== src/Execution.antt =====
-- execution.py: what an executor is given and what it returns. Each constructor checks its
-- arguments as `__post_init__` does; a metric is a value that must be a number.
use astrum_weaver.Prelude.{
  ℕ, ◌+◌, String, Bool, true, false, not, Option, none, some, List, [], ◌∷◌, if◌then◌else◌, ℤ,
}
use astrum_weaver.Text.{strip, is_blank}
use astrum_weaver.Value.{Value, int, Mapping}
use astrum_weaver.Contracts.{require_nonblank, nonnegative}
use astrum_weaver.Result.{Result, ok, err, value_error, type_error, ◌>>=◌, ◌>>◌}

pub record ArtifactRef : Type 0 where
  pub uri : String
  pub media_type : Option String
  pub digest : Option String
  pub size_bytes : Option ℕ
  pub name : Option String
  pub metadata : Mapping

pub record JobRequest : Type 0 where
  pub job_id : String
  pub capability : String
  pub payload : Mapping
  pub metadata : Mapping

pub record JobResult : Type 0 where
  pub outputs : Mapping
  pub artifacts : List ArtifactRef
  pub metrics : Mapping
  pub text : Option String
  pub metadata : Mapping

pub record ResidencyItem : Type 0 where
  pub name : String
  pub kind : String
  pub accelerator_memory_bytes : Option ℕ
  pub metadata : Mapping

pub record ResidencyReport : Type 0 where
  pub items : List ResidencyItem
  pub observed_at : ℕ
  pub metadata : Mapping

nonblank_if_given : Option String → String → Result (Option String)
nonblank_if_given none field_name = ok none
nonblank_if_given (some value) field_name = do
  normalized ← require_nonblank value field_name
  ok (some normalized)

nonnegative_if_given : Option ℤ → String → Result (Option ℕ)
nonnegative_if_given none field_name = ok none
nonnegative_if_given (some n) field_name = do value ← nonnegative n field_name; ok (some value)

unfoldable pub artifact_ref :
    String → Option String → Option String → Option ℤ → Option String → Mapping → Result ArtifactRef
unfolding nonblank_if_given nonnegative_if_given
artifact_ref uri media_type digest size_bytes name metadata = do
  uri' ← require_nonblank uri "uri"
  media_type' ← nonblank_if_given media_type "media_type"
  digest' ← nonblank_if_given digest "digest"
  name' ← nonblank_if_given name "name"
  size ← nonnegative_if_given size_bytes "size_bytes"
  ok (record {
    uri = uri';
    media_type = media_type';
    digest = digest';
    size_bytes = size;
    name = name';
    metadata = metadata;
  })

unfoldable pub job_request : String → String → Mapping → Mapping → Result JobRequest
job_request job_id capability payload metadata = do
  job_id' ← require_nonblank job_id "job_id"
  capability' ← require_nonblank capability "capability"
  ok (record { job_id = job_id'; capability = capability'; payload = payload; metadata = metadata })

is_number : Value → Bool
is_number (int n) = true
is_number _ = false

-- The loop over `metrics.items()`: keys are texts here, and a Boolean is no number.
check_metrics : Mapping → Result (Unit {0})
unfolding is_number
check_metrics [] = ok tt
check_metrics ((key, value) ∷ rest) =
    let next = check_metrics rest in
    if is_blank (strip key)
    then err (value_error "metrics")
    else if not (is_number value)
    then err (type_error "metrics")
    else next

unfoldable pub job_result :
    Mapping → List ArtifactRef → Mapping → Option String → Mapping → Result JobResult
unfolding check_metrics
job_result outputs artifacts metrics text metadata = do
  check_metrics metrics
  ok (record {
    outputs = outputs;
    artifacts = artifacts;
    metrics = metrics;
    text = text;
    metadata = metadata;
  })

unfoldable pub residency_item : String → String → Option ℤ → Mapping → Result ResidencyItem
unfolding nonnegative_if_given
residency_item name kind memory metadata = do
  name' ← require_nonblank name "name"
  kind' ← require_nonblank kind "kind"
  memory' ← nonnegative_if_given memory "accelerator_memory_bytes"
  ok (record {
    name = name';
    kind = kind';
    accelerator_memory_bytes = memory';
    metadata = metadata;
  })

-- `item.accelerator_memory_bytes or 0`
bytes_of : Option ℕ → ℕ
bytes_of none = 0
bytes_of (some n) = n

sum_bytes : List ResidencyItem → ℕ
unfolding bytes_of
sum_bytes [] = 0
sum_bytes (item ∷ items) = bytes_of item.accelerator_memory_bytes + sum_bytes items

unfoldable pub accelerator_memory_bytes : ResidencyReport → ℕ
unfolding sum_bytes
accelerator_memory_bytes report = sum_bytes report.items

-- ===== src/Pipeline.antt =====
-- app/services/pipeline.py: the stages that the cockpit shows for a document, and the class of a
-- failure. `lower` is Python's `str.lower`, whose table of cases belongs to Unicode.
pub mod Stages
pub mod Failures
use document_intelligence_mv.Prelude.{
  ℕ, zero, suc, ◌≡◌, refl, Bool, true, false, not, ◌&&◌, ◌||◌, Option, none, some, List, [], ◌∷◌,
  map, Text, codes, ltb, ◌==◌, nat_eq, if◌then◌else◌, Eq, is_space, strip, is_empty, has_part, any,
}
use document_intelligence_mv.Models.{
  DocumentStatus, JobStatus, Document, IngestionJob, document_status_eq,
}

-- PIPELINE_STAGES
pub data Stage : Type 0 where
  uploaded parsed chunked embedded indexed ready : Stage

Stage-discrete : Discrete Stage
Stage-discrete = hlevel

instance unfoldable pub stage_eq : Eq Stage
unfolding Stage-discrete
stage_eq = record { dec = Stage-discrete }

abbrev pub pipeline_stages : List Stage
pipeline_stages = uploaded ∷ parsed ∷ chunked ∷ embedded ∷ indexed ∷ ready ∷ []

pub record PipelineStage : Type 0 where
  pub id : Stage
  pub complete : Bool
  pub current : Bool

pub data FailureClass : Type 0 where
  vector_store configuration provider database document_processing : FailureClass

pub record PipelineView : Type 0 where
  pub stages : List PipelineStage
  pub current_stage : Stage
  pub failed : Bool
  pub failure_class : Option FailureClass
  pub error_type : Option Text
  pub chunk_count : ℕ
  pub parser_name : Option Text
  pub embedding_provider : Option Text
  pub embedding_model : Option Text
  pub embedding_version : Option Text
  pub job_status : Option JobStatus
  pub job_attempts : Option ℕ

-- `reason.split(":", 1)[0]`
unfoldable pub before_colon : Text → Text
before_colon [] = []
before_colon (c ∷ s) = let rest = before_colon s in if c == 58 then [] else c ∷ rest

-- `token.split()[-1]`: what follows the last whitespace of a text that ends in none.
unfoldable pub last_word : Text → Text
last_word [] = []
last_word (c ∷ s) = let rest = last_word s in if any is_space s || is_space c then rest else c ∷ s

abbrev contains_any : Text → List Text → Bool
contains_any s parts = any (λ part. has_part s part) parts

-- The ladder of `if`s over the lowered reason.
unfoldable pub class_of : Text → FailureClass
class_of lowered =
    if has_part lowered (codes "vectorstore") || has_part lowered (codes "qdrant")
    then vector_store
    else if has_part lowered (codes "providerconfiguration")
        || has_part lowered (codes "not configured")
    then configuration
    else if contains_any lowered (
        codes "openai"
        ∷ codes "embedding"
        ∷ codes "llm"
        ∷ codes "provider"
        ∷ codes "profilingerror"
        ∷ codes "profiling"
        ∷ codes "ratelimit"
        ∷ [])
    then provider
    else if has_part lowered (codes "database") || has_part lowered (codes "postgres")
    then database
    else document_processing

unfoldable pub error_type_of : Text → Text
unfolding strip before_colon last_word
error_type_of reason =
    let token = strip (before_colon reason) in
    if is_empty token then codes "Error" else last_word token

-- `bool(value)` of a text or None
abbrev pub truthy : Option Text → Bool
truthy none = false
truthy (some s) = not (is_empty s)

abbrev pub is_some : {A : Type 0} → Option A → Bool
is_some none = false
is_some (some a) = true

module _ (lower : Text → Text) where
  unfoldable pub classify_failure : Option Text → Option FailureClass × Option Text
  unfolding class_of error_type_of
  classify_failure none = (none, none)
  classify_failure (some reason) =
      if is_empty reason
      then (none, none)
      else (some (class_of (lower reason)), some (error_type_of reason))

-- The dict `done` of `build_pipeline`.
unfoldable pub done : Document → ℕ → Stage → Bool
done d chunks uploaded = true
done d chunks parsed =
    (truthy d.parser_name || (truthy d.normalized_key || truthy d.content_hash))
    || (ltb 0 chunks
        || (is_some d.embedding_provider
            || (is_some d.embedding_dimensions || d.status == DocumentStatus.ready)))
done d chunks chunked =
    ltb 0 chunks
    || (is_some d.embedding_provider
        || (is_some d.embedding_dimensions || d.status == DocumentStatus.ready))
done d chunks embedded =
    is_some d.embedding_provider
    || (is_some d.embedding_dimensions || d.status == DocumentStatus.ready)
done d chunks indexed = is_some d.embedding_dimensions || d.status == DocumentStatus.ready
done d chunks ready = d.status == DocumentStatus.ready

-- The loop that finds the first stage that is not done; `ready` if there is none.
unfoldable pub first_open : (Stage → Bool) → List Stage → Stage
first_open is_done [] = ready
first_open is_done (stage ∷ stages) =
    let rest = first_open is_done stages in if not (is_done stage) then stage else rest

module _ (lower : Text → Text) where
  abbrev failure_of : Document → Option IngestionJob → Option FailureClass × Option Text
  failure_of d none =
      if d.status == DocumentStatus.failed then classify_failure lower none else (none, none)
  failure_of d (some j) =
      if d.status == DocumentStatus.failed
      then classify_failure lower j.last_error
      else (none, none)

  unfoldable pub build_pipeline : Document → ℕ → Option IngestionJob → PipelineView
  unfolding first_open
  build_pipeline d chunks job =
      let current = first_open (done d chunks) pipeline_stages in
      record {
        stages =
            map
              (λ stage. record {
                id = stage;
                complete = done d chunks stage;
                current = stage == current;
              })
              pipeline_stages;
        current_stage = current;
        failed = d.status == DocumentStatus.failed;
        failure_class = (failure_of d job).0;
        error_type = (failure_of d job).1;
        chunk_count = chunks;
        parser_name = d.parser_name;
        embedding_provider = d.embedding_provider;
        embedding_model = d.embedding_model;
        embedding_version = d.embedding_version;
        job_status = (elim job [ none ↦ none | some j ↦ some j.status ]);
        job_attempts = (elim job [ none ↦ none | some j ↦ some j.attempts ]);
      }

-- ===== src/Tests/Views.antt =====
-- app/services/pipeline.py on a document that has failed.
use document_intelligence_mv.Prelude.{
  ◌≡◌, ◌≢◌, ◌↔◌, refl, none, some, Text, codes, All, nat_eq, text_eq, has_part,
}
use document_intelligence_mv.Models.{
  Document, DocumentStatus, IngestionJob, JobStatus, document_status_eq,
}
use document_intelligence_mv.Jobs.{new_job}
use document_intelligence_mv.Pipeline.{build_pipeline, classify_failure, vector_store}
use document_intelligence_mv.Pipeline.Stages.{build_pipeline-stages, InLine, marked, CurrentIs}
use document_intelligence_mv.Pipeline.Failures.{classify_failure-IsToken, IsToken}
use document_intelligence_mv.Tests.Samples.{ascii_lower, sample_document}

abbrev reason : Text
reason = codes "unexpected VectorStoreError: search failed"

abbrev broken : Document
broken = record sample_document { status = DocumentStatus.failed }

abbrev spent : IngestionJob
spent = record (new_job 1 0 7 70 3) {
  status = JobStatus.failed;
  attempts = 3;
  last_error = some reason;
}

classify_failure_runs :
    classify_failure ascii_lower (some reason)
    ≡ (some vector_store, some (codes "VectorStoreError"))
unfolding classify_failure nat_eq has_part
classify_failure_runs = refl

build_pipeline-stages_example :
    let v = build_pipeline ascii_lower broken 0 (some spent) in
    InLine v.stages × (marked v.stages ≡ 1) × All (CurrentIs v) v.stages
build_pipeline-stages_example = build_pipeline-stages ascii_lower broken 0 (some spent)

classify_failure-IsToken_example :
    ((e : Text) → (classify_failure ascii_lower (some reason)).1 ≡ some e → IsToken e)
    × (((classify_failure ascii_lower (some reason)).0 ≡ none)
        ↔ ((classify_failure ascii_lower (some reason)).1 ≡ none))
classify_failure-IsToken_example = classify_failure-IsToken ascii_lower (some reason)

class_is_shown : (build_pipeline ascii_lower broken 0 (some spent)).failure_class ≢ none
unfolding build_pipeline document_status_eq classify_failure
class_is_shown h = cc

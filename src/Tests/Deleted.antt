-- ===== src/Tests/Deleted.antt =====
-- A document that is deleted while a worker has its job in hand.
use document_intelligence_mv.Prelude.{
  ℕ, ◌≡◌, refl, true, false, Option, none, some, [], ◌∷◌, Text, codes, inl, nat_eq, text_eq,
  option_eq, arith,
}
use document_intelligence_mv.Errors.{Result, returns}
use document_intelligence_mv.Models.{job_status_eq}
use document_intelligence_mv.Actions.{◌>>=◌}
use document_intelligence_mv.VectorStore as V
use document_intelligence_mv.VectorStore.{delete_matching, filter_of, collection_is_absent}
use document_intelligence_mv.Lexical.{resolve_source}
use document_intelligence_mv.Jobs.{finished_job}
use document_intelligence_mv.World.{World}
use document_intelligence_mv.Worker.{handle_job}
use document_intelligence_mv.Deletion.{
  Services, DeletionOutcome, delete_document, delete_adapter_artifacts, delete_members,
  drop_derived, mark_deleted,
}
use document_intelligence_mv.Deletion.Gone.{
  IsGone, delete_document-IsGone, resolve_source-delete_document,
}
use document_intelligence_mv.Deletion.Late.{handle_job-delete_document}
use document_intelligence_mv.Deletion.Again.{delete_document_again}
use document_intelligence_mv.Tests.Samples.{percents}
use document_intelligence_mv.Tests.Vectors.{Points, client, client-IsQdrant}
use document_intelligence_mv.VectorStore.Laws.{entries_of}
use document_intelligence_mv.Deletion.Unindexed.{delete_document-IsEmptied}
use document_intelligence_mv.Tests.Processed as T

abbrev services : Services Text Points ℕ
services = record {
  storage = T.storage;
  client = client;
  vector_store = some (codes "chunks");
  document_vectors = none;
  json_loads = λ s. record { package_id = none; member_storage_keys = [] };
  drop_document_evidence = λ tenant document o. (o, returns tt);
  drop_package_rows = λ tenant document payload o. (o, returns tt);
}

abbrev done : World Text Points ℕ × Result (Option DeletionOutcome)
done = delete_document services 9 7 70 (T.world T.held)

abbrev outcome : DeletionOutcome
outcome = record { document_id = 70; already_deleted = false }

delete_document_runs :
    delete_document services 9 7 70 (T.world T.held) ≡ (done.0, returns (some outcome))
unfolding delete_document delete_adapter_artifacts delete_members drop_derived mark_deleted
    V.delete_document delete_matching filter_of collection_is_absent nat_eq text_eq ◌>>=◌
delete_document_runs = refl

delete_document-IsGone_example : IsGone services 9 7 70 (T.tables T.held) done.0.db
delete_document-IsGone_example =
    delete_document-IsGone services 9 7 70 (T.world T.held) done.0 outcome delete_document_runs

resolve_source-delete_document_example :
    resolve_source percents done.0.db 7 70 (codes "F:00000") ≡ none
resolve_source-delete_document_example =
    resolve_source-delete_document percents services 9 7 70 (T.world T.held) done.0 outcome
      (codes "F:00000") delete_document_runs

handle_job-delete_document_example :
    handle_job percents T.services (codes "w1") 30 T.type_name T.message (T.turn 0) T.held done.0
    ≡ (
      record done.0 { db = record done.0.db { jobs = finished_job 6 T.held ∷ done.0.db.jobs } },
      returns tt,
    )
handle_job-delete_document_example =
    handle_job-delete_document percents T.services services (codes "w1") 30 T.type_name T.message
      (T.turn 0) T.held (T.world T.held) done.0 outcome (T.single-IsQueue T.held (ground arith))
      (record { stands = inl refl; running = refl; holder = refl }) 9 delete_document_runs

delete_document-IsEmptied_example :
    entries_of 7 70 (client-IsQdrant.points done.0.index (codes "chunks")) ≡ []
delete_document-IsEmptied_example =
    delete_document-IsEmptied services client-IsQdrant 9 7 70 (T.world T.held) done.0 outcome
      (codes "chunks") delete_document_runs (inl refl)

abbrev again : World Text Points ℕ × Result (Option DeletionOutcome)
again = delete_document services 12 7 70 done.0

abbrev later_outcome : DeletionOutcome
later_outcome = record { document_id = 70; already_deleted = true }

again_runs : delete_document services 12 7 70 done.0 ≡ (again.0, returns (some later_outcome))
unfolding delete_document delete_adapter_artifacts delete_members drop_derived mark_deleted
    V.delete_document delete_matching filter_of collection_is_absent nat_eq text_eq ◌>>=◌
again_runs = refl

delete_document_again_example : (again.0.db ≡ done.0.db) × (later_outcome.already_deleted ≡ true)
delete_document_again_example =
    delete_document_again services 9 12 7 70 (T.world T.held) done.0 again.0 outcome later_outcome
      delete_document_runs again_runs

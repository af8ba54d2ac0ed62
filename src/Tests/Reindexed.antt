-- ===== src/Tests/Reindexed.antt =====
-- A ready document whose vectors are computed again, alone and with its tenant's.
use document_intelligence_mv.Prelude.{
  ℕ, ◌≡◌, ◌≤◌, refl, true, Option, none, List, [], ◌∷◌, Text, codes, In, nat_eq, text_eq, option_eq,
  length, sort_by,
}
use document_intelligence_mv.Errors.{Result, returns}
use document_intelligence_mv.Models.{Document, DocumentStatus, document_status_eq}
use document_intelligence_mv.Actions.{◌>>=◌}
use document_intelligence_mv.VectorStore.{
  upsert_chunks, delete_document, delete_matching, filter_of, collection_is_absent,
  ensure_collection, collection_dimensions,
}
use document_intelligence_mv.Ingestion.{get_document, list_chunks}
use document_intelligence_mv.Indexing.{index_document}
use document_intelligence_mv.Providers.{is_current_embedding}
use document_intelligence_mv.World.{World}
use document_intelligence_mv.Reindexing.{
  ReindexOutcome, TenantReindexOutcome, reindex_document, reindex_tenant, is_live_of, count_all,
  count_one,
}
use document_intelligence_mv.Reindexing.Current.{IsCurrent, reindex_document-IsCurrent}
use document_intelligence_mv.Reindexing.Counting.{Reindexed, reindex_tenant_counts}
use document_intelligence_mv.Reindexing.Worklist.{IsWorklist}
use document_intelligence_mv.Tests.Samples.{percents, sample_document}
use document_intelligence_mv.Tests.Vectors.{Points, client}
use document_intelligence_mv.Tests.Processed as T

abbrev ready_world : World Text Points ℕ
ready_world = record (T.world T.held) {
  db = record (T.tables T.held) {
    documents = record sample_document { status = DocumentStatus.ready } ∷ [];
  };
}

abbrev no_mean : List (List ℕ) → Result (Option (List ℕ))
no_mean vectors = returns none

abbrev done : World Text Points ℕ × Result ReindexOutcome
done = reindex_document percents client T.provider (codes "chunks") none no_mean 7 70 ready_world

abbrev outcome : ReindexOutcome
outcome = record { document_id = 70; indexed = 1; stale_before = true }

reindex_document_runs :
    reindex_document percents client T.provider (codes "chunks") none no_mean 7 70 ready_world
    ≡ (done.0, returns outcome)
unfolding reindex_document is_current_embedding index_document upsert_chunks delete_document
    delete_matching filter_of collection_is_absent ensure_collection collection_dimensions
    get_document list_chunks sort_by nat_eq text_eq option_eq ◌>>=◌
reindex_document_runs = refl

reindex_document-IsCurrent_example :
    (d : Document) × In d ready_world.db.documents
    × (is_live_of 7 70 d ≡ true)
    × IsCurrent T.provider d done.0.db
    × (1 ≤ 1)
reindex_document-IsCurrent_example =
    reindex_document-IsCurrent percents client T.provider (codes "chunks") none no_mean 7 70
      ready_world done.0 outcome reindex_document_runs

abbrev tenant_done : World Text Points ℕ × Result TenantReindexOutcome
tenant_done = reindex_tenant percents client T.provider (codes "chunks") none no_mean 7 ready_world

abbrev tenant_outcome : TenantReindexOutcome
tenant_outcome = record {
  tenant_id = 7;
  reindexed = 1;
  skipped = 0;
  failed = 0;
  documents = outcome ∷ [];
}

reindex_tenant_runs :
    reindex_tenant percents client T.provider (codes "chunks") none no_mean 7 ready_world
    ≡ (tenant_done.0, returns tenant_outcome)
unfolding reindex_tenant count_all count_one reindex_document is_current_embedding index_document
    upsert_chunks delete_document delete_matching filter_of collection_is_absent ensure_collection
    collection_dimensions get_document list_chunks sort_by nat_eq text_eq option_eq
    document_status_eq ◌>>=◌
reindex_tenant_runs = refl

reindex_tenant_counts_example :
    (ds : List Document) × IsWorklist 7 ready_world.db.documents ds
    × Reindexed percents client T.provider
        (codes "chunks")
        none
        no_mean
        7
        ds
        ready_world
        tenant_done.0
        (outcome ∷ [])
        0
        0
    × (tenant_outcome.reindexed ≡ length (outcome ∷ []))
    × (tenant_outcome.tenant_id ≡ 7)
reindex_tenant_counts_example =
    reindex_tenant_counts percents client T.provider (codes "chunks") none no_mean 7 ready_world
      tenant_done.0 tenant_outcome (tt, tt) reindex_tenant_runs

-- ===== src/Database.antt =====
-- The durable store as one value: a list of rows for each table of app/models.py that the services
-- below read. `F` is the type of scores.
use document_intelligence_mv.Prelude.{◌≡◌, ◌≢◌, List, Pairs}
use document_intelligence_mv.Models.{Document, Chunk, DocumentProfile, IngestionJob}
use document_intelligence_mv.Relations.{DocumentRelation}

pub record Db (F : Type 0) : Type 0 where
  pub documents : List Document
  pub chunks : List Chunk
  pub profiles : List DocumentProfile
  pub relations : List (DocumentRelation F)
  pub jobs : List IngestionJob

-- The constraints that lookups rest on: a document is known by its id, and a chunk by its id and by
-- its tenant with its source id (`uq_chunks_tenant_source_id`).
pub record IsKeyed {F : Type 0} (db : Db F) : Type 0 where
  pub document_ids : Pairs (λ a b. b.id ≢ a.id) db.documents
  pub chunk_ids : Pairs (λ a b. b.id ≢ a.id) db.chunks
  pub source_ids : Pairs (λ a b. b.tenant_id ≡ a.tenant_id → b.source_id ≢ a.source_id) db.chunks

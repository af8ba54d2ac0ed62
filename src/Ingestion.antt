-- ===== src/Ingestion.antt =====
-- app/services/documents.py and app/services/ingestion.py: queries on a tenant's documents and chunks, and
-- the way of an upload into the tables and the object storage. `put` is the storage backend, which may
-- raise, and `uuid_text` the text of an id. The advisory lock makes a call one step.
pub mod Once
use document_intelligence_mv.Prelude.{
  ℕ, Bool, true, false, not, ◌&&◌, ◌||◌, Option, none, some, List, [], ◌∷◌, ◌++◌, Text, codes,
  select, first, take, drop, length, any, sort_by, leb, ◌==◌, nat_eq, text_eq, option_eq,
}
use document_intelligence_mv.Errors.{
  Result, returns, raises, integrity_error, raise_if, ◌>>=◌, ◌>>◌,
}
use document_intelligence_mv.Models.{
  Document, DocumentStatus, Chunk, IngestionJob, is_live_document,
}
use document_intelligence_mv.Database.{Db}
use document_intelligence_mv.Jobs.{enqueue}
use document_intelligence_mv.Uploads.{Libraries, ValidatedUpload, safe_filename}

abbrev pub is_live_of : ℕ → Document → Bool
is_live_of tenant d = d.tenant_id == tenant && is_live_document d

abbrev pub has_file_hash : ℕ → Text → Document → Bool
has_file_hash tenant hash d = d.file_hash == hash && is_live_of tenant d

module _ {F : Type 0} where
  unfoldable pub get_document : Db F → ℕ → ℕ → Option Document
  get_document db tenant document =
      first (select (λ d. d.id == document && is_live_of tenant d) db.documents)

  -- ORDER BY created_at DESC
  unfoldable pub list_documents : Db F → ℕ → ℕ → ℕ → List Document
  list_documents db tenant limit offset = take limit (
      drop offset (
        sort_by (λ (a : Document) b. leb b.created_at a.created_at)
          (select (is_live_of tenant) db.documents)))

  unfoldable pub find_by_file_hash : Db F → ℕ → Text → Option Document
  find_by_file_hash db tenant hash = first (select (has_file_hash tenant hash) db.documents)

  unfoldable pub find_by_content_hash : Db F → ℕ → Text → List Document
  find_by_content_hash db tenant hash =
      select (λ d. d.content_hash == some hash && is_live_of tenant d) db.documents

  unfoldable pub list_chunks : Db F → ℕ → ℕ → List Chunk
  list_chunks db tenant document =
      sort_by (λ (a : Chunk) b. leb a.ordinal b.ordinal)
        (select (λ c. c.tenant_id == tenant && c.document_id == document) db.chunks)

  unfoldable pub count_chunks : Db F → ℕ → ℕ → ℕ
  count_chunks db tenant document =
      length (select (λ (c : Chunk). c.tenant_id == tenant && c.document_id == document) db.chunks)

pub record IngestionResult : Type 0 where
  pub document : Document
  pub is_duplicate : Bool

-- An object of the storage: its key, content and type.
abbrev pub Storage : Type 0
Storage = List (Text × Text × Text)

-- A new row clashes with one of its id, or with a live one of its tenant and bytes.
abbrev pub clashes : Document → Document → Bool
clashes new d = d.id == new.id || (d.file_hash == new.file_hash && is_live_of new.tenant_id d)

unfoldable pub insert_document : Document → List Document → Result (List Document)
insert_document new documents = do
  raise_if (any (clashes new) documents || not (length new.file_hash == 64)) integrity_error
  returns (new ∷ documents)

module _ (l : Libraries) (uuid_text : ℕ → Text) where
  unfoldable pub storage_key_for : ℕ → ℕ → Text → Text
  storage_key_for tenant document filename =
      uuid_text tenant
      ++ (codes "/" ++ (uuid_text document ++ (codes "/" ++ safe_filename l filename)))

  abbrev pub new_document : ℕ → ℕ → ℕ → ValidatedUpload → Document
  new_document id now tenant upload = record {
    id = id;
    tenant_id = tenant;
    filename = upload.filename;
    mime_type = upload.mime_type;
    storage_key = storage_key_for tenant id upload.filename;
    file_hash = upload.file_hash;
    content_hash = none;
    normalized_key = none;
    parser_name = none;
    status = DocumentStatus.queued;
    title = none;
    document_type = none;
    summary = none;
    embedding_provider = none;
    embedding_model = none;
    embedding_version = none;
    embedding_dimensions = none;
    created_at = now;
    updated_at = now;
    deleted_at = none;
  }

module _ {F : Type 0} (put : Text → Text → Text → Result (Unit {0})) where
  -- The job, with the default of `max_attempts`; `job` is its fresh id.
  abbrev pub queue_for : Db F → List Document → Document → ℕ → ℕ → Result (IngestionResult × Db F)
  queue_for db documents d job now = do
    queued ← enqueue db.jobs job now d.tenant_id d.id 3
    returns (
      record { document = d; is_duplicate = false },
      record db { documents = documents; jobs = queued.1 },
    )

  abbrev pub after_put :
      Result (Unit {0})
      → Db F
      → Storage
      → List Document
      → Document
      → Text
      → ℕ
      → ℕ
      → Storage × Result (IngestionResult × Db F)
  after_put (raises e) db storage documents d content job now = (storage, raises e)
  after_put (returns _) db storage documents d content job now =
      ((d.storage_key, content, d.mime_type) ∷ storage, queue_for db documents d job now)

  abbrev pub after_insert :
      Result (List Document)
      → Db F
      → Storage
      → Document
      → Text
      → ℕ
      → ℕ
      → Storage × Result (IngestionResult × Db F)
  after_insert (raises e) db storage d content job now = (storage, raises e)
  after_insert (returns documents) db storage d content job now =
      after_put (put d.storage_key content d.mime_type) db storage documents d content job now

  abbrev pub ingest_after :
      Option Document
      → Db F
      → Storage
      → Document
      → Text
      → ℕ
      → ℕ
      → Storage × Result (IngestionResult × Db F)
  ingest_after (some existing) db storage d content job now =
      (storage, returns (record { document = existing; is_duplicate = true }, db))
  ingest_after none db storage d content job now =
      after_insert (insert_document d db.documents) db storage d content job now

  -- What is in the storage afterwards, and the result with the tables; a caller rolls the tables back if the
  -- call raises, and the storage stays.
  unfoldable pub ingest_upload :
      Libraries
      → (ℕ → Text)
      → Db F
      → Storage
      → ℕ
      → ValidatedUpload
      → Text
      → ℕ
      → ℕ
      → ℕ
      → Storage × Result (IngestionResult × Db F)
  unfolding find_by_file_hash insert_document
  ingest_upload l uuid_text db storage tenant upload content id job now =
      ingest_after (find_by_file_hash db tenant upload.file_hash) db storage
        (new_document l uuid_text id now tenant upload) content job now

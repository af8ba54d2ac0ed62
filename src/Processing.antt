-- ===== src/Processing.antt =====
-- app/services/processing.py, with app/services/document_vectors.py behind `combine`: one job, from the stored
-- object to a document that is ready. The parser, the model, the adapters of a package
-- (`ingest_artifact`, which writes objects and tables that are not modelled) and the ids of new rows
-- are parameters.
pub mod Storing
pub mod Keeping
pub mod Holding
pub mod Running
pub mod Replacing
pub mod Frame
pub mod Citing
use document_intelligence_mv.Prelude.{
  ℕ, suc, ◌+◌, Bool, true, false, not, ◌&&◌, ◌||◌, Option, none, some, List, [], ◌∷◌, ◌++◌, map,
  Text, codes, first, select, length, is_empty, contains, any, update_where, ◌==◌, nat_eq, text_eq,
  option_eq, if◌then◌else◌,
}
use document_intelligence_mv.Errors.{Error, Result, raises, returns, parsing_error, integrity_error}
use document_intelligence_mv.Models.{
  Document, DocumentStatus, Chunk, IngestionJob, JobStatus, job_status_eq, is_live_document,
}
use document_intelligence_mv.Floats.{Floats}
use document_intelligence_mv.Database.{Db}
use document_intelligence_mv.Providers.{EmbeddingProvider}
use document_intelligence_mv.VectorStore.{
  Client, ensure_collection, delete_document, upsert_vector, similar,
}
use document_intelligence_mv.Actions.{
  Action, pure, raise, or_raise, from_result, stop_if, ◌>>=◌, ◌>>◌,
}
use document_intelligence_mv.Normalization.{normalize_text, content_hash, source_id_for}
use document_intelligence_mv.Normalization as N
use document_intelligence_mv.Jobs.{fail}
use document_intelligence_mv.Relations.{
  Settings, Candidate, DocumentRelation, classify, detect_relations,
}
use document_intelligence_mv.Relations.Gathering.{gather_candidates}
use document_intelligence_mv.Indexing.{IndexingOutcome, index_document}
use document_intelligence_mv.Profiling.{ExtractedProfile, profile_document}
use document_intelligence_mv.World.{
  World, StorageBackend, on_index, on_objects, query, execute, execute_checked, assign,
}

pub record ParsedChunk : Type 0 where
  pub ordinal : ℕ
  pub text : Text
  pub page_number : Option ℕ
  pub section_title : Option Text
  pub provenance : Text

pub record ParsedDocument : Type 0 where
  pub text : Text
  pub chunks : List ParsedChunk
  pub serialized : Text

pub record ProcessingOutcome : Type 0 where
  pub document_id : ℕ
  pub chunk_count : ℕ
  pub content_duplicate_of : Option ℕ
  pub indexed : ℕ
  pub profiled : Bool
  pub relations : ℕ

-- The arguments of a worker's call: what is None is absent.
pub record Services (O S F : Type 0) : Type 0 where
  pub storage : StorageBackend O
  pub parser_name : Text
  pub parse : Text → Text → Text → Result ParsedDocument  -- file name, type, content
  pub embeddings : Option (EmbeddingProvider (List F))
  pub client : Client S F
  pub vector_store : Option Text  -- the name of its collection
  pub document_vectors : Option Text
  pub llm : Option (Text → Result ExtractedProfile)
  pub combine : List (List F) → Result (Option (List F))  -- NormalizedMeanStrategy
  pub ingest_artifact : Document → Text → Action O (Unit {0})
  pub lower : Text → Text
  pub libraries : N.Libraries
  pub settings : Settings F
  pub max_excerpt_characters : ℕ

abbrev pub normalized_key_for : Document → Text
normalized_key_for d = d.storage_key ++ codes ".docling.json"

-- SEARCH_SKIPPABLE_MIMES
abbrev pub is_search_skippable : Text → Bool
is_search_skippable mime =
    contains
      (codes "application/zip"
        ∷ codes "image/png"
        ∷ codes "image/jpeg"
        ∷ codes "application/xml"
        ∷ codes "text/xml"
        ∷ codes "text/csv"
        ∷ codes "text/tab-separated-values"
        ∷ codes "text/x-scl"
        ∷ codes "text/x-awl"
        ∷ [])
      mime

abbrev pub nothing_parsed : ParsedDocument
nothing_parsed = record { text = []; chunks = []; serialized = codes "{}" }

-- A new row clashes with one of its id, of its document with its ordinal, or of its tenant with its source id.
abbrev pub clashes : Chunk → Chunk → Bool
clashes new c =
    c.id == new.id
    || ((c.document_id == new.document_id && c.ordinal == new.ordinal)
        || (c.tenant_id == new.tenant_id && c.source_id == new.source_id))

-- The rows are added one by one: `integrity_error` for a clash.
unfoldable pub insert_chunks : List Chunk → List Chunk → Result (List Chunk)
insert_chunks [] rows = returns rows
insert_chunks (new ∷ more) rows =
    let rest = insert_chunks more (new ∷ rows) in
    if any (clashes new) rows then raises integrity_error else rest

abbrev pub with_chunks : {F : Type 0} → Db F → Result (List Chunk) → Result (Db F)
with_chunks db (raises e) = raises e
with_chunks db (returns rows) = returns (record db { chunks = rows })

module _ (l : N.Libraries) where
  abbrev pub chunk_of : ℕ → ℕ → Document → ParsedChunk → Chunk
  chunk_of id now d p = record {
    id = id;
    tenant_id = d.tenant_id;
    document_id = d.id;
    ordinal = p.ordinal;
    text = p.text;
    page_number = p.page_number;
    section_title = p.section_title;
    source_id = source_id_for l d.id p.ordinal;
    source_metadata = p.provenance;
    created_at = now;
  }

  -- The rows of a document's passages, with fresh ids from `fresh` on.
  unfoldable pub chunks_of : (ℕ → ℕ) → ℕ → ℕ → Document → List ParsedChunk → List Chunk
  chunks_of fresh n now d [] = []
  chunks_of fresh n now d (p ∷ ps) = chunk_of (fresh n) now d p ∷ chunks_of fresh (suc n) now d ps

  -- The passages of the document are replaced.
  unfoldable pub replace_chunks :
      {F : Type 0} → (ℕ → ℕ) → ℕ → Document → List ParsedChunk → Db F → Result (Db F)
  unfolding chunks_of insert_chunks
  replace_chunks fresh now d ps db = with_chunks db (
      insert_chunks (chunks_of fresh 0 now d ps)
        (select (λ (c : Chunk). not (c.document_id == d.id)) db.chunks))

-- The query for a content duplicate, of a text that is not blank.
abbrev pub duplicate_of : {F : Type 0} → Document → Text → Text → Db F → Option Document
duplicate_of d normalized digest db =
    if is_empty normalized
    then none
    else first (
        select
          (λ x.
            x.tenant_id == d.tenant_id
            && (x.content_hash == some digest && (not (x.id == d.id) && is_live_document x)))
          db.documents)

-- How often a decided candidate is written from the document's side.
unfoldable pub written_count : {F : Type 0} → (Candidate F → Bool) → ℕ → List (Candidate F) → ℕ
written_count decided document [] = 0
written_count decided document (c ∷ cs) =
    let rest = written_count decided document cs in
    if decided c then (if c.document_id == document then 2 + rest else 1 + rest) else rest

module _ (𝓕 : Floats) {O S : Type 0} (s : Services O S 𝓕.Float) where
  open 𝓕 use {Float}

  abbrev pub parsed_content : Document → Text → Action (World O S Float) ParsedDocument
  parsed_content d content =
      if is_search_skippable d.mime_type
      then pure nothing_parsed
      else from_result (s.parse d.filename d.mime_type content)

  abbrev pub index_with :
      Document
      → Option (EmbeddingProvider (List Float))
      → Option Text
      → Action (World O S Float) (ℕ × List (List Float))
  index_with d (some e) (some collection) =
      index_document s.client collection e d.tenant_id d.id >>= λ o.
      pure (o.indexed, o.chunk_vectors)
  index_with d (some e) none = pure (0, [])
  index_with d none collection = pure (0, [])

  abbrev pub profile_with :
      Document → ℕ → Option (Text → Result ExtractedProfile) → Action (World O S Float) Bool
  profile_with d id none = pure false
  profile_with d id (some extract) =
      profile_document s.lower extract s.max_excerpt_characters id d.tenant_id d.id >> pure true

  -- The document's vector is written, or one of an earlier run cleared.
  abbrev pub keep_vector :
      Document → Text → Option (List Float) → Action (World O S Float) (Unit {0})
  keep_vector d collection none = on_index (delete_document s.client collection d.tenant_id d.id)
  keep_vector d collection (some v) =
      on_index (upsert_vector 𝓕 s.client collection d.tenant_id d.id v)

  abbrev pub similar_to :
      Document → Text → Option (List Float) → Action (World O S Float) (List (ℕ × Float))
  similar_to d collection none = pure []
  similar_to d collection (some v) =
      on_index
        (similar 𝓕 s.client collection d.tenant_id v s.settings.relation_max_candidates (some d.id))

  abbrev pub is_decided : Candidate Float → Bool
  is_decided c = elim (classify 𝓕 c s.settings) [ none ↦ false | some x ↦ true ]

  abbrev pub with_relations : Db Float → Result (List (DocumentRelation Float)) → Result (Db Float)
  with_relations db (raises e) = raises e
  with_relations db (returns rows) = returns (record db { relations = rows })

  abbrev pub write_relations : Document → List (Candidate Float) → Action (World O S Float) ℕ
  write_relations d cs = do
    execute_checked
        (λ db. with_relations db (detect_relations 𝓕 s.settings d.tenant_id d.id cs db.relations))
    pure (written_count is_decided d.id cs)

  abbrev pub relate_from :
      Document → Option (List Float) → List (ℕ × Float) → Action (World O S Float) ℕ
  relate_from d vector similarities = do
    gathered ← query (λ db.
        gather_candidates s.lower (λ tenant v limit exclude. returns similarities)
          s.settings.relation_max_candidates db d.tenant_id d.id vector)
    from_result gathered >>= write_relations d

  abbrev pub relate_by : Document → Text → ℕ → Option (List Float) → Action (World O S Float) ℕ
  relate_by d collection dimensions vector = do
    on_index (ensure_collection s.client collection dimensions)
    keep_vector d collection vector
    similar_to d collection vector >>= relate_from d vector

  abbrev pub relate_with :
      Document
      → List (List Float)
      → Option Text
      → Option (EmbeddingProvider (List Float))
      → Action (World O S Float) ℕ
  relate_with d vectors (some collection) (some e) =
      from_result (s.combine vectors) >>= relate_by d collection e.dimensions
  relate_with d vectors (some collection) none = pure 0
  relate_with d vectors none e = pure 0

  -- The attributes that parsing sets.
  abbrev pub with_content : Document → ParsedDocument → Document → Document
  with_content d parsed x = record x {
    content_hash = some (content_hash s.libraries parsed.text);
    normalized_key = some (normalized_key_for d);
    parser_name = some (if is_search_skippable d.mime_type then codes "adapter" else s.parser_name);
  }

  abbrev with_status : DocumentStatus → Document → Document
  with_status status x = record x { status = status }

  module _ (fresh : ℕ → ℕ) (profile_id now : ℕ) where
    -- From the derived data on: the index, the profile and the relations.
    abbrev pub derive :
        Document → ParsedDocument → Option ℕ → Action (World O S Float) ProcessingOutcome
    derive d parsed duplicate = do
      indexed ← index_with d s.embeddings s.vector_store
      profiled ← profile_with d profile_id s.llm
      relations ← relate_with d indexed.1 s.document_vectors s.embeddings
      assign d.id (with_status DocumentStatus.ready)
      pure (record {
        document_id = d.id;
        chunk_count = length parsed.chunks;
        content_duplicate_of = duplicate;
        indexed = indexed.0;
        profiled = profiled;
        relations = relations;
      })

    abbrev pub id_of : Option Document → Option ℕ
    id_of none = none
    id_of (some x) = some x.id

    abbrev pub store_parsed :
        Document → Text → ParsedDocument → Action (World O S Float) ProcessingOutcome
    store_parsed d content parsed = do
      duplicate ← query (
          duplicate_of d (normalize_text s.libraries parsed.text)
            (content_hash s.libraries parsed.text))
      on_objects (s.storage.put (normalized_key_for d) parsed.serialized (codes "application/json"))
      execute_checked (replace_chunks s.libraries fresh now d parsed.chunks)
      assign d.id (with_content d parsed)
      on_objects (s.ingest_artifact (with_content d parsed d) content)
      derive d parsed (id_of duplicate)

    abbrev pub process_content : Document → Text → Action (World O S Float) ProcessingOutcome
    process_content d content = parsed_content d content >>= store_parsed d content

    abbrev pub process_live : Document → Action (World O S Float) ProcessingOutcome
    process_live d = do
      assign d.id (with_status DocumentStatus.processing)
      on_objects (s.storage.get d.storage_key) >>= process_content d

    abbrev pub skipped : Document → ProcessingOutcome
    skipped d = record {
      document_id = d.id;
      chunk_count = 0;
      content_duplicate_of = none;
      indexed = 0;
      profiled = false;
      relations = 0;
    }

    -- A document that was deleted meanwhile is skipped.
    abbrev pub process_found : Document → Action (World O S Float) ProcessingOutcome
    process_found d = if is_live_document d then process_live d else pure (skipped d)

    abbrev pub is_job_document : IngestionJob → Document → Bool
    is_job_document job d = d.id == job.document_id && d.tenant_id == job.tenant_id

    unfoldable pub process_job : IngestionJob → Action (World O S Float) ProcessingOutcome
    process_job job = do
      found ← query (λ db. first (select (is_job_document job) db.documents))
      d ← or_raise found parsing_error
      process_found d

abbrev failed_status : IngestionJob → DocumentStatus
failed_status j =
    if j.status == JobStatus.failed then DocumentStatus.failed else DocumentStatus.queued

module _ {F : Type 0} where
  -- The document's status follows a job that was updated.
  abbrev pub follow_job : ℕ → ℕ → Option IngestionJob × List IngestionJob → Db F → Db F
  follow_job tenant document (none, rows) db = record db { jobs = rows }
  follow_job tenant document (some j, rows) db = record db {
    jobs = rows;
    documents =
        update_where (λ d. d.id == document && d.tenant_id == tenant)
          (λ d. record d { status = failed_status j }) db.documents;
  }

  unfoldable pub mark_failed : ℕ → IngestionJob → Text → Text → ℕ → Db F → Db F
  mark_failed now job worker reason retry_delay db =
      follow_job job.tenant_id job.document_id
        (fail db.jobs now job.tenant_id job.id worker reason retry_delay) db

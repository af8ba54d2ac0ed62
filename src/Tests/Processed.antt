-- ===== src/Tests/Processed.antt =====
-- A claimed job and its document, through the worker: the object is read, parsed, stored and indexed.
use document_intelligence_mv.Prelude.{
  ℕ, ◌≡◌, ◌≤◌, ◌⊎◌, ◌+◌, ◌*◌, refl, ap, false, none, some, List, [], ◌∷◌, map, Text, codes, All,
  inl, nat_eq, text_eq, option_eq, arith, length, sort_by, strip, join_with, split_on,
}
use document_intelligence_mv.Errors.{Error, Result, returns}
use document_intelligence_mv.Models.{Chunk, IngestionJob, job_status_eq}
use document_intelligence_mv.Database.{Db, IsKeyed}
use document_intelligence_mv.Providers.{EmbeddingProvider}
use document_intelligence_mv.Actions.{◌>>=◌}
use document_intelligence_mv.Normalization.{Libraries}
use document_intelligence_mv.Relations.{Settings}
use document_intelligence_mv.Processing.{
  Services, ParsedChunk, ParsedDocument, ProcessingOutcome, process_job,
}
use document_intelligence_mv.World.{World, StorageBackend}
use document_intelligence_mv.Processing.{replace_chunks, insert_chunks, chunks_of}
use document_intelligence_mv.Indexing.{index_document}
use document_intelligence_mv.VectorStore.{
  upsert_chunks, delete_document, delete_matching, filter_of, collection_is_absent,
  ensure_collection, collection_dimensions,
}
use document_intelligence_mv.Ingestion.{get_document, list_chunks}
use document_intelligence_mv.Normalization.{normalize_text, layout, source_id_for}
use document_intelligence_mv.Processing.Running.{result_of_parsing}
use document_intelligence_mv.Processing.Citing.{Resolves, process_job-Resolves}
use document_intelligence_mv.Jobs.{Rows, new_job, claimed, claim}
use document_intelligence_mv.Jobs.Invariant.{IsQueue, IsValidJob}
use document_intelligence_mv.Worker.{Turn, handle_job, process_one_batch}
use document_intelligence_mv.Worker.Completing.{Settled}
use document_intelligence_mv.Worker.Settling.{IsFinished, IsFailed, handle_job-Settled}
use document_intelligence_mv.Worker.Settling.Batch.{IsLetGo, process_one_batch-IsLetGo}
use document_intelligence_mv.Tests.Samples.{percents, ascii_lower, sample_document}
use document_intelligence_mv.Tests.Vectors.{Points, client}

abbrev pub storage : StorageBackend Text
storage = record {
  put = λ key content type o. (o, returns tt);
  get = λ key o. (o, returns o);
  delete = λ key o. (o, returns tt);
}

abbrev pub passage_of : Text → ParsedChunk
passage_of text = record {
  ordinal = 0;
  text = text;
  page_number = some 1;
  section_title = none;
  provenance = [];
}

abbrev pub parse : Text → Text → Text → Result ParsedDocument
parse name type content =
    returns (record { text = content; chunks = passage_of content ∷ []; serialized = content })

abbrev pub provider : EmbeddingProvider (List ℕ)
provider = record {
  provider = codes "mock";
  model = codes "m";
  version = codes "1";
  dimensions = 2;
  embed = λ texts. returns (map (λ t. 1 ∷ 0 ∷ []) texts);
}

abbrev pub libraries : Libraries
libraries = record { nfc = λ s. s; sha256 = λ s. s; uuid_text = λ n. n ∷ [] }

abbrev pub settings : Settings ℕ
settings = record {
  relation_version_similarity = 92;
  relation_related_similarity = 75;
  relation_min_shared_entities = 2;
  relation_min_shared_identifiers = 1;
  relation_max_candidates = 20;
}

-- The services of a worker without a model: the document's chunks are indexed.
abbrev pub services : Services Text Points ℕ
services = record {
  storage = storage;
  parser_name = codes "docling";
  parse = parse;
  embeddings = some provider;
  client = client;
  vector_store = some (codes "chunks");
  document_vectors = none;
  llm = none;
  combine = λ vectors. returns none;
  ingest_artifact = λ d content o. (o, returns tt);
  lower = ascii_lower;
  libraries = libraries;
  settings = settings;
  max_excerpt_characters = 100;
}

abbrev pub waiting : IngestionJob
waiting = new_job 1 0 7 70 3

abbrev pub held : IngestionJob
held = claimed (codes "w1") 5 waiting

-- A chunk of an earlier run on the document, and one of another document.
abbrev pub old_chunk : ℕ → ℕ → Chunk
old_chunk id document = record {
  id = id;
  tenant_id = 7;
  document_id = document;
  ordinal = 0;
  text = codes "old";
  page_number = none;
  section_title = none;
  source_id = document ∷ codes ":00000";
  source_metadata = [];
  created_at = 0;
}

abbrev pub tables : IngestionJob → Db ℕ
tables job = record {
  documents = sample_document ∷ [];
  chunks = old_chunk 1 70 ∷ old_chunk 2 71 ∷ [];
  profiles = [];
  relations = [];
  jobs = job ∷ [];
}

abbrev pub world : IngestionJob → World Text Points ℕ
world job = record { db = tables job; objects = codes "new"; index = [] }

abbrev pub fresh : ℕ → ℕ
fresh n = n + 10

abbrev done : World Text Points ℕ × Result ProcessingOutcome
done = process_job percents services fresh 90 6 held (world held)

abbrev outcome : ProcessingOutcome
outcome = record {
  document_id = 70;
  chunk_count = 1;
  content_duplicate_of = none;
  indexed = 1;
  profiled = false;
  relations = 0;
}

process_job_runs :
    process_job percents services fresh 90 6 held (world held) ≡ (done.0, returns outcome)
unfolding process_job replace_chunks insert_chunks chunks_of index_document upsert_chunks
    delete_document delete_matching filter_of collection_is_absent ensure_collection
    collection_dimensions get_document list_chunks sort_by nat_eq text_eq option_eq ◌>>=◌
    normalize_text layout source_id_for strip join_with split_on
process_job_runs = refl

abbrev lead : Text → ℕ
lead [] = 0
lead (c ∷ s) = c

tables-IsKeyed : IsKeyed (tables held)
unfolding nat_eq
tables-IsKeyed = record {
  document_ids = (tt, tt);
  chunk_ids = (((ground arith), tt), (tt, tt));
  source_ids = (((λ same e. omega (arith, ap lead e)), tt), (tt, tt));
}

process_job-Resolves_example :
    (content : Text) × (objects : Text) × (parsed : ParsedDocument) × (storage.get
        sample_document.storage_key
        (codes "new")
      ≡ (objects, returns content))
    × (result_of_parsing percents services sample_document content ≡ returns parsed)
    × All (Resolves percents services fresh 90 6 done.0.db sample_document) parsed.chunks
    × IsKeyed done.0.db
process_job-Resolves_example =
    process_job-Resolves percents services fresh 90 6 held sample_document (world held) done.0
      outcome (inl refl) tables-IsKeyed refl refl refl process_job_runs

abbrev pub turn : ℕ → Turn
turn n = record { fresh = λ k. 100 * n + k + 10; profile_id = n + 90; now = 6; failed_at = 7 }

abbrev pub type_name : Error → Text
type_name e = codes "Error"

abbrev pub message : Error → Text
message e = codes "broken"

pub single-IsQueue : (job : IngestionJob) → IsValidJob job → IsQueue (job ∷ [])
single-IsQueue job v = record { valid = (v, tt); apart = (tt, tt) }

handle_job-Settled_example :
    (w' : World Text Points ℕ) × (handle_job percents services
        (codes "w1")
        30
        type_name
        message
        (turn 0)
        held
        (world held)
      ≡ (w', returns tt))
    × (IsFinished percents services (codes "w1") 30 type_name message (turn 0) held (world held) w'
        ⊎ IsFailed percents services
            (codes "w1")
            30
            type_name
            message
            (turn 0)
            held
            (world held)
            w')
    × Settled held (held ∷ []) w'.db.jobs
handle_job-Settled_example =
    handle_job-Settled percents services (codes "w1") 30 type_name message (turn 0) held
      (world held) (single-IsQueue held (ground arith))
      (record { stands = inl refl; running = refl; holder = refl })

process_one_batch-IsLetGo_example :
    (jobs : List IngestionJob) × (rows : Rows) × (w' : World Text Points ℕ) × (claim
        (λ i. false)
        (waiting ∷ [])
        5
        (codes "w1")
        4
      ≡ returns (jobs, rows))
    × (process_one_batch percents services
          (codes "w1")
          30
          type_name
          message
          (λ i. false)
          5
          4
          turn
          (world waiting)
        ≡ (w', returns (length jobs)))
    × (length jobs ≤ 4)
    × All (IsLetGo w'.db.jobs) jobs
    × IsQueue w'.db.jobs
process_one_batch-IsLetGo_example =
    process_one_batch-IsLetGo percents services (codes "w1") 30 type_name message (λ i. false) 5 4
      turn (world waiting) (single-IsQueue waiting (ground arith)) (omega arith)

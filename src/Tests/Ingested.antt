-- ===== src/Tests/Ingested.antt =====
-- An upload that is ingested into an empty store, and again.
use document_intelligence_mv.Prelude.{
  ℕ, ◌≡◌, refl, true, false, [], ◌∷◌, Text, codes, nat_eq, text_eq,
}
use document_intelligence_mv.Errors.{Result, returns}
use document_intelligence_mv.Models.{job_status_eq}
use document_intelligence_mv.Database.{Db}
use document_intelligence_mv.Jobs.{new_job, enqueue}
use document_intelligence_mv.Uploads.{Libraries, ValidatedUpload}
use document_intelligence_mv.Ingestion.{
  IngestionResult, new_document, ingest_upload, find_by_file_hash, insert_document,
}
use document_intelligence_mv.Ingestion.Once.{Ingested, ingest_upload-Ingested, ingest_upload_again}
use document_intelligence_mv.Tests.Samples.{ascii_lower}

abbrev libraries : Libraries
libraries = record { nfkd = λ s. s; lower = ascii_lower; sha256 = λ s. s; is_utf8 = λ s. true }

abbrev uuid_text : ℕ → Text
uuid_text n = n ∷ []

abbrev put : Text → Text → Text → Result (Unit {0})
put key content type = returns tt

abbrev empty : Db ℕ
empty = record { documents = []; chunks = []; profiles = []; relations = []; jobs = [] }

abbrev upload : ValidatedUpload
upload = record {
  filename = codes "a.txt";
  mime_type = codes "text/plain";
  file_hash = codes "0123456789abcdef0123456789abcdef0123456789abcdef0123456789abcdef";
  size = 2;
}

abbrev outcome : IngestionResult
outcome = record { document = new_document libraries uuid_text 70 5 7 upload; is_duplicate = false }

abbrev filled : Db ℕ
filled = record empty { documents = outcome.document ∷ []; jobs = new_job 1 5 7 70 3 ∷ [] }

ingest_runs :
    (ingest_upload put libraries uuid_text empty [] 7 upload (codes "hi") 70 1 5).1
    ≡ returns (outcome, filled)
unfolding ingest_upload find_by_file_hash insert_document enqueue nat_eq text_eq job_status_eq
ingest_runs = refl

ingest_upload-Ingested_example :
    Ingested empty [] 7 upload.file_hash
      (codes "hi")
      outcome
      filled
      (ingest_upload put libraries uuid_text empty [] 7 upload (codes "hi") 70 1 5).0
ingest_upload-Ingested_example =
    ingest_upload-Ingested put libraries uuid_text empty [] 7 upload (codes "hi") 70 1 5 outcome
      filled ingest_runs

ingest_upload_again_example :
    ingest_upload put libraries uuid_text filled [] 7 upload (codes "hi") 71 2 9
    ≡ ([], returns (record { document = outcome.document; is_duplicate = true }, filled))
ingest_upload_again_example =
    ingest_upload_again put libraries uuid_text empty [] 7 upload (codes "hi") 70 1 5 outcome filled
      [] upload (codes "hi") 71 2 9 ingest_runs refl

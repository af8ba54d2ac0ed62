-- ===== src/Ingestion/Once.antt =====
-- `ingest_upload` of app/services/ingestion.py: its outcome, and a second upload of the same bytes.
use document_intelligence_mv.Prelude.{
  ℕ, ◌≡◌, refl, subst, true, false, not, ◌||◌, Option, none, some, List, ◌∷◌, Text, select, any,
  All-of-In, In, In-select, first-All, ==-refl, inl, arith, ◌==◌, nat_eq, text_eq, length,
}
use document_intelligence_mv.Errors.{
  Result, returns, raises, integrity_error, >>=-returns, raise_if-returns,
}
use document_intelligence_mv.Models.{Document}
use document_intelligence_mv.Database.{Db}
use document_intelligence_mv.Jobs.{enqueue}
use document_intelligence_mv.Uploads.{Libraries, ValidatedUpload}
use document_intelligence_mv.Ingestion.{
  has_file_hash, find_by_file_hash, IngestionResult, Storage, insert_document, new_document,
  queue_for, after_put, after_insert, ingest_after, ingest_upload, clashes,
}

module _ {F : Type 0} where
  -- What an ingestion that returns comes to: the document of these bytes, that is live and the tenant's and
  -- that the next search for the bytes finds, and either nothing has changed or the content is in the
  -- storage under the document's key.
  pub record Ingested (db : Db F) (storage : Storage) (tenant : ℕ) (hash content : Text)
      (r : IngestionResult) (db' : Db F) (storage' : Storage) : Type 0 where
    pub found : find_by_file_hash db' tenant hash ≡ some r.document
    pub stored : In r.document db'.documents
    pub of_tenant : r.document.tenant_id ≡ tenant
    pub live : r.document.deleted_at ≡ none
    pub same_bytes : r.document.file_hash ≡ hash
    pub repeated : r.is_duplicate ≡ true → (db' ≡ db) × (storage' ≡ storage)
    pub kept :
        r.is_duplicate ≡ false
        → storage' ≡ (r.document.storage_key, content, r.document.mime_type) ∷ storage

  find_by_file_hash-In :
      (db : Db F) (tenant : ℕ) (hash : Text) (d : Document)
      → find_by_file_hash db tenant hash ≡ some d
      → In d db.documents × (has_file_hash tenant hash d ≡ true)
  unfolding find_by_file_hash
  find_by_file_hash-In db tenant hash d e =
      first-All (λ d. In d db.documents × (has_file_hash tenant hash d ≡ true))
        (select (has_file_hash tenant hash) db.documents)
        (All-of-In (λ d. In d db.documents × (has_file_hash tenant hash d ≡ true))
          (select (has_file_hash tenant hash) db.documents)
          (λ d j. In-select (has_file_hash tenant hash) db.documents d j))
        e

module _ {F : Type 0} (put : Text → Text → Text → Result (Unit {0})) (l : Libraries)
    (uuid_text : ℕ → Text) (db : Db F) (storage : Storage) (tenant : ℕ) (upload : ValidatedUpload)
    (content : Text) (id job now : ℕ) where
  abbrev Outcome : IngestionResult × Db F → Storage → Type 0
  Outcome out storage' = Ingested db storage tenant upload.file_hash content out.0 out.1 storage'

  abbrev fresh : Document
  fresh = new_document l uuid_text id now tenant upload

  fresh-found : has_file_hash tenant upload.file_hash fresh ≡ true
  fresh-found = rw (==-refl upload.file_hash) (rw (==-refl tenant))

  fresh-Ingested :
      (documents : List Document) (out : IngestionResult × Db F)
      → documents ≡ fresh ∷ db.documents
      → queue_for put db documents fresh job now ≡ returns out
      → Outcome out ((fresh.storage_key, content, fresh.mime_type) ∷ storage)
  unfolding find_by_file_hash
  fresh-Ingested documents out e h =
      let (queued, p, q) =
        >>=-returns (enqueue db.jobs job now tenant id 3)
          (λ queued. returns (
            record { document = fresh; is_duplicate = false },
            record db { documents = documents; jobs = queued.1 },
          ))
          out h in
      let same : ◌≡◌ {A = IngestionResult × Db F}
          (
            record { document = fresh; is_duplicate = false },
            record db { documents = documents; jobs = queued.1 },
          )
          out =
        cc q in
      subst (λ o. Outcome o ((fresh.storage_key, content, fresh.mime_type) ∷ storage)) same
        (record {
          found = rw (e, fresh-found);
          stored = rw e (inl refl);
          of_tenant = refl;
          live = refl;
          same_bytes = refl;
          repeated = λ x. cc x;
          kept = λ x. refl;
        })

  insert_document-cons :
      (new : Document) (documents documents' : List Document)
      → insert_document new documents ≡ returns documents'
      → documents' ≡ new ∷ documents
  unfolding insert_document
  insert_document-cons new documents documents' h =
      let (ok, k) =
        raise_if-returns (any (clashes new) documents || not (length new.file_hash == 64))
          integrity_error (returns (new ∷ documents)) documents' h in
      cc k

  -- An ingestion that returns gives a live document of the tenant with the uploaded bytes' hash, that stands in
  -- the table and that the next search for these bytes finds; a duplicate has changed neither tables
  -- nor storage, and for a new document the content is stored under its key.
  pub ingest_upload-Ingested :
      (r : IngestionResult) (db' : Db F)
      → (ingest_upload put l uuid_text db storage tenant upload content id job now).1
        ≡ returns (r, db')
      → Ingested db storage tenant upload.file_hash content r db'
          (ingest_upload put l uuid_text db storage tenant upload content id job now).0
  unfolding ingest_upload
  ingest_upload-Ingested r db' h = by_search (find_by_file_hash db tenant upload.file_hash) refl h
    where
      by_put :
          (o : Result (Unit {0})) (documents : List Document)
          → documents ≡ fresh ∷ db.documents
          → (after_put put o db storage documents fresh content job now).1 ≡ returns (r, db')
          → Outcome (r, db') (after_put put o db storage documents fresh content job now).0
      by_put (raises x) documents e k = cc k
      by_put (returns u) documents e k = fresh-Ingested documents (r, db') e k

      by_insert :
          (o : Result (List Document))
          → insert_document fresh db.documents ≡ o
          → (after_insert put o db storage fresh content job now).1 ≡ returns (r, db')
          → Outcome (r, db') (after_insert put o db storage fresh content job now).0
      by_insert (raises x) e k = cc k
      by_insert (returns documents) e k =
          by_put (put fresh.storage_key content fresh.mime_type) documents
            (insert_document-cons fresh db.documents documents e) k

      by_search :
          (o : Option Document)
          → find_by_file_hash db tenant upload.file_hash ≡ o
          → (ingest_after put o db storage fresh content job now).1 ≡ returns (r, db')
          → Outcome (r, db') (ingest_after put o db storage fresh content job now).0
      by_search none e k = by_insert (insert_document fresh db.documents) refl k
      by_search (some d) e k =
          let (i, t) = find_by_file_hash-In db tenant upload.file_hash d e in
          let same : ◌≡◌ {A = IngestionResult × Db F}
              (record { document = d; is_duplicate = true }, db) (r, db') =
            cc k in
          subst (λ o. Outcome o storage) same
            (record {
              found = e;
              stored = i;
              of_tenant = ground (arith, t);
              live = ground (arith, t);
              same_bytes = ground (arith, t);
              repeated = λ x. (refl, refl);
              kept = λ x. cc x;
            })

  -- Bytes that a tenant has uploaded are not stored or queued again: after an ingestion that returns, an
  -- ingestion of the same bytes for the tenant, under whatever name, ids and storage, returns the same
  -- document as a duplicate and leaves the tables and the storage as they are.
  pub ingest_upload_again :
      (r : IngestionResult) (db' : Db F) (later : Storage) (again : ValidatedUpload) (bytes : Text)
      (id' job' now' : ℕ)
      → (ingest_upload put l uuid_text db storage tenant upload content id job now).1
        ≡ returns (r, db')
      → again.file_hash ≡ upload.file_hash
      → ingest_upload put l uuid_text db' later tenant again bytes id' job' now'
        ≡ (later, returns (record { document = r.document; is_duplicate = true }, db'))
  unfolding ingest_upload
  ingest_upload_again r db' later again bytes id' job' now' h e =
      let v = ingest_upload-Ingested r db' h in rw (e, v.found) refl

-- ===== src/Processing/Running.antt =====
-- `process_job` of app/services/processing.py, from its steps: what a run that returns has read, parsed and stored.
use document_intelligence_mv.Prelude.{
  ℕ, ◌≡◌, refl, sym, ap, subst, ◌∙◌, Bool, true, false, Option, none, some, List, Text, In,
  first-select, nat_eq, row_of_key, codes, arith, if◌then◌else◌,
}
use document_intelligence_mv.Errors.{Result, returns, parsing_error}
use document_intelligence_mv.Models.{Document, DocumentStatus, Chunk, IngestionJob}
use document_intelligence_mv.Floats.{Floats}
use document_intelligence_mv.Database.{Db, IsKeyed}
use document_intelligence_mv.Actions.{pure, or_raise, from_result, bind-returns, ◌>>=◌, ◌>>◌}
use document_intelligence_mv.Normalization.{normalize_text, content_hash}
use document_intelligence_mv.Processing.{
  normalized_key_for, duplicate_of, Services, ParsedChunk, ParsedDocument, ProcessingOutcome,
  is_search_skippable, nothing_parsed, replace_chunks, process_job, process_found, process_live,
  parsed_content, store_parsed, derive, with_status, with_content, is_job_document,
}
use document_intelligence_mv.Processing.Storing.{replace_chunks-IsKeyed, replace_chunks-documents}
use document_intelligence_mv.Processing.Keeping.{Keeps-assign, derive-Keeps}
use document_intelligence_mv.World.{
  World, on_objects, assign, execute_checked-returns, on_objects-returns, Keeps, Keeps-bind,
  Keeps-on_objects, Keeps-query,
}
use document_intelligence_mv.Processing.Holding.{Holds, Holds-IsStable}

module _ (𝓕 : Floats) {O S : Type 0} (s : Services O S 𝓕.Float) where
  -- What the parser makes of the content; some types are not parsed at all.
  abbrev pub result_of_parsing : Document → Text → Result ParsedDocument
  result_of_parsing d content =
      if is_search_skippable d.mime_type
      then returns nothing_parsed
      else s.parse d.filename d.mime_type content

module _ (𝓕 : Floats) {O S : Type 0} (s : Services O S 𝓕.Float) (fresh : ℕ → ℕ)
    (profile_id now : ℕ) where
  open 𝓕 use {Float}

  -- What a run made of one document: the parsed passages and the rows that hold them.
  pub record Processed (d : Document) (w w' : World O S Float) (o : ProcessingOutcome)
      : Type 0 where
    pub content : Text
    pub objects : O
    pub read : s.storage.get d.storage_key w.objects ≡ (objects, returns content)
    pub parsed : ParsedDocument
    pub parsed_from : result_of_parsing 𝓕 s d content ≡ returns parsed
    pub before : Db Float
    pub replaced : Db Float
    pub replacement : replace_chunks s.libraries fresh now d parsed.chunks before ≡ returns replaced
    pub held : Holds d w.db.chunks before
    pub holds : Holds d replaced.chunks w'.db

  replaced-Holds :
      (d : Document) (ps : List ParsedChunk) (rows : List Chunk) (db db' : Db Float)
      → replace_chunks s.libraries fresh now d ps db ≡ returns db'
      → Holds d rows db
      → Holds d db'.chunks db'
  replaced-Holds d ps rows db db' h held = record {
    keyed = replace_chunks-IsKeyed s.libraries fresh now d ps db db' h held.keyed;
    same_chunks = refl;
    document = held.document;
    stored =
        subst (In held.document) (replace_chunks-documents s.libraries fresh now d ps db db' h)
          held.stored;
    same_document = held.same_document;
  }

  -- What follows the replacement of the chunks keeps them.
  after_replacing-Keeps :
      (d : Document) (content : Text) (parsed : ParsedDocument) (duplicate : Option ℕ)
      (rows : List Chunk)
      → Keeps (Holds d rows) (
          assign d.id (with_content 𝓕 s d parsed)
          >> (on_objects (s.ingest_artifact (with_content 𝓕 s d parsed d) content)
              >> derive 𝓕 s fresh profile_id now d parsed duplicate))
  after_replacing-Keeps d content parsed duplicate rows =
      Keeps-bind (Holds d rows) _ _
        (Keeps-assign (Holds d rows) (Holds-IsStable d rows) d.id (with_content 𝓕 s d parsed)
          (λ x. (refl, refl, refl)))
        (λ _. Keeps-bind (Holds d rows) _ _ (Keeps-on_objects (Holds d rows) _) (λ _.
          derive-Keeps 𝓕 s (Holds d rows) (Holds-IsStable d rows) d fresh profile_id now parsed
            duplicate))

  store_parsed-Holds :
      (d : Document) (content : Text) (parsed : ParsedDocument) (rows : List Chunk)
      (w w' : World O S Float) (o : ProcessingOutcome)
      → store_parsed 𝓕 s fresh profile_id now d content parsed w ≡ (w', returns o)
      → Holds d rows w.db
      → (before replaced : Db Float) × (replace_chunks s.libraries fresh now d parsed.chunks before
          ≡ returns replaced)
        × Holds d rows before
        × Holds d replaced.chunks w'.db
  store_parsed-Holds d content parsed rows w w' o h held =
      let (duplicate, w1, p1, h1) = bind-returns _ _ w w' o h in
      let (_, w2, p2, h2) = bind-returns _ _ w1 w' o h1 in
      let (_, w3, p3, h3) = bind-returns _ _ w2 w' o h2 in
      let stored =
        execute_checked-returns (replace_chunks s.libraries fresh now d parsed.chunks) w2 w3 tt
          p3 in
      let held2 =
        Keeps-on_objects (Holds d rows)
          (s.storage.put (normalized_key_for d) parsed.serialized (codes "application/json")) w1 w2
          tt p2
          (Keeps-query (Holds d rows)
            (duplicate_of d (normalize_text s.libraries parsed.text)
              (content_hash s.libraries parsed.text))
            w w1 duplicate p1 held) in
      (
        w2.db,
        w3.db,
        stored,
        held2,
        after_replacing-Keeps d content parsed _ w3.db.chunks w3 w' o h3
            (replaced-Holds d parsed.chunks rows w2.db w3.db stored held2),
      )

  parsed_content-returns :
      (d : Document) (content : Text) (w w' : World O S Float) (parsed : ParsedDocument)
      → parsed_content 𝓕 s d content w ≡ (w', returns parsed)
      → (result_of_parsing 𝓕 s d content ≡ returns parsed) × (w.db ≡ w'.db)
  parsed_content-returns d content w w' parsed h = by_mime (is_search_skippable d.mime_type) h
    where
      by_mime :
          (b : Bool)
          → (if b
                then pure nothing_parsed
                else from_result (s.parse d.filename d.mime_type content))
              w
            ≡ (w', returns parsed)
          → ((if b then returns nothing_parsed else s.parse d.filename d.mime_type content)
              ≡ returns parsed)
            × (w.db ≡ w'.db)
      by_mime true k = (ap (λ x. x.1) k, ap (λ x. x.0.db) k)
      by_mime false k = (ap (λ x. x.1) k, ap (λ x. x.0.db) k)

  -- A run on a live document has read its object and parsed it, and has stored what was parsed.
  pub process_live-Processed :
      (d : Document) (w w' : World O S Float) (o : ProcessingOutcome)
      → In d w.db.documents
      → IsKeyed w.db
      → process_live 𝓕 s fresh profile_id now d w ≡ (w', returns o)
      → Processed d w w' o
  process_live-Processed d w w' o i k h =
      let (_, w1, p1, h1) = bind-returns _ _ w w' o h in
      let (content, w2, p2, h2) = bind-returns _ _ w1 w' o h1 in
      let (parsed, w3, p3, h3) = bind-returns _ _ w2 w' o h2 in
      let held1 =
        Keeps-assign (Holds d w.db.chunks) (Holds-IsStable d w.db.chunks) d.id
          (with_status 𝓕 s DocumentStatus.processing) (λ x. (refl, refl, refl)) w w1 tt p1
          (record {
            keyed = k;
            same_chunks = refl;
            document = d;
            stored = i;
            same_document = (refl, refl, refl);
          }) in
      let held2 =
        Keeps-on_objects (Holds d w.db.chunks) (s.storage.get d.storage_key) w1 w2 content p2
          held1 in
      let (parsing, same) = parsed_content-returns d content w2 w3 parsed p3 in
      let held3 = subst (Holds d w.db.chunks) same held2 in
      let (before, replaced, r, b, a) =
        store_parsed-Holds d content parsed w.db.chunks w3 w' o h3 held3 in
      record {
        content = content;
        objects = w2.objects;
        read =
            ap (λ x. s.storage.get d.storage_key x.0.objects) p1
            ∙ (on_objects-returns (s.storage.get d.storage_key) w1 w2 content p2).0;
        parsed = parsed;
        parsed_from = parsing;
        before = before;
        replaced = replaced;
        replacement = r;
        held = b;
        holds = a;
      }

  -- A run of a job whose document is live comes to a run on that document.
  pub process_job-Processed :
      (job : IngestionJob) (d : Document) (w w' : World O S Float) (o : ProcessingOutcome)
      → In d w.db.documents
      → IsKeyed w.db
      → d.id ≡ job.document_id
      → d.tenant_id ≡ job.tenant_id
      → d.deleted_at ≡ none
      → process_job 𝓕 s fresh profile_id now job w ≡ (w', returns o)
      → Processed d w w' o
  unfolding process_job ◌>>=◌
  process_job-Processed job d w w' o i k same_id same_tenant live h =
      process_live-Processed d w w' o i k (
        sym (found_live d.deleted_at live)
        ∙ ap (λ x. (or_raise x parsing_error >>= process_found 𝓕 s fresh profile_id now) w)
            (sym (
              first-select (is_job_document 𝓕 s fresh profile_id now job) w.db.documents d i
                (ground arith) unique))
        ∙ h)
    where
      found_live :
          (deleted_at : Option ℕ)
          → deleted_at ≡ none
          → process_found 𝓕 s fresh profile_id now (record d { deleted_at = deleted_at }) w
            ≡ process_live 𝓕 s fresh profile_id now (record d { deleted_at = deleted_at }) w
      found_live none e = refl
      found_live (some t) e = cc e

      unique :
          (x : Document)
          → In x w.db.documents
          → is_job_document 𝓕 s fresh profile_id now job x ≡ true
          → x ≡ d
      unique x j t =
          row_of_key (λ (y : Document). y.id) w.db.documents x d k.document_ids j i (ground arith)

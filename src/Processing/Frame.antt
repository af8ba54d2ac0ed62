-- ===== src/Processing/Frame.antt =====
-- What a whole run of app/services/processing.py keeps of the tables, whichever way it goes.
use document_intelligence_mv.Prelude.{
  ℕ, ◌≡◌, refl, ◌∙◌, Bool, true, false, List, Text, if◌then◌else◌,
}
use document_intelligence_mv.Errors.{returns, parsing_error}
use document_intelligence_mv.Models.{Document, DocumentStatus, IngestionJob, is_live_document}
use document_intelligence_mv.Floats.{Floats}
use document_intelligence_mv.Database.{Db, IsKeyed}
use document_intelligence_mv.Jobs.{Rows}
use document_intelligence_mv.Actions.{pure, from_result}
use document_intelligence_mv.Processing.{
  Services, ParsedChunk, ParsedDocument, is_search_skippable, nothing_parsed, replace_chunks,
  process_job, process_found, process_live, parsed_content, store_parsed, with_status, with_content,
  skipped,
}
use document_intelligence_mv.Processing.Storing.{replace_chunks-IsKeyed, replace_chunks-jobs}
use document_intelligence_mv.Processing.Keeping.{IsStable, Keeps-assign, derive-Keeps}
use document_intelligence_mv.Processing.Holding.{assign-IsKeyed}
use document_intelligence_mv.World.{
  Keeps, Keeps-bind, Keeps-query, Keeps-on_objects, Keeps-or_raise, Keeps-pure, Keeps-from_result,
  Keeps-execute_checked,
}

pub IsKeyed-IsStable : {F : Type 0} → IsStable {F = F} IsKeyed
IsKeyed-IsStable = record {
  documents = λ db id f k h. assign-IsKeyed db id f k h;
  profiles = λ db ps h. record {
    document_ids = h.document_ids;
    chunk_ids = h.chunk_ids;
    source_ids = h.source_ids;
  };
  relations = λ db rs h. record {
    document_ids = h.document_ids;
    chunk_ids = h.chunk_ids;
    source_ids = h.source_ids;
  };
}

abbrev pub HasJobs : {F : Type 0} → Rows → Db F → Type 0
HasJobs rows db = rows ≡ db.jobs

pub HasJobs-IsStable : {F : Type 0} (rows : Rows) → IsStable {F = F} (HasJobs rows)
HasJobs-IsStable rows = record {
  documents = λ db id f k h. h;
  profiles = λ db ps h. h;
  relations = λ db rs h. h;
}

module _ (𝓕 : Floats) {O S : Type 0} (s : Services O S 𝓕.Float) (fresh : ℕ → ℕ)
    (profile_id now : ℕ) where
  module _ (I : Db 𝓕.Float → Type 0) (stable : IsStable I)
      (chunks : (d : Document) (ps : List ParsedChunk) (db db' : Db 𝓕.Float)
        → replace_chunks s.libraries fresh now d ps db ≡ returns db'
        → I db
        → I db') where
    parsed_content-Keeps : (d : Document) (content : Text) → Keeps I (parsed_content 𝓕 s d content)
    parsed_content-Keeps d content = by_mime (is_search_skippable d.mime_type)
      where
        by_mime :
            (b : Bool)
            → Keeps {O = O} {S = S} I (
                if b
                then pure nothing_parsed
                else from_result (s.parse d.filename d.mime_type content))
        by_mime true = Keeps-pure I nothing_parsed
        by_mime false = Keeps-from_result I (s.parse d.filename d.mime_type content)

    store_parsed-Keeps :
        (d : Document) (content : Text) (parsed : ParsedDocument)
        → Keeps I (store_parsed 𝓕 s fresh profile_id now d content parsed)
    store_parsed-Keeps d content parsed = Keeps-bind I _ _ (Keeps-query I _) (λ duplicate.
        Keeps-bind I _ _ (Keeps-on_objects I _) (λ _.
          Keeps-bind I _ _ (Keeps-execute_checked I _ (chunks d parsed.chunks)) (λ _.
            Keeps-bind I _ _
              (Keeps-assign I stable d.id (with_content 𝓕 s d parsed) (λ x. (refl, refl, refl)))
              (λ _.
                Keeps-bind I _ _ (Keeps-on_objects I _)
                  (λ _. derive-Keeps 𝓕 s I stable d fresh profile_id now parsed _)))))

    process_found-Keeps : (d : Document) → Keeps I (process_found 𝓕 s fresh profile_id now d)
    process_found-Keeps d = by_state (is_live_document d)
      where
        process_live-Keeps : Keeps I (process_live 𝓕 s fresh profile_id now d)
        process_live-Keeps =
            Keeps-bind I _ _
              (Keeps-assign I stable d.id (with_status 𝓕 s DocumentStatus.processing)
                (λ x. (refl, refl, refl)))
              (λ _. Keeps-bind I _ _ (Keeps-on_objects I _) (λ content.
                Keeps-bind I _ _ (parsed_content-Keeps d content)
                  (λ parsed. store_parsed-Keeps d content parsed)))

        by_state :
            (b : Bool)
            → Keeps {O = O} {S = S} I (
                if b
                then process_live 𝓕 s fresh profile_id now d
                else pure (skipped 𝓕 s fresh profile_id now d))
        by_state true = process_live-Keeps
        by_state false = Keeps-pure I _

    -- A property of the tables that neither the chunks nor the later steps touch outlives a run.
    pub process_job-Keeps :
        (job : IngestionJob) → Keeps I (process_job 𝓕 s fresh profile_id now job)
    unfolding process_job
    process_job-Keeps job = Keeps-bind I _ _ (Keeps-query I _) (λ found.
        Keeps-bind I _ _ (Keeps-or_raise I found parsing_error) (λ d. process_found-Keeps d))

  pub process_job-IsKeyed :
      (job : IngestionJob) → Keeps IsKeyed (process_job 𝓕 s fresh profile_id now job)
  process_job-IsKeyed =
      process_job-Keeps IsKeyed IsKeyed-IsStable
        (λ d ps db db' h k. replace_chunks-IsKeyed s.libraries fresh now d ps db db' h k)

  pub process_job-jobs :
      (rows : Rows) (job : IngestionJob)
      → Keeps (HasJobs rows) (process_job 𝓕 s fresh profile_id now job)
  process_job-jobs rows =
      process_job-Keeps (HasJobs rows) (HasJobs-IsStable rows)
        (λ d ps db db' h k. k ∙ replace_chunks-jobs s.libraries fresh now d ps db db' h)

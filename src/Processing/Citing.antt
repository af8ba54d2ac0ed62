-- ===== src/Processing/Citing.antt =====
-- A run of app/services/processing.py against app/services/lexical.py: what was parsed, and what a citation of
-- it resolves to.
use document_intelligence_mv.Prelude.{
  ℕ, ◌≡◌, sym, ap, subst, ◌∙◌, none, some, Text, All, In, All-of-In, nat_eq,
}
use document_intelligence_mv.Errors.{returns}
use document_intelligence_mv.Models.{Document, Chunk, IngestionJob}
use document_intelligence_mv.Floats.{Floats}
use document_intelligence_mv.Database.{Db, IsKeyed}
use document_intelligence_mv.Normalization.{source_id_for}
use document_intelligence_mv.Lexical.{LexicalHit, resolve_source}
use document_intelligence_mv.Lexical.Isolation.{resolve_source_complete, resolve_source-Quotes}
use document_intelligence_mv.Qa.Grounding.{source_unique}
use document_intelligence_mv.Processing.{
  Services, ParsedChunk, ParsedDocument, ProcessingOutcome, process_job,
}
use document_intelligence_mv.Processing.Storing.{IsRowOf, replace_chunks-stores}
use document_intelligence_mv.Processing.Running.{process_job-Processed, result_of_parsing}
use document_intelligence_mv.World.{World}

module _ (𝓕 : Floats) {O S : Type 0} (s : Services O S 𝓕.Float) (fresh : ℕ → ℕ)
    (profile_id now : ℕ) where
  open 𝓕 use {Float}

  -- The source id of a parsed passage resolves, and to that passage.
  abbrev pub Resolves : Db Float → Document → ParsedChunk → Type 0
  Resolves db d p =
      (h : LexicalHit Float) × (resolve_source 𝓕 db d.tenant_id d.id
          (source_id_for s.libraries d.id p.ordinal)
        ≡ some h)
      × (h.text ≡ p.text)
      × (h.ordinal ≡ p.ordinal)
      × (h.page_number ≡ p.page_number)

  -- What a stored row of a keyed table shows, once it is found by its source id.
  row-Resolves :
      (db : Db Float) (d x : Document) (c : Chunk) (p : ParsedChunk)
      → IsKeyed db
      → In c db.chunks
      → In x db.documents
      → x.id ≡ d.id
      → x.deleted_at ≡ none
      → IsRowOf s.libraries fresh now d p c
      → Resolves db d p
  row-Resolves db d x c p k i j same live (n, e) =
      let (h, found) =
        resolve_source_complete 𝓕 db d.tenant_id c x i j (ap (λ (y : Chunk). y.tenant_id) e)
          (same ∙ sym (ap (λ (y : Chunk). y.document_id) e)) live in
      let resolved =
        subst (λ (y : Chunk). resolve_source 𝓕 db d.tenant_id y.document_id y.source_id ≡ some h) e
          found in
      let (q, in_document, of_source) =
        resolve_source-Quotes 𝓕 db d.tenant_id d.id (source_id_for s.libraries d.id p.ordinal) h
          resolved in
      let of_same_source : c.source_id ≡ q.chunk.source_id =
        ap (λ (y : Chunk). y.source_id) e
        ∙ sym of_source
        ∙ ap (λ (y : LexicalHit Float). y.source_id) q.same in
      let row =
        source_unique db.chunks q.chunk c k.source_ids q.chunk_stored i
          (ap (λ (y : Chunk). y.tenant_id) e ∙ sym q.of_tenant) of_same_source
        ∙ e in
      (
        h,
        resolved,
        ap (λ (y : LexicalHit Float). y.text) q.same ∙ ap (λ (y : Chunk). y.text) row,
        ap (λ (y : LexicalHit Float). y.ordinal) q.same ∙ ap (λ (y : Chunk). y.ordinal) row,
        ap (λ (y : LexicalHit Float). y.page_number) q.same ∙ ap (λ (y : Chunk). y.page_number) row,
      )

  -- Write a document by a job, read it by citations: on keyed tables, with the job's document live, a run that
  -- returns has parsed the content of the document's object (or taken it for a type that is not parsed),
  -- and afterwards the source id of every passage that was parsed resolves, for the document's tenant,
  -- to a hit with that passage's text, ordinal and page. The tables are keyed again.
  pub process_job-Resolves :
      (job : IngestionJob) (d : Document) (w w' : World O S Float) (o : ProcessingOutcome)
      → In d w.db.documents
      → IsKeyed w.db
      → d.id ≡ job.document_id
      → d.tenant_id ≡ job.tenant_id
      → d.deleted_at ≡ none
      → process_job 𝓕 s fresh profile_id now job w ≡ (w', returns o)
      → (content : Text) × (objects : O) × (parsed : ParsedDocument) × (s.storage.get d.storage_key
            w.objects
          ≡ (objects, returns content))
        × (result_of_parsing 𝓕 s d content ≡ returns parsed)
        × All (Resolves w'.db d) parsed.chunks
        × IsKeyed w'.db
  process_job-Resolves job d w w' o i k same_id same_tenant live h =
      let run =
        process_job-Processed 𝓕 s fresh profile_id now job d w w' o i k same_id same_tenant live
          h in
      (
        run.content,
        run.objects,
        run.parsed,
        run.read,
        run.parsed_from,
        All-of-In (Resolves w'.db d) run.parsed.chunks (λ p j.
            let (c, stored, row) =
              replace_chunks-stores s.libraries fresh now d run.parsed.chunks run.before
                run.replaced p run.replacement j in
            row-Resolves w'.db d run.holds.document c p run.holds.keyed
              (subst (In c) (sym run.holds.same_chunks) stored) run.holds.stored
              (run.holds.same_document.0) (run.holds.same_document.2 ∙ live) row),
        run.holds.keyed,
      )
